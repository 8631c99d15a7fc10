-- ===== src/Plan/Marked.antt =====
-- A plan's marker from the draft of crates/peko-tools-android/src/plan_tool.rs to the Telegram bot of
-- src/telegram/bot.rs, and on to its buttons.
use peko_agent.Base.{
  ℕ, ◌≡◌, ◌≢◌, inl, inr, refl, sym, ap, ◌∙◌, subst, Bool, true, false, Option, none, some, List, [],
  ◌∷◌, ◌++◌, ◌==◌, All, All-append, All-map, Bool-cases, if◌then◌else◌, arith, all-false,
}
use mathlib.Core.Option
use peko_agent.Text.{Text, text, is_whitespace, is_empty, join, strip_prefix, trim}
use peko_agent.Text.Split.{split, IsFree, split-free-append, trim-solid}
use peko_agent.Sse.{lines, lines_of, without_return}
use peko_agent.Notebook.Slug.{is_ascii_punctuation, is_separator}
use peko_agent.Notebook.Dashes.{IsSlugChar}
use peko_agent.Plan.Content.{marker}
use peko_agent.Plan.Marker.{
  PlanMarkerKind, PlanMarker, approve, auto, or_else, behind, up_to_bracket, nonempty,
  extract_marker, marker_of, with_line, on_lines, parse_plan_marker,
}

-- What a slug's character is not.
pub record IsInside (c : ℕ) : Type 0 where
  no_open : (91 == c) ≡ false
  no_close : (c == 93) ≡ false
  no_line : (c == 10) ≡ false
  no_white : is_whitespace c ≡ false

pub slug-IsInside : (c : ℕ) → IsSlugChar c → IsInside c
unfolding is_separator is_ascii_punctuation is_whitespace
slug-IsInside c (inl e) =
    subst IsInside (sym e)
      (record { no_open = refl; no_close = refl; no_line = refl; no_white = refl })
slug-IsInside c (inr h) = record {
  no_open = ground arith;
  no_close = ground arith;
  no_line = ground arith;
  no_white = ground arith;
}

strip_prefix-append : (p t : Text) → strip_prefix p (p ++ t) ≡ some t
unfolding strip_prefix
strip_prefix-append [] t = refl
strip_prefix-append (c ∷ p) t = ground (arith, strip_prefix-append p t)

-- A prefix with an opening bracket is not found where there is none.
behind-free : (p t : Text) → All (λ c. (91 == c) ≡ false) t → behind (91 ∷ p) t ≡ none
unfolding behind strip_prefix
behind-free p [] h = refl
behind-free p (c ∷ t) h =
    subst (λ z. or_else (if z then strip_prefix p t else none) (behind (91 ∷ p) t) ≡ none) (sym h.0)
      (behind-free p t h.1)

up_to_bracket-free :
    (s t : Text) → All (λ c. (c == 93) ≡ false) s → up_to_bracket (s ++ (93 ∷ t)) ≡ some s
unfolding up_to_bracket
up_to_bracket-free [] t h = refl
up_to_bracket-free (c ∷ s) t h = rw (h.0, up_to_bracket-free s t h.1) refl

behind-here : (c : ℕ) (p t : Text) → behind (c ∷ p) (c ∷ (p ++ t)) ≡ some t
unfolding behind
behind-here c p t =
    subst (λ z. or_else z (behind (c ∷ p) (p ++ t)) ≡ some t) (sym (strip_prefix-append (c ∷ p) t))
      refl

without_return-bracket : (s : Text) → without_return (s ++ (93 ∷ [])) ≡ s ++ (93 ∷ [])
unfolding without_return
without_return-bracket [] = refl
without_return-bracket (c ∷ []) = refl
without_return-bracket (c ∷ d ∷ s) = ap (λ z. c ∷ z) (without_return-bracket (d ∷ s))

split-cons : (sep : ℕ) (t : Text) → (u : Text) × (us : List Text) × (split sep t ≡ u ∷ us)
unfolding split
split-cons sep [] = ([], [], refl)
split-cons sep (c ∷ t) = elim (Bool-cases (c == sep)) [
  | inl b ↦ ([], split sep t, rw b refl)
  | inr b ↦ let r = split-cons sep t in (c ∷ r.0, r.1, rw (b, r.2) refl)
]

-- A first line that ends in a bracket, with no line feed in it.
first_line :
    (s t : Text)
    → IsFree 10 s
    → (ls : List Text) × (lines ((s ++ (93 ∷ [])) ++ (10 ∷ t)) ≡ (s ++ (93 ∷ [])) ∷ ls)
unfolding lines lines_of
first_line s t free =
    let r = split-cons 10 t in
    (
      lines_of (r.0 ∷ r.1),
      ap lines_of (
            split-free-append 10 (s ++ (93 ∷ [])) t
              (All-append (λ c. (c == 10) ≡ false) s (93 ∷ []) free (refl, tt))
            ∙ ap (λ z. (s ++ (93 ∷ [])) ∷ z) r.2)
          ∙ ap (λ z. z ∷ lines_of (r.0 ∷ r.1)) (without_return-bracket s),
    )

abbrev pub marker_kind : Bool → PlanMarkerKind
marker_kind true = approve
marker_kind false = auto

module _ (slug : Text) (inside : All IsInside slug) (full : slug ≢ []) where
  nonempty_slug : nonempty (trim slug) ≡ some slug
  unfolding is_empty
  nonempty_slug =
      rw
        (trim-solid slug
          (All-map IsInside (λ c. is_whitespace c ≡ false) slug (λ c h. h.no_white) inside))
        (shown slug full)
    where
      shown : (s : Text) → s ≢ [] → nonempty s ≡ some s
      shown [] ne = absurd (ne refl)
      shown (c ∷ s) ne = refl

  slug_read : Option.bind (up_to_bracket (slug ++ (93 ∷ []))) (λ s. nonempty (trim s)) ≡ some slug
  unfolding Option.bind is_empty
  slug_read =
      rw
        (up_to_bracket-free slug []
          (All-map IsInside (λ c. (c == 93) ≡ false) slug (λ c h. h.no_close) inside))
        nonempty_slug

  extract-here :
      (c : ℕ) (p : Text) → extract_marker (c ∷ (p ++ (slug ++ (93 ∷ [])))) (c ∷ p) ≡ some slug
  unfolding extract_marker Option.bind is_empty
  extract-here c p = rw (behind-here c p (slug ++ (93 ∷ []))) slug_read

  no_approve : extract_marker (marker false slug) (text "[plan:approve:") ≡ none
  unfolding extract_marker marker behind strip_prefix Option.bind
  no_approve =
      subst
        (λ z.
          Option.bind z (λ rest. Option.bind (up_to_bracket rest) (λ s. nonempty (trim s))) ≡ none)
        (sym (
          behind-free (text "plan:approve:") (text "plan:auto:" ++ (slug ++ (93 ∷ []))) (
            All-append (λ c. (91 == c) ≡ false) (text "plan:auto:") (slug ++ (93 ∷ []))
              (all-false (λ c. 91 == c) (text "plan:auto:") refl)
              (All-append (λ c. (91 == c) ≡ false) slug (93 ∷ [])
                (All-map IsInside (λ c. (91 == c) ≡ false) slug (λ c h. h.no_open) inside)
                (refl, tt)))))
        refl

  marker_of-marker : (b : Bool) → marker_of (marker b slug) ≡ some (marker_kind b, slug)
  unfolding marker_of marker
  marker_of-marker true =
      subst
        (λ z.
          or_else {A = PlanMarkerKind × Text} (Option.map (λ t. (approve, t)) z)
            (Option.map (λ t. (auto, t)) (extract_marker (marker true slug) (text "[plan:auto:")))
          ≡ some (approve, slug))
        (sym (extract-here 91 (text "plan:approve:"))) refl
  marker_of-marker false =
      subst
        (λ z.
          or_else {A = PlanMarkerKind × Text} (Option.map (λ t. (approve, t)) z)
            (Option.map (λ t. (auto, t)) (extract_marker (marker false slug) (text "[plan:auto:")))
          ≡ some (auto, slug))
        (sym no_approve) (ap (Option.map (λ t. (auto, t))) (extract-here 91 (text "plan:auto:")))

  marker-IsFree : (b : Bool) → (s : Text) × (marker b slug ≡ s ++ (93 ∷ [])) × IsFree 10 s
  unfolding marker
  marker-IsFree true = (
    text "[plan:approve:" ++ slug,
    refl,
    All-append (λ c. (c == 10) ≡ false) (text "[plan:approve:") slug
        (all-false (λ c. c == 10) (text "[plan:approve:") refl)
        (All-map IsInside (λ c. (c == 10) ≡ false) slug (λ c h. h.no_line) inside),
  )
  marker-IsFree false = (
    text "[plan:auto:" ++ slug,
    refl,
    All-append (λ c. (c == 10) ≡ false) (text "[plan:auto:") slug
        (all-false (λ c. c == 10) (text "[plan:auto:") refl)
        (All-map IsInside (λ c. (c == 10) ≡ false) slug (λ c h. h.no_line) inside),
  )

  -- A text whose first line is the marker.
  pub marker-read :
      (b : Bool) (t : Text)
      → (m : PlanMarker) × (parse_plan_marker (marker b slug ++ (10 ∷ t)) ≡ some m)
        × (m.kind ≡ marker_kind b)
        × (m.slug ≡ slug)
  unfolding parse_plan_marker
  marker-read b t =
      let (s, e, free) = marker-IsFree b in
      let (ls, f) = first_line s t free in
      let g = ap (λ z. lines (z ++ (10 ∷ t))) e ∙ f ∙ ap (λ z. z ∷ ls) (sym e) in
      (
        record { kind = marker_kind b; slug = slug; body = trim (join (text "\n") ls) },
        ap taken g
            ∙ ap (λ z. after (with_line z (marker b slug) ls (on_lines ls))) (marker_of-marker b),
        refl,
        refl,
      )
    where
      after : Option (PlanMarkerKind × Text) × List Text → Option PlanMarker
      after found =
          Option.map
            (λ m. record { kind = m.0; slug = m.1; body = trim (join (text "\n") found.1) }) found.0

      taken : List Text → Option PlanMarker
      taken ts = after (on_lines ts)
