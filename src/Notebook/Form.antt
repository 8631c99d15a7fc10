-- ===== src/Notebook/Form.antt =====
-- The form of a slug: what `slugify` of crates/peko-core/src/notebook.rs gives for any title.
use peko_agent.Base.{
  ℕ, zero, suc, ◌+◌, ◌≤◌, ◌≡◌, ◌≢◌, inl, inr, refl, sym, ap, ◌∙◌, Bool, true, false, not, ◌&&◌,
  ◌||◌, [], ◌∷◌, ◌++◌, ltb, leb, ◌==◌, length, take, All, All-append, All-map, length-append,
  length-take, Bool-cases, if◌then◌else◌, arith, subst,
}
use peko_agent.Text.{Text, is_whitespace, is_empty}
use peko_agent.Notebook.Slug.{
  Unicode, Slugging, is_alphanumeric, to_lowercase, is_ascii_punctuation, is_separator, on_char,
  on_chars, cons_popped, pop_dashes, max_slug, capped, slugify,
}
use peko_agent.Notebook.Dashes.{
  starts_dash, ends_dash, has_double, IsSlugChar, ends-append, double-append, double-front,
  starts-front, allowed-front, solid-ends, solid-starts, solid-double,
}

pub record IsSlug (s : Text) : Type 0 where
  pub allowed : All IsSlugChar s
  pub no_lead : starts_dash s ≡ false
  pub no_trail : ends_dash s ≡ false
  pub no_double : has_double s ≡ false
  pub short : length s ≤ max_slug

-- What Unicode says of its alphanumeric characters beyond ASCII: they have a lower case form, of
-- characters that are neither white nor ASCII punctuation.
abbrev pub IsTable : Unicode → Type 0
IsTable u =
    (c : ℕ)
    → u.alphanumeric c ≡ true
    → (u.lowercase c ≢ []) × All (λ d. is_separator d ≡ false) (u.lowercase c)

ascii_lower :
    (c : ℕ)
    → ltb c 128 ≡ true
    → (leb 48 c && leb c 57 || (leb 65 c && leb c 90) || leb 97 c && leb c 122) ≡ true
    → is_separator (if leb 65 c && leb c 90 then c + 32 else c) ≡ false
unfolding is_separator is_ascii_punctuation is_whitespace
ascii_lower c a h = ground arith

pub to_lowercase-solid :
    (u : Unicode) (c : ℕ)
    → IsTable u
    → is_alphanumeric u c ≡ true
    → (to_lowercase u c ≢ []) × All (λ d. is_separator d ≡ false) (to_lowercase u c)
unfolding is_alphanumeric to_lowercase
to_lowercase-solid u c table h = elim (Bool-cases (ltb c 128)) [
  | inl a ↦ rw a (ground arith, (ascii_lower c a (subst (λ z. tested z ≡ true) a h), tt))
  | inr a ↦ rw a (table c (subst (λ z. tested z ≡ true) a h))
]
  where
    tested : Bool → Bool
    tested z =
        if z
        then leb 48 c && leb c 57 || leb 65 c && leb c 90 || leb 97 c && leb c 122
        else u.alphanumeric c

-- What is left of a text is its front.
pop_dashes-front : (s : Text) → (t : Text) × (pop_dashes s ++ t ≡ s)
unfolding pop_dashes
pop_dashes-front [] = ([], refl)
pop_dashes-front (c ∷ s) = popped (pop_dashes s) (pop_dashes-front s)
  where
    popped : (p : Text) → (t : Text) × (p ++ t ≡ s) → (t : Text) × (cons_popped c p ++ t ≡ c ∷ s)
    popped [] (t, e) = elim (Bool-cases (c == 45)) [
      | inl b ↦ (c ∷ t, rw (b, e) refl)
      | inr b ↦ (t, rw (b, e) refl)
    ]
    popped (d ∷ p) (t, e) = (t, ap (λ z. c ∷ z) e)

take-front : (n : ℕ) (s : Text) → (t : Text) × (take n s ++ t ≡ s)
take-front zero s = (s, refl)
take-front (suc n) [] = ([], refl)
take-front (suc n) (c ∷ s) = let r = take-front n s in (r.0, ap (λ z. c ∷ z) r.1)

pop_dashes-ends : (s : Text) → ends_dash (pop_dashes s) ≡ false
unfolding pop_dashes
pop_dashes-ends [] = refl
pop_dashes-ends (c ∷ s) = popped (pop_dashes s) (pop_dashes-ends s)
  where
    popped : (p : Text) → ends_dash p ≡ false → ends_dash (cons_popped c p) ≡ false
    popped [] h = elim (Bool-cases (c == 45)) [ inl b ↦ rw b refl | inr b ↦ rw b b ]
    popped (d ∷ p) h = h

-- What the front of a text has of its form.
record IsSpaced (s : Text) : Type 0 where
  allowed : All IsSlugChar s
  no_lead : starts_dash s ≡ false
  no_double : has_double s ≡ false

front-IsSpaced : (p t : Text) {s : Text} → p ++ t ≡ s → IsSpaced s → IsSpaced p
front-IsSpaced p t e h = record {
  allowed = allowed-front p t (rw e h.allowed);
  no_lead = starts-front p t (rw e h.no_lead);
  no_double = double-front p t (rw e h.no_double);
}

pop_dashes-IsSpaced : (s : Text) → IsSpaced s → IsSpaced (pop_dashes s)
pop_dashes-IsSpaced s h = let r = pop_dashes-front s in front-IsSpaced (pop_dashes s) r.0 r.1 h

take-IsSpaced : (n : ℕ) (s : Text) → IsSpaced s → IsSpaced (take n s)
take-IsSpaced n s h = let r = take-front n s in front-IsSpaced (take n s) r.0 r.1 h

length-front-le : (p t : Text) {s : Text} → p ++ t ≡ s → length p ≤ length s
length-front-le p t e = rw (sym e) (omega (arith, length-append p t))

capped-IsSlug : (s : Text) → IsSpaced s → ends_dash s ≡ false → IsSlug (capped s)
unfolding capped
capped-IsSlug s h e = elim (Bool-cases (ltb max_slug (length s))) [
  | inl b ↦ rw b (
      let k = pop_dashes-IsSpaced (take max_slug s) (take-IsSpaced max_slug s h) in
      let f = pop_dashes-front (take max_slug s) in
      record {
        allowed = k.allowed;
        no_lead = k.no_lead;
        no_trail = pop_dashes-ends (take max_slug s);
        no_double = k.no_double;
        short =
            omega (
              arith,
              length-front-le (pop_dashes (take max_slug s)) f.0 f.1,
              length-take max_slug s,
            );
      })
  | inr b ↦ rw b (record {
    allowed = h.allowed;
    no_lead = h.no_lead;
    no_trail = e;
    no_double = h.no_double;
    short = ground arith;
  })
]

-- The loop: the text so far is spaced, and ends in no dash unless the flag says so.
record IsReady (g : Slugging) : Type 0 where
  spaced : IsSpaced g.out
  apart : g.last_was_dash ≡ false → ends_dash g.out ≡ false

append-starts :
    (s t : Text)
    → starts_dash s ≡ false
    → (s ≡ [] → starts_dash t ≡ false)
    → starts_dash (s ++ t) ≡ false
append-starts [] t h k = k refl
append-starts (c ∷ s) t h k = h

append-IsSpaced :
    (s t : Text)
    → IsSpaced s
    → All IsSlugChar t
    → has_double t ≡ false
    → (s ≡ [] → starts_dash t ≡ false)
    → (ends_dash s && starts_dash t) ≡ false
    → IsSpaced (s ++ t)
append-IsSpaced s t h a d k e = record {
  allowed = All-append IsSlugChar s t h.allowed a;
  no_lead = append-starts s t h.no_lead k;
  no_double = double-append s t h.no_double d e;
}

separated :
    (b : Bool) (o : Text) (d : Bool)
    → IsReady (record { out = o; last_was_dash = d })
    → IsReady (
        if b && not d && not (is_empty o)
        then record { out = o ++ (45 ∷ []); last_was_dash = true }
        else record { out = o; last_was_dash = d })
unfolding is_empty
separated false o d h = h
separated true o true h = h
separated true [] false h = h
separated true (c ∷ o) false h = record {
  spaced =
      append-IsSpaced (c ∷ o) (45 ∷ []) h.spaced (inl refl, tt) refl (λ z. cc)
        (rw (h.apart refl) refl);
  apart = λ z. cc;
}

abbrev pub start : Slugging
start = record { out = []; last_was_dash = true }

module _ (u : Unicode) (table : IsTable u) where
  on_char-IsReady : (g : Slugging) (c : ℕ) → IsReady g → IsReady (on_char u g c)
  unfolding on_char
  on_char-IsReady g c h = elim (Bool-cases (is_alphanumeric u c)) [
    | inl b ↦
        let (ne, solid) = to_lowercase-solid u c table b in
        rw b (record {
          spaced =
              append-IsSpaced g.out (to_lowercase u c) h.spaced
                (All-map _ IsSlugChar (to_lowercase u c) (λ d k. inr k) solid)
                (solid-double (to_lowercase u c) solid) (λ z. solid-starts (to_lowercase u c) solid)
                (rw (solid-starts (to_lowercase u c) solid) (ground arith));
          apart =
              λ z. ends-append g.out (to_lowercase u c) ne ∙ solid-ends (to_lowercase u c) solid;
        })
    | inr b ↦ rw b (separated (is_separator c) g.out g.last_was_dash h)
  ]

  on_chars-IsReady : (g : Slugging) (t : Text) → IsReady g → IsReady (on_chars u g t)
  unfolding on_chars
  on_chars-IsReady g [] h = h
  on_chars-IsReady g (c ∷ t) h = on_chars-IsReady (on_char u g c) t (on_char-IsReady g c h)

  -- What `slugify` gives for a title is empty or a name that is safe for a file and a link: at most
  -- 80 characters, each of them a dash or neither white nor ASCII punctuation, with no dash at
  -- either end and no two dashes in a row. The tables of Unicode are as documented.
  pub slugify-IsSlug : (title : Text) → IsSlug (slugify u title)
  unfolding slugify
  slugify-IsSlug title =
      let ready = on_chars-IsReady start title (record {
        spaced = record { allowed = tt; no_lead = refl; no_double = refl };
        apart = λ z. refl;
      }) in
      capped-IsSlug (pop_dashes (on_chars u start title).out)
        (pop_dashes-IsSpaced (on_chars u start title).out ready.spaced)
        (pop_dashes-ends (on_chars u start title).out)
