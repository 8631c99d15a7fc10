-- ===== src/Notebook/Begun.antt =====
-- Titles that have a slug: `slugify` of crates/peko-core/src/notebook.rs.
use peko_agent.Base.{
  ℕ, ◌≡◌, ◌≢◌, inl, inr, refl, sym, ap, ◌∙◌, subst, Bool, true, false, not, ◌&&◌, [], ◌∷◌, ◌++◌,
  ltb, ◌==◌, length, take, All, Bool-cases, if◌then◌else◌,
}
use peko_agent.Text.{Text, is_empty}
use peko_agent.Notebook.Slug.{
  Unicode, Slugging, is_alphanumeric, to_lowercase, is_separator, on_char, on_chars, cons_popped,
  pop_dashes, max_slug, capped, slugify,
}
use peko_agent.Notebook.Form.{IsTable, to_lowercase-solid, start}
use peko_agent.Notebook.Dashes.{no_dash}

-- A text that begins with no dash.
Begins : Text → Type 0
Begins s = (d : ℕ) × (t : Text) × (s ≡ d ∷ t) × ((d == 45) ≡ false)

append-Begins : (s t : Text) → Begins s → Begins (s ++ t)
unfolding Begins
append-Begins s t (d, r, e, n) = (d, r ++ t, ap (λ z. z ++ t) e, n)

solid-Begins : (s : Text) → s ≢ [] → All (λ d. is_separator d ≡ false) s → Begins s
unfolding Begins
solid-Begins [] ne h = absurd (ne refl)
solid-Begins (d ∷ t) ne h = (d, t, refl, no_dash d h.0)

pop_dashes-Begins : (s : Text) → Begins s → Begins (pop_dashes s)
unfolding Begins pop_dashes
pop_dashes-Begins s (d, t, e, n) =
    subst (λ z. Begins (pop_dashes z)) (sym e) (popped (pop_dashes t))
  where
    popped : (p : Text) → Begins (cons_popped d p)
    popped [] = (d, [], rw n refl, n)
    popped (x ∷ p) = (d, x ∷ p, refl, n)

capped-Begins : (s : Text) → Begins s → Begins (capped s)
unfolding Begins capped
capped-Begins s (d, t, e, n) = elim (Bool-cases (ltb max_slug (length s))) [
  | inl b ↦ rw b (
      pop_dashes-Begins (take max_slug s)
        (subst (λ z. Begins (take max_slug z)) (sym e) (d, take 79 t, refl, n)))
  | inr b ↦ rw b (d, t, e, n)
]

on_char-Begins : (u : Unicode) (g : Slugging) (c : ℕ) → Begins g.out → Begins (on_char u g c).out
unfolding on_char
on_char-Begins u g c h =
    branched (is_alphanumeric u c) (is_separator c && not g.last_was_dash && not (is_empty g.out))
  where
    branched :
        (a b : Bool)
        → Begins
            (if a
              then record { out = g.out ++ to_lowercase u c; last_was_dash = false }
              else if b
              then record { out = g.out ++ (45 ∷ []); last_was_dash = true }
              else g).out
    branched true b = append-Begins g.out (to_lowercase u c) h
    branched false true = append-Begins g.out (45 ∷ []) h
    branched false false = h

on_chars-Begins :
    (u : Unicode) (g : Slugging) (t : Text) → Begins g.out → Begins (on_chars u g t).out
unfolding on_chars
on_chars-Begins u g [] h = h
on_chars-Begins u g (c ∷ t) h = on_chars-Begins u (on_char u g c) t (on_char-Begins u g c h)

pub slugify-nonempty :
    (u : Unicode) (c : ℕ) (title : Text)
    → IsTable u
    → is_alphanumeric u c ≡ true
    → slugify u (c ∷ title) ≢ []
unfolding slugify on_chars on_char Begins
slugify-nonempty u c title table h =
    let (ne, solid) = to_lowercase-solid u c table h in
    let first =
      subst
        (λ z.
          Begins
            (if z
              then record { out = to_lowercase u c; last_was_dash = false }
              else if is_separator c && not true && not (is_empty [])
              then record { out = 45 ∷ []; last_was_dash = true }
              else start).out)
        (sym h) (solid-Begins (to_lowercase u c) ne solid) in
    let r = capped-Begins (pop_dashes (on_chars u (on_char u start c) title).out) (
      pop_dashes-Begins (on_chars u (on_char u start c) title).out
        (on_chars-Begins u (on_char u start c) title first)) in
    λ z. nil-cons (sym z ∙ r.2)
  where
    nil-cons : {d : ℕ} {t : Text} → [] ≢ d ∷ t
    nil-cons w = cc
