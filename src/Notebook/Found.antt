-- ===== src/Notebook/Found.antt =====
-- Which row a name finds after a change, in the notes of crates/peko-core/src/notebook.rs.
use peko_agent.Base.{
  ◌≡◌, ◌≢◌, inl, inr, refl, sym, subst, Bool, true, false, ◌||◌, none, some, List, [], ◌∷◌, ◌++◌,
  All, Bool-cases, if◌then◌else◌,
}
use peko_agent.Text.{Text, text_eq}
use peko_agent.Text.Equality.{text_eq_refl}
use peko_agent.Notebook.{Row, find_row, update_rows, has_id, has_slug, is_named}

-- No row's id is this text.
abbrev pub NoId : Text → List Row → Type 0
NoId name = All (λ r. text_eq r.id name ≡ false)

-- A change of a row that keeps its names.
pub record Keeps (f : Row → Row) : Type 0 where
  pub same_id : (r : Row) → (f r).id ≡ r.id
  pub same_slug : (r : Row) → (f r).slug ≡ r.slug

some-injective : {a b : Row} → some a ≡ some b → a ≡ b
some-injective e = cc

pub find-updated :
    (slug : Text) (f : Row → Row) (rs : List Row) {old : Row}
    → Keeps f
    → NoId slug rs
    → find_row (has_slug slug) rs ≡ some old
    → find_row (is_named slug) (update_rows (has_id old.id) f rs) ≡ some (f old)
unfolding find_row update_rows
find-updated slug f [] k free h = cc
find-updated slug f (r ∷ rs) {old} k free h = elim (Bool-cases (has_slug slug r)) [
  | inl b ↦
      subst (λ o. find_row (is_named slug) (update_rows (has_id o.id) f (r ∷ rs)) ≡ some (f o))
        (some-injective
          (subst (λ z. (if z then some r else find_row (has_slug slug) rs) ≡ some old) b h))
        (rw (text_eq_refl r.id, k.same_id r, k.same_slug r, free.0, b) refl)
  | inr b ↦ rw (skipped (has_id old.id r) b) (
      find-updated slug f rs k free.1
        (subst (λ z. (if z then some r else find_row (has_slug slug) rs) ≡ some old) b h))
]
  where
    skipped : (x : Bool) → has_slug slug r ≡ false → is_named slug (if x then f r else r) ≡ false
    skipped true b = rw (k.same_id r, k.same_slug r, free.0) b
    skipped false b = rw free.0 b

pub find-appended :
    (slug : Text) (rs : List Row) (new : Row)
    → NoId slug rs
    → find_row (has_slug slug) rs ≡ none
    → new.slug ≡ slug
    → find_row (is_named slug) (rs ++ (new ∷ [])) ≡ some new
unfolding find_row
find-appended slug [] new free h e =
    rw (subst (λ z. text_eq z slug ≡ true) (sym e) (text_eq_refl slug))
      (or-true (text_eq new.id slug))
  where
    or-true : (b : Bool) → (if b || true then some new else none) ≡ some new
    or-true true = refl
    or-true false = refl
find-appended slug (r ∷ rs) new free h e = elim (Bool-cases (has_slug slug r)) [
  | inl b ↦
      absurd
        (some-none (subst (λ z. (if z then some r else find_row (has_slug slug) rs) ≡ none) b h))
  | inr b ↦
      rw (free.0, b)
        (find-appended slug rs new free.1
          (subst (λ z. (if z then some r else find_row (has_slug slug) rs) ≡ none) b h) e)
]
  where
    some-none : some r ≢ none
    some-none z = cc

pub find_row-holds :
    (p : Row → Bool) (rs : List Row) {r : Row} → find_row p rs ≡ some r → p r ≡ true
unfolding find_row
find_row-holds p [] h = cc
find_row-holds p (q ∷ rs) {r} h = elim (Bool-cases (p q)) [
  | inl b ↦
      subst (λ z. p z ≡ true)
        (some-injective (subst (λ z. (if z then some q else find_row p rs) ≡ some r) b h)) b
  | inr b ↦ find_row-holds p rs (subst (λ z. (if z then some q else find_row p rs) ≡ some r) b h)
]
