-- ===== src/Notebook/Rows.antt =====
-- The rows of the notes of crates/peko-core/src/notebook.rs under changes, filters and additions.
use peko_agent.Base.{
  ◌≡◌, ◌≢◌, ◌⊎◌, inl, inr, refl, sym, ap, ◌∙◌, subst, Bool, true, false, ◌||◌, none, some, List, [],
  ◌∷◌, ◌++◌, any, keep_if, All, All-append, All-map, if◌then◌else◌, arith,
}
use peko_agent.Text.{Text, text_eq}
use peko_agent.Text.Equality.{text_eq_refl, text_eq_iff}
use peko_agent.Notebook.{Row, find_row, update_rows}

-- No two rows have the same id or the same slug.
abbrev pub Apart : Row → Row → Type 0
Apart r q = (text_eq r.id q.id ≡ false) × (text_eq r.slug q.slug ≡ false)

abbrev pub AllApart : List Row → Type 0
AllApart [] = Unit
AllApart (r ∷ rs) = All (Apart r) rs × AllApart rs

some-injective : {a b : Row} → some a ≡ some b → a ≡ b
some-injective e = cc

-- The two ways to find a row in a list that is not empty.
found_first :
    (p : Row → Bool) (r : Row) (rs : List Row) {old : Row}
    → find_row p (r ∷ rs) ≡ some old
    → (r ≡ old) ⊎ (find_row p rs ≡ some old)
unfolding find_row
found_first p r rs h = split_on (p r) h
  where
    split_on :
        {old : Row} (b : Bool)
        → (if b then some r else find_row p rs) ≡ some old
        → (r ≡ old) ⊎ (find_row p rs ≡ some old)
    split_on true h = inl (some-injective h)
    split_on false h = inr h

pub find_row-All :
    (P : Row → Type 0) (p : Row → Bool) (rs : List Row) {r : Row}
    → All P rs
    → find_row p rs ≡ some r
    → P r
unfolding find_row
find_row-All P p [] h e = cc
find_row-All P p (q ∷ rs) h e = elim (found_first p q rs e) [
  | inl same ↦ subst P same h.0
  | inr later ↦ find_row-All P p rs h.1 later
]

pub none-All : (p : Row → Bool) (rs : List Row) → find_row p rs ≡ none → All (λ r. p r ≡ false) rs
unfolding find_row
none-All p [] e = tt
none-All p (r ∷ rs) e = split_on (p r) refl (none-All p rs) e
  where
    split_on :
        (b : Bool)
        → p r ≡ b
        → (find_row p rs ≡ none → All (λ r. p r ≡ false) rs)
        → (if b then some r else find_row p rs) ≡ none
        → All (λ r. p r ≡ false) (r ∷ rs)
    split_on true h k e = cc
    split_on false h k e = (h, k e)

-- The id of a row that was found is that of no other row.
pub unique :
    (p : Row → Bool) (rs : List Row) {old : Row}
    → AllApart rs
    → find_row p rs ≡ some old
    → All (λ r. text_eq r.id old.id ≡ true → r.slug ≡ old.slug) rs
unfolding find_row
unique p [] a e = tt
unique p (r ∷ rs) {old} a e = elim (found_first p r rs e) [
  | inl same ↦
      subst (λ o. All (λ q. text_eq q.id o.id ≡ true → q.slug ≡ o.slug) (r ∷ rs)) same
        (
          λ z. refl,
          All-map (Apart r) (λ q. text_eq q.id r.id ≡ true → q.slug ≡ r.slug) rs
              (λ q d z. absurd (
                clash
                  (subst (λ y. text_eq r.id y ≡ true) (sym ((text_eq_iff q.id r.id).0 z))
                    (text_eq_refl r.id))
                  d.0))
              a.0,
        )
  | inr later ↦
      (λ z. absurd (clash z (find_row-All (Apart r) p rs a.0 later).0), unique p rs a.1 later)
]
  where
    clash : {b : Bool} → b ≡ true → b ≢ false
    clash h k = cc

-- Changes of rows that keep the id and the slug.
module _ (p : Row → Bool) (title content kind tags_str now : Text) where
  abbrev pub revised : Row → Row
  revised r = record r {
    title = title;
    content = content;
    kind = kind;
    tags_str = tags_str;
    updated_at = now;
  }

  pub updated-All :
      (P Q : Row → Type 0) (rs : List Row)
      → ((r : Row) → Q r → P r → p r ≡ true → P (revised r))
      → All Q rs
      → All P rs
      → All P (update_rows p revised rs)
  unfolding update_rows
  updated-All P Q [] k q h = tt
  updated-All P Q (r ∷ rs) k q h = (one (p r) refl, updated-All P Q rs k q.1 h.1)
    where
      one : (b : Bool) → p r ≡ b → P (if b then revised r else r)
      one true e = k r q.0 h.0 e
      one false e = h.0

  updated-Apart :
      (r : Row) (rs : List Row) (b : Bool)
      → All (Apart r) rs
      → All (Apart (if b then revised r else r)) (update_rows p revised rs)
  unfolding update_rows
  updated-Apart r [] b h = tt
  updated-Apart r (q ∷ rs) b h = (both b (p q) h.0, updated-Apart r rs b h.1)
    where
      both :
          (b c : Bool) → Apart r q → Apart (if b then revised r else r) (if c then revised q else q)
      both true true d = d
      both true false d = d
      both false true d = d
      both false false d = d

  pub updated-AllApart : (rs : List Row) → AllApart rs → AllApart (update_rows p revised rs)
  unfolding update_rows
  updated-AllApart [] a = tt
  updated-AllApart (r ∷ rs) a = (updated-Apart r rs (p r) a.0, updated-AllApart rs a.1)

  pub updated-any :
      (id : Text) (rs : List Row)
      → any (λ r. text_eq r.id id) (update_rows p revised rs) ≡ any (λ r. text_eq r.id id) rs
  unfolding update_rows
  updated-any id [] = refl
  updated-any id (r ∷ rs) = one (p r) ∙ ap (λ z. text_eq r.id id || z) (updated-any id rs)
    where
      one :
          (b : Bool)
          → (text_eq (if b then revised r else r).id id
              || any (λ r. text_eq r.id id) (update_rows p revised rs))
            ≡ (text_eq r.id id || any (λ r. text_eq r.id id) (update_rows p revised rs))
      one true = refl
      one false = refl

pub All-keep_if :
    {A : Type 0} (P : A → Type 0) (k : A → Bool) (xs : List A)
    → All P xs
    → All (λ x. P x × (k x ≡ true)) (keep_if k xs)
All-keep_if P k [] h = tt
All-keep_if P k (x ∷ xs) h = one (k x) refl (All-keep_if P k xs h.1)
  where
    one :
        (b : Bool)
        → k x ≡ b
        → All (λ x. P x × (k x ≡ true)) (keep_if k xs)
        → All (λ x. P x × (k x ≡ true)) (elim b [ true ↦ x ∷ keep_if k xs | false ↦ keep_if k xs ])
    one true e t = ((h.0, e), t)
    one false e t = t

pub kept-AllApart : (k : Row → Bool) (rs : List Row) → AllApart rs → AllApart (keep_if k rs)
kept-AllApart k [] a = tt
kept-AllApart k (r ∷ rs) a = one (k r) (kept-AllApart k rs a.1)
  where
    one :
        (b : Bool)
        → AllApart (keep_if k rs)
        → AllApart (elim b [ true ↦ r ∷ keep_if k rs | false ↦ keep_if k rs ])
    one true t = (
      All-map (λ q. Apart r q × (k q ≡ true)) (Apart r) (keep_if k rs) (λ q h. h.0)
          (All-keep_if (Apart r) k rs a.0),
      t,
    )
    one false t = t

pub appended-AllApart :
    (rs : List Row) (new : Row)
    → AllApart rs
    → All (λ r. Apart r new) rs
    → AllApart (rs ++ (new ∷ []))
appended-AllApart [] new a h = (tt, tt)
appended-AllApart (r ∷ rs) new a h =
    (All-append (Apart r) rs (new ∷ []) a.0 (h.0, tt), appended-AllApart rs new a.1 h.1)

-- A source that is in a list is in its parts that keep it.
pub any-append : (g : Row → Bool) (rs qs : List Row) → any g rs ≡ true → any g (rs ++ qs) ≡ true
any-append g [] qs h = cc
any-append g (r ∷ rs) qs h = ground (arith, any-append g rs qs)

pub any-last :
    (g : Row → Bool) (rs : List Row) (r : Row) → g r ≡ true → any g (rs ++ (r ∷ [])) ≡ true
any-last g [] r h = rw h refl
any-last g (q ∷ rs) r h = ground (arith, any-last g rs r h)

pub any-keep :
    (g k : Row → Bool) (rs : List Row)
    → ((r : Row) → g r ≡ true → k r ≡ true)
    → any g rs ≡ true
    → any g (keep_if k rs) ≡ true
any-keep g k [] f h = cc
any-keep g k (r ∷ rs) f h = one (g r) (k r) refl refl (any-keep g k rs f)
  where
    one :
        (a b : Bool)
        → g r ≡ a
        → k r ≡ b
        → (any g rs ≡ true → any g (keep_if k rs) ≡ true)
        → any g (elim b [ true ↦ r ∷ keep_if k rs | false ↦ keep_if k rs ]) ≡ true
    one true true ga kb t = rw ga refl
    one true false ga kb t = absurd (clash (sym (f r ga) ∙ kb))
      where
        clash : true ≢ false
        clash e = cc
    one false true ga kb t = rw ga (t (subst (λ z. (z || any g rs) ≡ true) ga h))
    one false false ga kb t = t (subst (λ z. (z || any g rs) ≡ true) ga h)

pub any-found :
    (g : Row → Bool) (p : Row → Bool) (rs : List Row) {r : Row}
    → find_row p rs ≡ some r
    → g r ≡ true
    → any g rs ≡ true
unfolding find_row
any-found g p [] e h = cc
any-found g p (q ∷ rs) e h = elim (found_first p q rs e) [
  | inl same ↦ rw (subst (λ z. g z ≡ true) (sym same) h) refl
  | inr later ↦ or-true (g q) (any-found g p rs later h)
]
  where
    or-true : (b : Bool) {c : Bool} → c ≡ true → (b || c) ≡ true
    or-true b k = ground arith
