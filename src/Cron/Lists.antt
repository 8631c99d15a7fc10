-- ===== src/Cron/Lists.antt =====
-- `sort` and `dedup`, as `parse_field` of crates/peko-core/src/cron.rs uses them.
use peko_agent.Base.{
  ℕ, ◌≤◌, ◌<◌, ◌≡◌, refl, ◌||◌, List, [], ◌∷◌, ◌++◌, leb, ◌==◌, All, All-map, arith, Bool-cases,
  inl, inr, ◌∙◌, ap, leb→le,
}
use peko_agent.Cron.Values.{has, insert, sort, dedup_after, dedup}

-- Weakly and strictly ascending.
abbrev pub IsSorted : List ℕ → Type 0
IsSorted [] = Unit {0}
IsSorted (v ∷ vs) = All (λ w. v ≤ w) vs × IsSorted vs

abbrev pub IsAscending : List ℕ → Type 0
IsAscending [] = Unit {0}
IsAscending (v ∷ vs) = All (λ w. v < w) vs × IsAscending vs

pub has-append : (x : ℕ) (us vs : List ℕ) → has x (us ++ vs) ≡ (has x us || has x vs)
unfolding has
has-append x [] vs = refl
has-append x (u ∷ us) vs = ground (arith, has-append x us vs)

has-insert : (x v : ℕ) (vs : List ℕ) → has x (insert v vs) ≡ (x == v || has x vs)
unfolding has insert
has-insert x v [] = refl
has-insert x v (w ∷ vs) = ground (arith, has-insert x v vs)

pub has-sort : (x : ℕ) (vs : List ℕ) → has x (sort vs) ≡ has x vs
unfolding has sort
has-sort x [] = refl
has-sort x (v ∷ vs) = ground (arith, has-insert x v (sort vs), has-sort x vs)

has-dedup_after :
    (x v : ℕ) (vs : List ℕ) → (x == v || has x (dedup_after v vs)) ≡ (x == v || has x vs)
unfolding has dedup_after
has-dedup_after x v [] = refl
has-dedup_after x v (w ∷ vs) = ground (arith, has-dedup_after x v vs, has-dedup_after x w vs)

pub has-dedup : (x : ℕ) (vs : List ℕ) → has x (dedup vs) ≡ has x vs
unfolding has dedup
has-dedup x [] = refl
has-dedup x (v ∷ vs) = has-dedup_after x v vs

module _ (P : ℕ → Type 0) where
  All-insert : (v : ℕ) (vs : List ℕ) → P v → All P vs → All P (insert v vs)
  unfolding insert
  All-insert v [] p h = (p, tt)
  All-insert v (w ∷ vs) p h = elim (Bool-cases (leb v w)) [
    | inl e ↦ rw e (p, h)
    | inr e ↦ rw e (h.0, All-insert v vs p h.1)
  ]

  pub All-sort : (vs : List ℕ) → All P vs → All P (sort vs)
  unfolding sort
  All-sort [] h = tt
  All-sort (v ∷ vs) h = All-insert v (sort vs) h.0 (All-sort vs h.1)

  All-dedup_after : (v : ℕ) (vs : List ℕ) → All P vs → All P (dedup_after v vs)
  unfolding dedup_after
  All-dedup_after v [] h = tt
  All-dedup_after v (w ∷ vs) h = elim (Bool-cases (v == w)) [
    | inl e ↦ rw e (All-dedup_after v vs h.1)
    | inr e ↦ rw e (h.0, All-dedup_after w vs h.1)
  ]

  pub All-dedup : (vs : List ℕ) → All P vs → All P (dedup vs)
  unfolding dedup
  All-dedup [] h = tt
  All-dedup (v ∷ vs) h = (h.0, All-dedup_after v vs h.1)

insert-IsSorted : (v : ℕ) (vs : List ℕ) → IsSorted vs → IsSorted (insert v vs)
unfolding insert
insert-IsSorted v [] h = (tt, tt)
insert-IsSorted v (w ∷ vs) h = elim (Bool-cases (leb v w)) [
  | inl e ↦
      let le : v ≤ w = leb→le v w e in
      rw e ((le, All-map (λ x. w ≤ x) (λ x. v ≤ x) vs (λ x k. omega arith) h.0), h)
  | inr e ↦ rw e (All-insert (λ x. w ≤ x) v vs (ground arith) h.0, insert-IsSorted v vs h.1)
]

pub sort-IsSorted : (vs : List ℕ) → IsSorted (sort vs)
unfolding sort
sort-IsSorted [] = tt
sort-IsSorted (v ∷ vs) = insert-IsSorted v (sort vs) (sort-IsSorted vs)

-- Behind `v`, with everything at least `v`, what is left is above `v` and ascending.
dedup_after-IsAscending :
    (v : ℕ) (vs : List ℕ)
    → All (λ w. v ≤ w) vs
    → IsSorted vs
    → All (λ w. v < w) (dedup_after v vs) × IsAscending (dedup_after v vs)
unfolding dedup_after
dedup_after-IsAscending v [] h s = (tt, tt)
dedup_after-IsAscending v (w ∷ vs) h s = elim (Bool-cases (v == w)) [
  | inl e ↦ rw e (dedup_after-IsAscending v vs h.1 s.1)
  | inr e ↦
      let lt : v < w = ground arith in
      let rest = dedup_after-IsAscending w vs s.0 s.1 in
      rw e ((lt, All-map (λ x. w < x) (λ x. v < x) _ (λ x k. omega arith) rest.0), rest)
]

pub dedup-IsAscending : (vs : List ℕ) → IsSorted vs → IsAscending (dedup vs)
unfolding dedup
dedup-IsAscending [] s = tt
dedup-IsAscending (v ∷ vs) s = dedup_after-IsAscending v vs s.0 s.1

-- A list that is strictly ascending already stays as it is.
insert-below : (v : ℕ) (vs : List ℕ) → All (λ w. v < w) vs → insert v vs ≡ v ∷ vs
unfolding insert
insert-below v [] h = refl
insert-below v (w ∷ vs) h = ground arith

sort-ascending : (vs : List ℕ) → IsAscending vs → sort vs ≡ vs
unfolding sort
sort-ascending [] h = refl
sort-ascending (v ∷ vs) h = rw (sort-ascending vs h.1) (insert-below v vs h.0)

dedup_after-ascending :
    (v : ℕ) (vs : List ℕ) → All (λ w. v < w) vs → IsAscending vs → dedup_after v vs ≡ vs
unfolding dedup_after
dedup_after-ascending v [] h s = refl
dedup_after-ascending v (w ∷ vs) h s = ground (arith, dedup_after-ascending w vs s.0 s.1)

pub dedup-sort-ascending : (vs : List ℕ) → IsAscending vs → dedup (sort vs) ≡ vs
unfolding dedup
dedup-sort-ascending vs h = ap dedup (sort-ascending vs h) ∙ unsorted vs h
  where
    unsorted : (vs : List ℕ) → IsAscending vs → dedup vs ≡ vs
    unsorted [] h = refl
    unsorted (v ∷ vs) h = ap (λ r. v ∷ r) (dedup_after-ascending v vs h.0 h.1)
