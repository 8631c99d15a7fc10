-- ===== src/Cron/Values.antt =====
-- The lists of numbers that a cron field is made of: ranges, steps, `sort` and `dedup`.
use peko_agent.Base.{
  ℕ, zero, suc, ◌+◌, ◌-◌, ◌%◌, Bool, true, false, ◌||◌, List, [], ◌∷◌, leb, ◌==◌, if◌then◌else◌,
}
use peko_agent.Text.Number.{u32_mod}

-- `Vec::contains`
unfoldable pub has : ℕ → List ℕ → Bool
has x [] = false
has x (v ∷ vs) = x == v || has x vs

-- `a, a + 1, …`, `n` numbers.
unfoldable pub range_from : ℕ → ℕ → List ℕ
range_from zero a = []
range_from (suc n) a = a ∷ range_from n (a + 1)

-- `(a..=b).collect()`
unfoldable pub range : ℕ → ℕ → List ℕ
unfolding range_from
range a b = range_from (b + 1 - a) a

-- `let mut v = min; while v <= max { values.push(v); v += step; }` on fuel: the values pushed, and
-- `v` at the end.
module _ (max step : ℕ) where
  unfoldable pub steps : ℕ → ℕ → List ℕ × ℕ
  steps zero v = ([], v)
  steps (suc f) v = elim (leb v max) [
    | true ↦ let rest = steps f ((v + step) % u32_mod) in (v ∷ rest.0, rest.1)
    | false ↦ ([], v)
  ]

-- `for (i, v) in range.iter().enumerate() { if i % step == 0 { values.push(*v) } }`
unfoldable pub every : ℕ → ℕ → List ℕ → List ℕ
every step i [] = []
every step i (v ∷ vs) = let rest = every step (i + 1) vs in if i % step == 0 then v ∷ rest else rest

-- `values.sort()`
unfoldable pub insert : ℕ → List ℕ → List ℕ
insert x [] = x ∷ []
insert x (v ∷ vs) = if leb x v then x ∷ v ∷ vs else v ∷ insert x vs

unfoldable pub sort : List ℕ → List ℕ
unfolding insert
sort [] = []
sort (v ∷ vs) = insert v (sort vs)

-- `values.dedup()`: a run of equal numbers leaves its first one.
unfoldable pub dedup_after : ℕ → List ℕ → List ℕ
dedup_after x [] = []
dedup_after x (v ∷ vs) = if x == v then dedup_after x vs else v ∷ dedup_after v vs

unfoldable pub dedup : List ℕ → List ℕ
unfolding dedup_after
dedup [] = []
dedup (v ∷ vs) = v ∷ dedup_after v vs
