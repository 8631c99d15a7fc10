-- ===== src/Budget/Spending.antt =====
-- Calls of `decrement` of crates/peko-core/src/budget.rs in a row.
use native.Mathlib.Decide.{dec_lt}
use peko_agent.Base.{ℕ, zero, suc, ◌-◌, ◌≤◌, ◌<◌, ◌≡◌, arith, List, [], ◌∷◌, min}
use peko_agent.Base.Results.{Result, ok, err}
use peko_agent.Budget.{usize_mod, IterationBudget, BudgetExhausted, exhausted, decrement, fetch_sub}

pub record IsValid (b : IterationBudget) : Type 0 where
  pub within : b.remaining ≤ b.max
  pub word : b.max < usize_mod

fetch_sub_pos : (n : ℕ) → 0 < n → n < usize_mod → fetch_sub n ≡ n - 1
fetch_sub_pos n h k = omega arith

-- A call takes one from a budget that is not empty and reports what is left.
pub decrement_pos :
    (b : IterationBudget)
    → IsValid b
    → 0 < b.remaining
    → decrement b ≡ (record b { remaining = b.remaining - 1 }, ok (b.remaining - 1))
unfolding decrement
decrement_pos b v h = ground (arith, fetch_sub_pos b.remaining h)

-- A call on an empty budget fails, and leaves it empty.
pub decrement_zero : (b : IterationBudget) → b.remaining ≡ 0 → decrement b ≡ (b, err exhausted)
unfolding decrement
decrement_zero b h = ground arith

-- The results of `n` calls in a row.
unfoldable pub decrements : ℕ → IterationBudget → IterationBudget × List (Result ℕ BudgetExhausted)
decrements zero b = (b, [])
decrements (suc n) b =
    let step = decrement b in let rest = decrements n step.0 in (rest.0, step.1 ∷ rest.1)

unfoldable pub successes : List (Result ℕ BudgetExhausted) → ℕ
successes [] = 0
successes (ok n ∷ rs) = suc (successes rs)
successes (err e ∷ rs) = successes rs

-- Of n calls on a valid budget exactly as many succeed as it has iterations left, or all of them if
-- there are fewer, and what is left is the difference, cut off at 0.
pub successes-decrements :
    (n : ℕ) (b : IterationBudget)
    → IsValid b
    → (successes (decrements n b).1 ≡ min n b.remaining)
      × ((decrements n b).0.remaining ≡ b.remaining - n)
unfolding decrements successes
successes-decrements zero b v = (omega arith, omega arith)
successes-decrements (suc n) b v = elim (dec_lt 0 b.remaining) [
  | yes h ↦ rw (decrement_pos b v h) (
      let ih = successes-decrements n (record b { remaining = b.remaining - 1 }) (omega arith) in
      (omega arith, omega arith))
  | no h ↦
      rw (decrement_zero b (omega arith))
        (let ih = successes-decrements n b v in (omega arith, omega arith))
]
