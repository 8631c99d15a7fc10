-- ===== src/Budget.antt =====
-- crates/peko-core/src/budget.rs: the iteration budget of a task. The atomic fields are a record that
-- each call updates; `usize` has 64 bits, and `fetch_sub` wraps.
pub mod Spending
use peko_agent.Base.{ℕ, ◌+◌, ◌-◌, ◌%◌, ◌^◌, Bool, true, false, ◌||◌, ◌==◌, if◌then◌else◌}
use peko_agent.Base.Results.{Result, ok, err}

abbrev pub usize_mod : ℕ
usize_mod = 2 ^ 64

pub record IterationBudget : Type 0 where
  pub remaining : ℕ
  pub max : ℕ
  pub interrupted : Bool

pub data BudgetExhausted : Type 0 where
  exhausted : BudgetExhausted

unfoldable pub new : ℕ → IterationBudget
new n = record { remaining = n; max = n; interrupted = false }

-- `fetch_sub(1)`
abbrev pub fetch_sub : ℕ → ℕ
fetch_sub n = (n + usize_mod - 1) % usize_mod

unfoldable pub decrement : IterationBudget → IterationBudget × Result ℕ BudgetExhausted
decrement b =
    let b' : IterationBudget = record b { remaining = fetch_sub b.remaining } in
    if b.remaining == 0
    then (record b' { remaining = 0 }, err exhausted)
    else (b', ok (b.remaining - 1))

unfoldable pub interrupt : IterationBudget → IterationBudget
interrupt b = record b { interrupted = true }

unfoldable pub reset : IterationBudget → IterationBudget
reset b = record b { remaining = b.max; interrupted = false }

unfoldable pub should_stop : IterationBudget → Bool
should_stop b = b.interrupted || b.remaining == 0
