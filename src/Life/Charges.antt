-- ===== src/Life/Charges.antt =====
-- What the ticks of crates/peko-core/src/life_loop.rs charge to the two windows.
use peko_agent.Base.{
  ℕ, ◌+◌, ◌-◌, ◌≤◌, ◌≡◌, arith, Bool, true, false, List, [], ◌∷◌, ◌++◌, map, length, length-append,
  leb, ◌==◌, ==_iff, tests, Bool-cases, ◌⊎◌, inl, inr, if◌then◌else◌,
}
use peko_agent.Message.{sum}
use peko_agent.Life.{
  RateLimiter, TokenBudget, day, trim, has_budget, consume, pop_spent, spent_today, has_tokens,
  consume_tokens,
}
use peko_agent.Life.Pace.{length-pop_old-le, allows-limits}

abbrev pub total_cost : List (ℕ × ℕ) → ℕ
total_cost ts = sum (map (λ p. p.1) ts)

-- A number within a cap, where a cap of 0 is none.
abbrev pub Fits : ℕ → ℕ → Type 0
Fits cap n = (cap ≡ 0) ⊎ (n ≤ cap)

Fits-le : (cap a b : ℕ) → Fits cap a → b ≤ a → Fits cap b
Fits-le cap a b (inl z) h = inl z
Fits-le cap a b (inr k) h = inr (omega (arith, k, h))

-- The windows stay within their daily limits when `n` tasks and `cost` tokens more are charged.
pub record HasRoom (max_tasks max_tokens n cost : ℕ) (r : RateLimiter) (b : TokenBudget)
    : Type 0 where
  pub tasks_cap : r.max_per_day ≡ max_tasks
  pub tokens_cap : b.daily_tokens ≡ max_tokens
  pub tasks : length r.window + n ≤ max_tasks
  pub tokens : Fits max_tokens (total_cost b.spent + cost)

total_cost-pop_spent : (c : ℕ) (ts : List (ℕ × ℕ)) → total_cost (pop_spent c ts) ≤ total_cost ts
unfolding pop_spent
total_cost-pop_spent c [] = omega arith
total_cost-pop_spent c ((t, n) ∷ ts) = ground (arith, total_cost-pop_spent c ts)

total_cost-append :
    (ts : List (ℕ × ℕ)) (t n : ℕ) → total_cost (ts ++ ((t, n) ∷ [])) ≡ total_cost ts + n
total_cost-append [] t n = omega arith
total_cost-append ((u, m) ∷ ts) t n = omega (arith, total_cost-append ts t n)

module _ (max_tasks max_tokens : ℕ) where
  abbrev pub IsPaced : RateLimiter → TokenBudget → Type 0
  IsPaced r b = HasRoom max_tasks max_tokens 0 0 r b

  pub HasRoom-less :
      {n cost : ℕ} {r : RateLimiter} {b : TokenBudget}
      → HasRoom max_tasks max_tokens n cost r b
      → IsPaced r b
  HasRoom-less {n} {cost} {r} {b} i = record {
    tasks_cap = i.tasks_cap;
    tokens_cap = i.tokens_cap;
    tasks = omega (arith, i.tasks);
    tokens = Fits-le max_tokens _ _ i.tokens (omega arith);
  }

  pub trim-HasRoom :
      (now n cost : ℕ) (r : RateLimiter) (b : TokenBudget)
      → HasRoom max_tasks max_tokens n cost r b
      → HasRoom max_tasks max_tokens n cost (trim now r) b
  unfolding trim
  trim-HasRoom now n cost r b i = record {
    tasks_cap = i.tasks_cap;
    tokens_cap = i.tokens_cap;
    tasks = omega (arith, i.tasks, length-pop_old-le (now - day) r.window);
    tokens = i.tokens;
  }

  pub spent_today-HasRoom :
      (now n cost : ℕ) (r : RateLimiter) (b : TokenBudget)
      → HasRoom max_tasks max_tokens n cost r b
      → HasRoom max_tasks max_tokens n cost r (spent_today now b).0
  unfolding spent_today
  spent_today-HasRoom now n cost r b i = record {
    tasks_cap = i.tasks_cap;
    tokens_cap = i.tokens_cap;
    tasks = i.tasks;
    tokens =
        Fits-le max_tokens _ _ i.tokens (omega (arith, total_cost-pop_spent (now - day) b.spent));
  }

  pub has_budget-HasRoom :
      (now : ℕ) (r : RateLimiter) (b : TokenBudget)
      → IsPaced r b
      → (has_budget now r).1 ≡ true
      → HasRoom max_tasks max_tokens 1 0 (has_budget now r).0 b
  unfolding has_budget
  has_budget-HasRoom now r b i h =
      let j = trim-HasRoom now 0 0 r b i in
      let (_, l) = allows-limits now (trim now r) h in
      record {
        tasks_cap = j.tasks_cap;
        tokens_cap = j.tokens_cap;
        tasks = omega (arith, l, j.tasks_cap);
        tokens = j.tokens;
      }

  -- The budget's answer on a cap, as a window that was trimmed.
  capped-HasRoom :
      (now cost : ℕ) (r : RateLimiter) (b : TokenBudget) (allowed : Bool)
      → HasRoom max_tasks max_tokens 1 0 r b
      → leb ((spent_today now b).1 + cost) b.daily_tokens ≡ allowed
      → HasRoom max_tasks max_tokens 1 (if allowed then cost else 0) r (spent_today now b).0
  unfolding spent_today
  capped-HasRoom now cost r b true i h = record {
    tasks_cap = i.tasks_cap;
    tokens_cap = i.tokens_cap;
    tasks = i.tasks;
    tokens = inr (omega (tests, h, i.tokens_cap));
  }
  capped-HasRoom now cost r b false i h = spent_today-HasRoom now 1 0 r b i

  uncapped-HasRoom :
      (cost : ℕ) (r : RateLimiter) (b : TokenBudget)
      → HasRoom max_tasks max_tokens 1 0 r b
      → b.daily_tokens ≡ 0
      → HasRoom max_tasks max_tokens 1 cost r b
  uncapped-HasRoom cost r b i h = record {
    tasks_cap = i.tasks_cap;
    tokens_cap = i.tokens_cap;
    tasks = i.tasks;
    tokens = inl (omega (arith, h, i.tokens_cap));
  }

  pub has_tokens-HasRoom :
      (now cost : ℕ) (r : RateLimiter) (b : TokenBudget) (allowed : Bool)
      → HasRoom max_tasks max_tokens 1 0 r b
      → (has_tokens now cost b).1 ≡ allowed
      → HasRoom max_tasks max_tokens 1 (if allowed then cost else 0) r (has_tokens now cost b).0
  unfolding has_tokens
  has_tokens-HasRoom now cost r b true i h = elim (Bool-cases (b.daily_tokens == 0)) [
    | inl e ↦ rw (e) (uncapped-HasRoom cost r b i ((==_iff b.daily_tokens 0).0 e))
    | inr e ↦ rw (e) (capped-HasRoom now cost r b true i (ground (arith, e, h)))
  ]
  has_tokens-HasRoom now cost r b false i h = elim (Bool-cases (b.daily_tokens == 0)) [
    | inl e ↦ rw (e) i
    | inr e ↦ rw (e) (capped-HasRoom now cost r b false i (ground (arith, e, h)))
  ]

  pub consume-HasRoom :
      (now cost : ℕ) (r : RateLimiter) (b : TokenBudget)
      → HasRoom max_tasks max_tokens 1 cost r b
      → HasRoom max_tasks max_tokens 0 cost (consume now r) b
  unfolding consume
  consume-HasRoom now cost r b i = record {
    tasks_cap = i.tasks_cap;
    tokens_cap = i.tokens_cap;
    tasks = omega (arith, i.tasks, length-append r.window (now ∷ []));
    tokens = i.tokens;
  }

  pub consume_tokens-HasRoom :
      (now cost : ℕ) (r : RateLimiter) (b : TokenBudget)
      → HasRoom max_tasks max_tokens 0 cost r b
      → IsPaced r (consume_tokens now cost b)
  unfolding consume_tokens
  consume_tokens-HasRoom now cost r b i = record {
    tasks_cap = i.tasks_cap;
    tokens_cap = i.tokens_cap;
    tasks = i.tasks;
    tokens = Fits-le max_tokens _ _ i.tokens (omega (arith, total_cost-append b.spent now cost));
  }
