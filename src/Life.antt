-- ===== src/Life.antt =====
-- The rate limiter and the token budget of crates/peko-core/src/life_loop.rs. An instant is a number
-- of seconds; a difference that would lie before the clock's start is 0. The counters are taken to
-- fit their words. `attempt` is what a tick does with the limiter: it asks, and when a task is
-- started later it consumes.
pub mod Pace
pub mod Curiosity
pub mod Proposals
pub mod Tick
pub mod Charges
pub mod Ticks
pub mod Actions
pub mod Fresh
pub mod Approval
pub mod Tests
use peko_agent.Base.{
  ℕ, ◌+◌, ◌-◌, ◌*◌, ◌/◌, ◌≤◌, Bool, true, false, ◌&&◌, List, [], ◌∷◌, ◌++◌, map, ltb, leb, ◌==◌,
  length, if◌then◌else◌,
}
use peko_agent.Text.{Text, len}
use peko_agent.Message.{sum}

abbrev pub day : ℕ
day = 86400

abbrev pub hour : ℕ
hour = 3600

pub record RateLimiter : Type 0 where
  pub max_per_hour : ℕ
  pub max_per_day : ℕ
  pub window : List ℕ

unfoldable pub new : ℕ → ℕ → RateLimiter
new h d = record { max_per_hour = h; max_per_day = d; window = [] }

-- The loop of `trim`, which stops at the first instant that is not too old.
unfoldable pub pop_old : ℕ → List ℕ → List ℕ
pop_old cutoff [] = []
pop_old cutoff (t ∷ ts) = if ltb t cutoff then pop_old cutoff ts else t ∷ ts

unfoldable pub trim : ℕ → RateLimiter → RateLimiter
unfolding pop_old
trim now r = record r { window = pop_old (now - day) r.window }

-- `filter(|t| t >= since).count()`
unfoldable pub count_since : ℕ → List ℕ → ℕ
count_since since [] = 0
count_since since (t ∷ ts) = (if leb since t then 1 else 0) + count_since since ts

unfoldable pub allows : ℕ → RateLimiter → Bool
unfolding count_since
allows now r =
    ltb (count_since (now - hour) r.window) r.max_per_hour && ltb (length r.window) r.max_per_day

-- The limiter is trimmed before it answers.
unfoldable pub has_budget : ℕ → RateLimiter → RateLimiter × Bool
unfolding trim allows
has_budget now r = let s = trim now r in (s, allows now s)

unfoldable pub consume : ℕ → RateLimiter → RateLimiter
consume now r = record r { window = r.window ++ (now ∷ []) }

-- Asked at one instant, consumed at another.
abbrev pub consumed_if : Bool → ℕ → RateLimiter → RateLimiter
consumed_if true now r = consume now r
consumed_if false now r = r

unfoldable pub attempt : ℕ → ℕ → RateLimiter → RateLimiter
unfolding has_budget consume
attempt asked started r = let (s, allowed) = has_budget asked r in consumed_if allowed started s

unfoldable pub attempts : List (ℕ × ℕ) → RateLimiter → RateLimiter
unfolding attempt
attempts [] r = r
attempts ((asked, started) ∷ ts) r = attempts ts (attempt asked started r)

pub record TokenBudget : Type 0 where
  pub daily_tokens : ℕ
  pub spent : List (ℕ × ℕ)

unfoldable pub pop_spent : ℕ → List (ℕ × ℕ) → List (ℕ × ℕ)
pop_spent cutoff [] = []
pop_spent cutoff ((t, c) ∷ ts) = if ltb t cutoff then pop_spent cutoff ts else (t, c) ∷ ts

unfoldable pub spent_today : ℕ → TokenBudget → TokenBudget × ℕ
unfolding pop_spent
spent_today now b =
    let kept = pop_spent (now - day) b.spent in
    (record b { spent = kept }, sum (map (λ p. p.1) kept))

-- A cap of 0 is no cap, and then nothing is trimmed.
unfoldable pub has_tokens : ℕ → ℕ → TokenBudget → TokenBudget × Bool
unfolding spent_today
has_tokens now cost b =
    if b.daily_tokens == 0
    then (b, true)
    else (let (s, n) = spent_today now b in (s, leb (n + cost) b.daily_tokens))

unfoldable pub consume_tokens : ℕ → ℕ → TokenBudget → TokenBudget
consume_tokens now cost b = record b { spent = b.spent ++ ((now, cost) ∷ []) }

unfoldable pub estimate_prompt_tokens : Text → ℕ
estimate_prompt_tokens prompt = (len prompt + 3) / 4
