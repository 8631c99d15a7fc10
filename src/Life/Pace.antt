-- ===== src/Life/Pace.antt =====
-- The rate limiter of crates/peko-core/src/life_loop.rs over a sequence of attempts.
use peko_agent.Base.{
  ℕ, ◌+◌, ◌-◌, ◌≤◌, ◌<◌, ◌≡◌, arith, true, List, [], ◌∷◌, ◌++◌, length, inl, inr, Bool-cases,
  length-append,
}
use peko_agent.Life.{
  day, hour, RateLimiter, new, pop_old, trim, count_since, allows, has_budget, consume, attempt,
  attempts,
}

-- The limits hold at an instant.
pub record IsWithin (now : ℕ) (r : RateLimiter) : Type 0 where
  pub hourly : count_since (now - hour) r.window ≤ r.max_per_hour
  pub daily : length (pop_old (now - day) r.window) ≤ r.max_per_day

-- The instants do not go back.
unfoldable pub AreInOrder : ℕ → List (ℕ × ℕ) → Type 0
AreInOrder now [] = Unit {0}
AreInOrder now ((asked, started) ∷ ts) = (now ≤ asked) × (asked ≤ started) × AreInOrder started ts

-- The instant of the last attempt.
abbrev pub last_instant : ℕ → List (ℕ × ℕ) → ℕ
last_instant now [] = now
last_instant now ((asked, started) ∷ ts) = last_instant started ts

count_since-le : (a b : ℕ) (ts : List ℕ) → a ≤ b → count_since b ts ≤ count_since a ts
unfolding count_since
count_since-le a b [] h = omega arith
count_since-le a b (t ∷ ts) h = ground (arith, count_since-le a b ts h)

count_since-pop_old : (a c : ℕ) (ts : List ℕ) → count_since a (pop_old c ts) ≤ count_since a ts
unfolding count_since pop_old
count_since-pop_old a c [] = omega arith
count_since-pop_old a c (t ∷ ts) = ground (arith, count_since-pop_old a c ts)

count_since-append : (a t : ℕ) (ts : List ℕ) → count_since a (ts ++ (t ∷ [])) ≤ count_since a ts + 1
unfolding count_since
count_since-append a t [] = ground arith
count_since-append a t (x ∷ ts) = omega (arith, count_since-append a t ts)

pub length-pop_old-le : (c : ℕ) (ts : List ℕ) → length (pop_old c ts) ≤ length ts
unfolding pop_old
length-pop_old-le c [] = omega arith
length-pop_old-le c (t ∷ ts) = ground (arith, length-pop_old-le c ts)

length-pop_old : (a b : ℕ) (ts : List ℕ) → a ≤ b → length (pop_old b ts) ≤ length (pop_old a ts)
unfolding pop_old
length-pop_old a b [] h = omega arith
length-pop_old a b (t ∷ ts) h = ground (arith, length-pop_old a b ts h, length-pop_old-le b ts)

pub allows-limits :
    (now : ℕ) (r : RateLimiter)
    → allows now r ≡ true
    → (count_since (now - hour) r.window < r.max_per_hour) × (length r.window < r.max_per_day)
unfolding allows
allows-limits now r h = (ground (arith, h), ground (arith, h))

attempt-IsWithin :
    (now asked started : ℕ) (r : RateLimiter)
    → IsWithin now r
    → now ≤ asked
    → asked ≤ started
    → IsWithin started (attempt asked started r)
unfolding attempt has_budget trim allows consume
attempt-IsWithin now asked started r i h k =
    let w = pop_old (asked - day) r.window in
    let c1 = count_since-pop_old (asked - hour) (asked - day) r.window in
    let c2 = count_since-le (now - hour) (asked - hour) r.window (omega arith) in
    let c3 = count_since-le (asked - hour) (started - hour) w (omega arith) in
    let c4 = count_since-append (started - hour) started w in
    let l1 = length-pop_old (now - day) (asked - day) r.window (omega arith) in
    let l2 = length-pop_old-le (started - day) w in
    let l3 = length-pop_old-le (started - day) (w ++ (started ∷ [])) in
    let l4 = length-append w (started ∷ []) in
    elim (Bool-cases (allows asked (record r { window = w }))) [
      | inl e ↦
          let (p, q) = allows-limits asked (record r { window = w }) e in
          rw (e) (record { hourly = omega (arith, p, c3, c4); daily = omega (arith, q, l3, l4) })
      | inr e ↦ rw (e) (record { hourly = omega (arith, i.hourly); daily = omega (arith, i.daily) })
    ]

attempts-IsWithin :
    (now : ℕ) (ts : List (ℕ × ℕ)) (r : RateLimiter)
    → AreInOrder now ts
    → IsWithin now r
    → IsWithin (last_instant now ts) (attempts ts r)
unfolding attempts AreInOrder
attempts-IsWithin now [] r o i = i
attempts-IsWithin now ((asked, started) ∷ ts) r (h, k, o) i =
    attempts-IsWithin started ts (attempt asked started r) o
      (attempt-IsWithin now asked started r i h k)

-- After any attempts in the order of time, each asking the limiter and consuming at once or later
-- if it was allowed, at most the hourly limit of tasks were started in the hour up to the last
-- attempt, and at most the daily limit is left in the window of a day.
pub new-attempts :
    (h d : ℕ) (ts : List (ℕ × ℕ))
    → AreInOrder 0 ts
    → IsWithin (last_instant 0 ts) (attempts ts (new h d))
unfolding new count_since pop_old
new-attempts h d ts o =
    attempts-IsWithin 0 ts (new h d) o (record { hourly = omega arith; daily = omega arith })
