-- ===== src/Life/Ticks.antt =====
-- What any number of ticks of crates/peko-core/src/life_loop.rs charge, whatever the handlers do in
-- between.
use peko_agent.Base.{
  ℕ, ◌+◌, ◌≡◌, refl, Bool, true, false, Option, none, some, List, [], ◌∷◌, if◌then◌else◌, leb, min,
  ◌^◌, ◌-◌, Bool-cases, inl, inr,
}
use peko_agent.Text.{Text}
use peko_agent.Motivation.{
  Float, LifeAction, explore, review_failures, propose_helpful, review_behavior,
}
use peko_agent.Queue.{is_idle}
use peko_agent.Life.{has_budget, has_tokens, estimate_prompt_tokens}
use peko_agent.Life.Proposals.{
  Shared, Operation, pause, resume, set_status, expire_old, snapshot_limiter, snapshot_tokens,
  record_drive, apply, apply_all,
}
use peko_agent.Life.Tick.{
  Surroundings, Loop, lock, act, charge, charge_task, decayed, spend_if, spend, dispatch, stale,
  decide, decide_if, limited_if, upkeep, unless_paused, tick, ticks, output_token_estimate,
  failures_prompt, failures_reason, behavior_prompt, behavior_reason, stale_tick_threshold,
}
use peko_agent.Life.Charges.{
  HasRoom, IsPaced, HasRoom-less, trim-HasRoom, spent_today-HasRoom, has_budget-HasRoom,
  has_tokens-HasRoom, consume-HasRoom, consume_tokens-HasRoom,
}

module _ (max_tasks max_tokens : ℕ) {F : Type 0} (f : Float F) where
  abbrev pub Room : ℕ → ℕ → Loop F → Type 0
  Room n cost l = HasRoom max_tasks max_tokens n cost l.shared.limiter l.shared.tokens

  apply-HasRoom :
      (n cost : ℕ) (o : Operation) (s : Shared F)
      → HasRoom max_tasks max_tokens n cost s.limiter s.tokens
      → HasRoom max_tasks max_tokens n cost (apply f o s).limiter (apply f o s).tokens
  unfolding apply
  apply-HasRoom n cost pause s i = i
  apply-HasRoom n cost resume s i = i
  apply-HasRoom n cost (set_status id st) s i = i
  apply-HasRoom n cost (expire_old utc hours) s i = i
  apply-HasRoom n cost (snapshot_limiter now) s i =
      trim-HasRoom max_tasks max_tokens now n cost s.limiter s.tokens i
  apply-HasRoom n cost (snapshot_tokens now) s i =
      spent_today-HasRoom max_tasks max_tokens now n cost s.limiter s.tokens i
  apply-HasRoom n cost (record_drive utc e) s i = i

  apply_all-HasRoom :
      (n cost : ℕ) (os : List Operation) (s : Shared F)
      → HasRoom max_tasks max_tokens n cost s.limiter s.tokens
      → HasRoom max_tasks max_tokens n cost (apply_all f os s).limiter (apply_all f os s).tokens
  unfolding apply_all
  apply_all-HasRoom n cost [] s i = i
  apply_all-HasRoom n cost (o ∷ os) s i =
      apply_all-HasRoom n cost os (apply f o s) (apply-HasRoom n cost o s i)

  module _ (propose_only : Bool) (e : Surroundings) where
    lock-Room :
        (k n cost : ℕ) (l : Loop F) → Room n cost l → Room n cost (lock f propose_only e k l)
    unfolding lock
    lock-Room k n cost l i = apply_all-HasRoom n cost (e.moment k).others l.shared i

    act-Room :
        (a : LifeAction) (prompt reasoning : Text) (l : Loop F)
        → Room 0 0 l
        → Room 0 0 (act f propose_only e a prompt reasoning l)
    unfolding act
    act-Room a prompt reasoning l i = elim (Bool-cases propose_only) [
      | inl q ↦ rw (q) (lock-Room 9 0 0 l i)
      | inr q ↦ rw (q) (lock-Room 9 0 0 l i)
    ]

    charge-Room :
        (cost : ℕ) (l : Loop F) → Room 1 cost l → Room 0 0 (charge f propose_only e cost l)
    unfolding charge
    charge-Room cost l i =
        let t = charge_task f propose_only e (lock f propose_only e 7 l) in
        consume_tokens-HasRoom max_tasks max_tokens (e.moment 8).now cost _ _ (
          lock-Room 8 0 cost t (
            consume-HasRoom max_tasks max_tokens (e.moment 7).now cost _ _
              (lock-Room 7 1 cost l i)))

    spend_if-Room :
        (b : Bool) (cost : ℕ) (a : LifeAction) (prompt reasoning : Text) (l : Loop F)
        → Room 1 (if b then cost else 0) l
        → Room 0 0 (spend_if f propose_only e b cost a prompt reasoning l)
    spend_if-Room true cost a prompt reasoning l i =
        act-Room a prompt reasoning _ (charge-Room cost l i)
    spend_if-Room false cost a prompt reasoning l i =
        HasRoom-less max_tasks max_tokens
          (spent_today-HasRoom max_tasks max_tokens (e.moment 6).now 1 0 _ _ i)

    spend-Room :
        (a : LifeAction) (prompt : Option Text) (reasoning : Text) (l : Loop F)
        → Room 1 0 l
        → Room 0 0 (spend f propose_only e a prompt reasoning l)
    spend-Room a none reasoning l i = HasRoom-less max_tasks max_tokens i
    spend-Room a (some prompt) reasoning l i =
        let cost = estimate_prompt_tokens prompt + output_token_estimate in
        let t = lock f propose_only e 6 l in
        spend_if-Room (has_tokens (e.moment 6).now cost t.shared.tokens).1 cost a prompt reasoning _
          (has_tokens-HasRoom max_tasks max_tokens (e.moment 6).now cost _ t.shared.tokens _
            (lock-Room 6 1 0 l i) refl)

    dispatch-Room :
        (a : LifeAction) (l : Loop F) → Room 1 0 l → Room 0 0 (dispatch f propose_only e a l)
    unfolding dispatch
    dispatch-Room explore l i = spend-Room explore _ _ _ (lock-Room 5 1 0 l i)
    dispatch-Room review_failures l i =
        spend-Room review_failures (some failures_prompt) failures_reason l i
    dispatch-Room propose_helpful l i = spend-Room propose_helpful _ _ l i
    dispatch-Room review_behavior l i =
        spend-Room review_behavior (some behavior_prompt) behavior_reason l i

    stale-Room : (l : Loop F) → Room 1 0 l → Room 0 0 (stale f propose_only e l)
    unfolding stale
    stale-Room l i =
        let t : Loop F = record l { stale_ticks = min (l.stale_ticks + 1) (2 ^ 32 - 1) } in
        elim (Bool-cases (leb stale_tick_threshold t.stale_ticks)) [
          | inl q ↦ rw (q) (HasRoom-less max_tasks max_tokens (lock-Room 5 1 0 t i))
          | inr q ↦ rw (q) (HasRoom-less max_tasks max_tokens i)
        ]

    decide-Room :
        (a : Option LifeAction) (l : Loop F) → Room 1 0 l → Room 0 0 (decide f propose_only e a l)
    decide-Room none l i = stale-Room l i
    decide-Room (some a) l i = dispatch-Room a _ i

    decide_if-Room :
        (b : Bool) (l : Loop F)
        → Room 0 0 l
        → (b ≡ true → Room 1 0 l)
        → Room 0 0 (decide_if f propose_only e b l)
    decide_if-Room true l i g = decide-Room _ _ (lock-Room 4 1 0 l (g refl))
    decide_if-Room false l i g = i

    limited_if-Room :
        (b : Bool) (l : Loop F) → Room 0 0 l → Room 0 0 (limited_if f propose_only e b l)
    unfolding has_budget
    limited_if-Room true l i =
        let j = lock-Room 3 0 0 l i in
        let t = lock f propose_only e 3 l in
        decide_if-Room (has_budget (e.moment 3).now t.shared.limiter).1 _
          (trim-HasRoom max_tasks max_tokens (e.moment 3).now 0 0 _ _ j)
          (λ q. has_budget-HasRoom max_tasks max_tokens (e.moment 3).now _ _ j q)
    limited_if-Room false l i = i

    upkeep-Room : (l : Loop F) → Room 0 0 l → Room 0 0 (upkeep f propose_only e l)
    unfolding upkeep
    upkeep-Room l i =
        lock-Room 2 0 0 (decayed f propose_only e (lock f propose_only e 1 l)) (lock-Room 1 0 0 l i)

    unless_paused-Room :
        (b : Bool) (l : Loop F) → Room 0 0 l → Room 0 0 (unless_paused f propose_only e b l)
    unless_paused-Room true l i = i
    unless_paused-Room false l i =
        limited_if-Room (is_idle e.queue) (upkeep f propose_only e l) (upkeep-Room l i)

    tick-Room : (l : Loop F) → Room 0 0 l → Room 0 0 (tick f propose_only e l)
    unfolding tick
    tick-Room l i = unless_paused-Room _ _ (lock-Room 0 0 0 l i)

  -- Whatever the ticks meet and whatever the handlers do between their locks, the number of tasks
  -- in the loop's window stays within the daily limit of tasks, and the tokens in its window within
  -- the daily limit of tokens, if there is one, when both hold at the start.
  pub ticks-IsPaced :
      (propose_only : Bool) (es : List Surroundings) (l : Loop F)
      → IsPaced max_tasks max_tokens l.shared.limiter l.shared.tokens
      → IsPaced max_tasks max_tokens
          (ticks f propose_only es l).shared.limiter
          (ticks f propose_only es l).shared.tokens
  unfolding ticks
  ticks-IsPaced propose_only [] l i = i
  ticks-IsPaced propose_only (e ∷ es) l i =
      ticks-IsPaced propose_only es (tick f propose_only e l) (tick-Room propose_only e l i)
