-- ===== src/Life/Actions.antt =====
-- When a tick of crates/peko-core/src/life_loop.rs acts, and what it does then.
use peko_agent.Base.{
  ℕ, ◌+◌, ◌-◌, ◌^◌, min, ◌≡◌, refl, sym, ◌∙◌, ap, arith, Bool, true, false, Option, none, some,
  List, [], ◌∷◌, ◌++◌, map, leb, ◌⊎◌, inl, inr, Bool-cases, if◌then◌else◌,
}
use mathlib.Core.List.{append-nil}
use peko_agent.Text.{Text, text}
use peko_agent.Motivation.{
  Float, LifeAction, action_name, explore, review_failures, propose_helpful, review_behavior,
}
use peko_agent.Queue.{TaskRequest, internal, is_internal, is_idle}
use peko_agent.Life.{has_budget, has_tokens, estimate_prompt_tokens}
use peko_agent.Life.Proposals.{
  Proposal, ProposalStatus, Shared, Operation, pause, resume, set_status, expire_old,
  snapshot_limiter, snapshot_tokens, record_drive, apply, apply_all, set_proposal_status,
  expire_one, expire_before,
}
use peko_agent.Life.Tick.{
  Surroundings, Loop, lock, act, charge, charge_task, with_tokens, with_limiter, decayed, spend_if,
  spend, dispatch, stale, decide, decide_if, limited_if, upkeep, unless_paused, tick, ticks,
  failures_prompt, failures_reason, behavior_prompt, behavior_reason, stale_tick_threshold,
  output_token_estimate,
}

abbrev pub ids : {F : Type 0} → Loop F → List Text
ids l = map (λ p. p.id) l.shared.proposals

-- No task is submitted and no proposal made, though statuses may change.
pub record SameTasks {F : Type 0} (l t : Loop F) : Type 0 where
  pub submitted : t.submitted ≡ l.submitted
  pub proposals : ids t ≡ ids l

expire_one-id : (c : ℕ) (p : Proposal) → (expire_one c p).id ≡ p.id
unfolding expire_one
expire_one-id c p = ground arith

expire_before-id :
    (c : ℕ) (ps : List Proposal) → map (λ p. p.id) (expire_before c ps) ≡ map (λ p. p.id) ps
unfolding expire_before expire_one
expire_before-id c [] = refl
expire_before-id c (p ∷ ps) = rw (expire_one-id c p, expire_before-id c ps) refl

set_proposal_status-id :
    (id : Text) (st : ProposalStatus) (ps : List Proposal)
    → map (λ p. p.id) (set_proposal_status id st ps).0 ≡ map (λ p. p.id) ps
unfolding set_proposal_status
set_proposal_status-id id st [] = refl
set_proposal_status-id id st (p ∷ ps) = ground (arith, set_proposal_status-id id st ps)

module _ {F : Type 0} (f : Float F) where
  apply-id :
      (o : Operation) (s : Shared F)
      → map (λ p. p.id) (apply f o s).proposals ≡ map (λ p. p.id) s.proposals
  unfolding apply
  apply-id pause s = refl
  apply-id resume s = refl
  apply-id (set_status id st) s = set_proposal_status-id id st s.proposals
  apply-id (expire_old utc hours) s = expire_before-id _ s.proposals
  apply-id (snapshot_limiter now) s = refl
  apply-id (snapshot_tokens now) s = refl
  apply-id (record_drive utc e) s = refl

  apply_all-id :
      (os : List Operation) (s : Shared F)
      → map (λ p. p.id) (apply_all f os s).proposals ≡ map (λ p. p.id) s.proposals
  unfolding apply_all
  apply_all-id [] s = refl
  apply_all-id (o ∷ os) s = apply_all-id os (apply f o s) ∙ apply-id o s

-- One proposal, or one task of the agent's own.
pub record Made {F : Type 0} (propose_only : Bool) (e : Surroundings) (l t : Loop F) : Type 0 where
  pub proposed : ids t ≡ ids l ++ (if propose_only then (text "p_" ++ e.proposal_id) ∷ [] else [])
  pub task : TaskRequest
  pub own : is_internal task.source ≡ true
  pub tasks : t.submitted ≡ l.submitted ++ (if propose_only then [] else task ∷ [])

abbrev pub Effect : {F : Type 0} → Bool → Surroundings → Loop F → Loop F → Type 0
Effect propose_only e l t = SameTasks l t ⊎ Made propose_only e l t

Effect-after :
    {F : Type 0} {propose_only : Bool} {e : Surroundings} {l t u : Loop F}
    → SameTasks l t
    → Effect propose_only e t u
    → Effect propose_only e l u
Effect-after s (inl r) =
    inl (record { submitted = r.submitted ∙ s.submitted; proposals = r.proposals ∙ s.proposals })
Effect-after {propose_only = b} {e} s (inr m) = inr (record {
  proposed =
      m.proposed ∙ ap (λ z. z ++ (if b then (text "p_" ++ e.proposal_id) ∷ [] else [])) s.proposals;
  task = m.task;
  own = m.own;
  tasks = m.tasks ∙ ap (λ z. z ++ (if b then [] else m.task ∷ [])) s.submitted;
})

same : {F : Type 0} (l : Loop F) → SameTasks l l
same l = record { submitted = refl; proposals = refl }

map-append : {A B : Type 0} (g : A → B) (xs ys : List A) → map g (xs ++ ys) ≡ map g xs ++ map g ys
map-append g [] ys = refl
map-append g (x ∷ xs) ys = ap (λ z. g x ∷ z) (map-append g xs ys)

module _ {F : Type 0} (f : Float F) (e : Surroundings) where
  lock-same : (b : Bool) (k : ℕ) (l : Loop F) → SameTasks l (lock f b e k l)
  unfolding lock
  lock-same b k l = record {
    submitted = refl;
    proposals = apply_all-id f (e.moment k).others l.shared;
  }

  act-Effect :
      (b : Bool) (a : LifeAction) (prompt reasoning : Text) (l : Loop F)
      → Effect b e l (act f b e a prompt reasoning l)
  unfolding act is_internal
  act-Effect true a prompt reasoning l = Effect-after (lock-same true 9 l) (
      inr (record {
        proposed = map-append (λ p. p.id) _ _;
        task = record {
          input = prompt;
          session_id = none;
          source = internal (action_name a) reasoning;
        };
        own = refl;
        tasks = sym (append-nil _);
      }))
  act-Effect false a prompt reasoning l = Effect-after (lock-same false 9 l) (
      inr (record {
        proposed = sym (append-nil _);
        task = record {
          input = prompt;
          session_id = none;
          source = internal (action_name a) reasoning;
        };
        own = refl;
        tasks = refl;
      }))

  module _ (b : Bool) where
    charge-same : (cost : ℕ) (l : Loop F) → SameTasks l (charge f b e cost l)
    unfolding charge
    charge-same cost l =
        let t = charge_task f b e (lock f b e 7 l) in
        let p = lock-same b 7 l in
        let q = lock-same b 8 t in
        record { submitted = q.submitted ∙ p.submitted; proposals = q.proposals ∙ p.proposals }

    spend_if-Effect :
        (allowed : Bool) (cost : ℕ) (a : LifeAction) (prompt reasoning : Text) (l : Loop F)
        → Effect b e l (spend_if f b e allowed cost a prompt reasoning l)
    spend_if-Effect true cost a prompt reasoning l =
        Effect-after (charge-same cost l) (act-Effect b a prompt reasoning _)
    spend_if-Effect false cost a prompt reasoning l =
        inl (record { submitted = refl; proposals = refl })

    spend-Effect :
        (a : LifeAction) (prompt : Option Text) (reasoning : Text) (l : Loop F)
        → Effect b e l (spend f b e a prompt reasoning l)
    spend-Effect a none reasoning l = inl (same l)
    spend-Effect a (some prompt) reasoning l =
        let p = lock-same b 6 l in
        let cost = estimate_prompt_tokens prompt + output_token_estimate in
        let t = lock f b e 6 l in
        let (w, allowed) = has_tokens (e.moment 6).now cost t.shared.tokens in
        Effect-after {t = with_tokens f b e w t}
          (record { submitted = p.submitted; proposals = p.proposals })
          (spend_if-Effect allowed cost a prompt reasoning (with_tokens f b e w t))

    dispatch-Effect : (a : LifeAction) (l : Loop F) → Effect b e l (dispatch f b e a l)
    unfolding dispatch
    dispatch-Effect explore l = Effect-after (lock-same b 5 l) (spend-Effect explore _ _ _)
    dispatch-Effect review_failures l =
        spend-Effect review_failures (some failures_prompt) failures_reason l
    dispatch-Effect propose_helpful l = spend-Effect propose_helpful _ _ l
    dispatch-Effect review_behavior l =
        spend-Effect review_behavior (some behavior_prompt) behavior_reason l

    stale-same : (l : Loop F) → SameTasks l (stale f b e l)
    unfolding stale
    stale-same l =
        let t : Loop F = record l { stale_ticks = min (l.stale_ticks + 1) (2 ^ 32 - 1) } in
        let p = lock-same b 5 t in
        elim (Bool-cases (leb stale_tick_threshold t.stale_ticks)) [
          | inl q ↦ rw (q) (record { submitted = p.submitted; proposals = p.proposals })
          | inr q ↦ rw (q) (record { submitted = refl; proposals = refl })
        ]

    decide-Effect : (a : Option LifeAction) (l : Loop F) → Effect b e l (decide f b e a l)
    decide-Effect none l = inl (stale-same l)
    decide-Effect (some a) l =
        let t : Loop F = record l { stale_ticks = 0 } in
        Effect-after {t = t} (record { submitted = refl; proposals = refl }) (dispatch-Effect a t)

    decide_if-Effect : (allowed : Bool) (l : Loop F) → Effect b e l (decide_if f b e allowed l)
    decide_if-Effect true l = Effect-after (lock-same b 4 l) (decide-Effect _ _)
    decide_if-Effect false l = inl (same l)

    upkeep-same : (l : Loop F) → SameTasks l (upkeep f b e l)
    unfolding upkeep
    upkeep-same l =
        let p = lock-same b 1 l in
        let q = lock-same b 2 (decayed f b e (lock f b e 1 l)) in
        record {
          submitted = q.submitted ∙ p.submitted;
          proposals = expire_before-id _ _ ∙ (q.proposals ∙ p.proposals);
        }

    -- The gates of a tick, and what it does behind them.
    abbrev pub Outcome : Loop F → Loop F → Type 0
    Outcome l t =
        SameTasks l t
        ⊎ ((lock f b e 0 l).shared.paused ≡ false) × (is_idle e.queue ≡ true) × Made b e l t

    limited-Effect : (l : Loop F) → Effect b e l (limited_if f b e true l)
    limited-Effect l =
        let p = lock-same b 3 l in
        let t = lock f b e 3 l in
        let (r, allowed) = has_budget (e.moment 3).now t.shared.limiter in
        Effect-after {t = with_limiter f b e r t}
          (record { submitted = p.submitted; proposals = p.proposals })
          (decide_if-Effect allowed (with_limiter f b e r t))

    outcome_of :
        (l t : Loop F)
        → (lock f b e 0 l).shared.paused ≡ false
        → is_idle e.queue ≡ true
        → Effect b e l t
        → Outcome l t
    outcome_of l t p q (inl s) = inl s
    outcome_of l t p q (inr m) = inr (p, q, m)

    idle_gated :
        (l t : Loop F) (idle : Bool)
        → (lock f b e 0 l).shared.paused ≡ false
        → is_idle e.queue ≡ idle
        → SameTasks l t
        → Outcome l (limited_if f b e idle t)
    idle_gated l t true p q s = outcome_of l _ p q (Effect-after s (limited-Effect t))
    idle_gated l t false p q s = inl s

    gated :
        (l t : Loop F) (paused : Bool)
        → (lock f b e 0 l).shared.paused ≡ paused
        → SameTasks l t
        → Outcome l (unless_paused f b e paused t)
    gated l t true p s = inl s
    gated l t false p s =
        let u = upkeep-same t in
        idle_gated l (upkeep f b e t) (is_idle e.queue) p refl
          (record { submitted = u.submitted ∙ s.submitted; proposals = u.proposals ∙ s.proposals })

    -- A tick either submits no task and makes no proposal, whatever becomes of the proposals that
    -- there are, or it was not paused when it began, the queue reported that it is idle, and it
    -- makes exactly one new proposal, if the configuration is to propose only, and otherwise
    -- submits exactly one task, which is one of the agent's own.
    pub tick-outcome : (l : Loop F) → Outcome l (tick f b e l)
    unfolding tick
    tick-outcome l = gated l (lock f b e 0 l) _ refl (lock-same b 0 l)

-- A loop that may propose only submits no task of its own, in any number of ticks, whatever they
-- meet and whatever the handlers do.
pub ticks-propose_only :
    {F : Type 0} (f : Float F) (es : List Surroundings) (l : Loop F)
    → (ticks f true es l).submitted ≡ l.submitted
unfolding ticks
ticks-propose_only f [] l = refl
ticks-propose_only f (e ∷ es) l =
    ticks-propose_only f es (tick f true e l) ∙ submitted_of (tick-outcome f e true l)
  where
    submitted_of : {t : Loop _} → Outcome f e true l t → t.submitted ≡ l.submitted
    submitted_of (inl s) = s.submitted
    submitted_of (inr (p, q, m)) = m.tasks ∙ append-nil l.submitted
