-- ===== src/Queue/Stopped.antt =====
-- The queue of crates/peko-core/src/task_queue.rs after a panic in a task.
use peko_agent.Base.{ℕ, ◌<◌, ◌≡◌, refl, ◌∙◌, sym, ap, arith, Bool, true, false}
use peko_agent.Budget.{usize_mod}
use peko_agent.Queue.{
  Executor, receiving, received, executing, executed, answered, stopped, Queue, new, is_idle,
  submit, refuse,
}
use peko_agent.Queue.Steps.{
  Step, submits, accepts, refuses, receives, claims, finishes, panics, replies, settles, Reach,
  here, later, is_stopped,
}
use peko_agent.Queue.Invariant.{is_busy}
use peko_agent.Queue.Kept.{Reach-IsConsistent}

-- The executor is gone, and still marked as working on a task.
pub record IsDead (q : Queue) : Type 0 where
  pub gone : is_stopped q.executor ≡ true
  pub marked : q.status.processing ≡ true

clash : {x y : Executor} → x ≡ y → is_stopped y ≡ false → is_stopped x ≡ true → ⊥
clash e h k = absurd (true_not_false (sym k ∙ (ap is_stopped e ∙ h)))
  where
    true_not_false : true ≡ false → ⊥
    true_not_false z = cc

stopped-busy : (x : Executor) → is_stopped x ≡ true → is_busy x ≡ true
stopped-busy receiving h = cc
stopped-busy (received r) h = cc
stopped-busy (executing r) h = refl
stopped-busy (executed r result) h = refl
stopped-busy (answered r) h = refl
stopped-busy (stopped r lost) h = refl

module _ (size : ℕ) (motivation reflector : Bool) where
  Step-IsDead :
      {s t : Queue}
      → Step size motivation reflector s t
      → IsDead s
      → IsDead t × (t.results ≡ s.results) × (t.accepted ≡ s.accepted)
  unfolding submit refuse
  Step-IsDead (submits r) d = (record { gone = d.gone; marked = d.marked }, refl, refl)
  Step-IsDead (accepts front r back e n k) d = absurd cc
  Step-IsDead (refuses front r back e k) d =
      (record { gone = d.gone; marked = d.marked }, refl, refl)
  Step-IsDead (receives r rest e k) d = absurd (clash e refl d.gone)
  Step-IsDead (claims r e) d = absurd (clash e refl d.gone)
  Step-IsDead (finishes r result e) d = absurd (clash e refl d.gone)
  Step-IsDead (panics r e) d = absurd (clash e refl d.gone)
  Step-IsDead (replies r result e) d = absurd (clash e refl d.gone)
  Step-IsDead (settles r e) d = absurd (clash e refl d.gone)

  Reach-IsDead :
      {s t : Queue}
      → Reach size motivation reflector s t
      → IsDead s
      → IsDead t × (t.results ≡ s.results) × (t.accepted ≡ s.accepted)
  Reach-IsDead here d = (d, refl, refl)
  Reach-IsDead (later r st) d =
      let (d1, e1, a1) = Reach-IsDead r d in
      let (d2, e2, a2) = Step-IsDead st d1 in (d2, e2 ∙ e1, a2 ∙ a1)

  not_idle : (q : Queue) → IsDead q → is_idle q ≡ false
  unfolding is_idle
  not_idle q d = ground (arith, d.marked)

  -- If a reachable queue, with fewer than 2^64 tasks submitted, is one whose executor a panic of a
  -- task has ended, in a build that unwinds, then every state after it reports that the queue is
  -- not idle, no further task is taken by the channel, and no further result is sent.
  pub stopped-never_idle :
      {s t : Queue}
      → Reach size motivation reflector new s
      → s.submitted < usize_mod
      → is_stopped s.executor ≡ true
      → Reach size motivation reflector s t
      → (is_idle t ≡ false) × (t.results ≡ s.results) × (t.accepted ≡ s.accepted)
  stopped-never_idle {s} {t} r h g k =
      let i = Reach-IsConsistent size reflector motivation r h in
      let (d, e, a) =
        Reach-IsDead k (record { gone = g; marked = i.busy ∙ stopped-busy s.executor g }) in
      (not_idle t d, e, a)
