-- ===== src/Queue/Idle.antt =====
-- When the queue of crates/peko-core/src/task_queue.rs reports that it is idle.
use peko_agent.Base.{
  ℕ, ◌<◌, ◌≡◌, refl, sym, ◌∙◌, ap, arith, Bool, true, false, ◌↔◌, List, [], ◌∷◌, ◌++◌, map, length,
  length-append, subst,
}
use mathlib.Core.List.{append-nil}
use peko_agent.Budget.{usize_mod}
use peko_agent.Queue.{
  Executor, receiving, received, executing, executed, answered, stopped, Queue, new, is_idle,
}
use peko_agent.Queue.Steps.{Reach}
use peko_agent.Queue.Invariant.{IsAt}
use peko_agent.Queue.Kept.{Reach-IsConsistent}

-- Nothing waits or runs, and every task that the channel took has a result.
abbrev pub HasFinished : Queue → Executor → Type 0
HasFinished q x = (q.waiting ≡ []) × (x ≡ receiving) × (q.accepted ≡ map (λ p. p.0) q.results)

length-eq-zero : {A : Type 0} (xs : List A) → length xs ≡ 0 → xs ≡ []
length-eq-zero [] h = refl
length-eq-zero (x ∷ xs) h = absurd (omega arith)

module _ (size : ℕ) (reflector : Bool) where
  is_idle-counts :
      (q : Queue) → is_idle q ≡ true → (q.status.pending ≡ 0) × (q.status.processing ≡ false)
  unfolding is_idle
  is_idle-counts q h = (ground arith, ground arith)

  idle-finished :
      (q : Queue) (x : Executor)
      → IsAt size reflector q x
      → q.status.pending ≡ 0
      → q.status.processing ≡ false
      → HasFinished q x
  idle-finished q receiving i p b =
      let w = length-eq-zero q.waiting (omega (arith, p, i.counted refl)) in
      let c = length-eq-zero q.channel (omega (arith, p, i.counted refl)) in
      (
        w,
        refl,
        i.order
            ∙ (ap (λ z. map (λ p. p.0) q.results ++ z) c ∙ append-nil (map (λ p. p.0) q.results)),
      )
  idle-finished q (received r) i p b = absurd (omega (arith, p, i.counted refl))
  idle-finished q (executing r) i p b = absurd cc
  idle-finished q (executed r result) i p b = absurd cc
  idle-finished q (answered r) i p b = absurd cc
  idle-finished q (stopped r lost) i p b = absurd cc

  append-eq_self : {A : Type 0} (xs ys : List A) → xs ++ ys ≡ xs → ys ≡ []
  append-eq_self xs ys h = length-eq-zero ys (omega (arith, ap length h, length-append xs ys))

  finished-idle :
      (q : Queue) (x : Executor) → IsAt size reflector q x → HasFinished q x → is_idle q ≡ true
  unfolding is_idle
  finished-idle q x i (w, e, o) =
      let j = subst (IsAt size reflector q) e i in
      let c = append-eq_self (map (λ p. p.0) q.results) q.channel (sym j.order ∙ o) in
      let p : q.status.pending ≡ 0 = omega (arith, j.counted refl, ap length w, ap length c) in
      rw (p, j.busy) refl

  -- In every state that the callers and the executor reach, with fewer than 2^64 tasks submitted,
  -- the queue reports that it is idle exactly when no caller waits, the executor is running and
  -- waits for a task, and every task that the channel took has its result.
  pub is_idle_iff :
      (motivation : Bool) {q : Queue}
      → Reach size motivation reflector new q
      → q.submitted < usize_mod
      → (is_idle q ≡ true) ↔ HasFinished q q.executor
  is_idle_iff m {q} r h =
      let i = Reach-IsConsistent size reflector m r h in
      (
        λ e. let (p, b) = is_idle-counts q e in idle-finished q q.executor i p b,
        finished-idle q q.executor i,
      )
