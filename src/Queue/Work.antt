-- ===== src/Queue/Work.antt =====
-- How the queue of crates/peko-core/src/task_queue.rs gets its work done.
use peko_agent.Base.{
  ℕ, zero, suc, ◌+◌, ◌*◌, ◌<◌, ◌≡◌, refl, ap, arith, Bool, true, List, [], ◌∷◌, length,
  length-append, ◌⊎◌, inl, inr,
}
use peko_agent.Base.Results.{err}
use peko_agent.Queue.{
  TaskRequest, Executor, receiving, received, executing, executed, answered, stopped, Queue, submit,
  accept, refuse, receive, claim, finish, panic, reply, settle,
}
use peko_agent.Queue.Steps.{
  Step, submits, accepts, refuses, receives, claims, finishes, panics, replies, settles, is_stopped,
}

-- The steps between here and the result's count.
abbrev pub steps_left : Executor → ℕ
steps_left receiving = 0
steps_left (received r) = 4
steps_left (executing r) = 3
steps_left (executed r result) = 2
steps_left (answered r) = 1
steps_left (stopped r lost) = 0

-- A bound on the steps that are left when no further task is submitted.
unfoldable pub work : Queue → ℕ
work q = 6 * length q.waiting + 5 * length q.channel + steps_left q.executor

module _ (size : ℕ) (motivation reflector : Bool) where
  -- Every step but a submission leaves less work, so that without submissions the queue comes to
  -- rest.
  pub Step-work :
      {s t : Queue}
      → Step size motivation reflector s t
      → t.submitted ≡ s.submitted
      → work t < work s
  unfolding work submit accept refuse receive claim finish panic reply settle
  Step-work (submits r) h = absurd (omega arith)
  Step-work {s} (accepts front r back e n k) h = omega (
    arith,
    ap length e,
    length-append front (r ∷ back),
    length-append front back,
    length-append s.channel (r ∷ []),
  )
  Step-work (refuses front r back e k) h =
      omega (arith, ap length e, length-append front (r ∷ back), length-append front back)
  Step-work (receives r rest e k) h = omega (arith, ap steps_left e, ap length k)
  Step-work (claims r e) h = omega (arith, ap steps_left e)
  Step-work (finishes r result e) h = omega (arith, ap steps_left e)
  Step-work (panics r e) h = omega (arith, ap steps_left e)
  Step-work (replies r result e) h = omega (arith, ap steps_left e)
  Step-work (settles r e) h = omega (arith, ap steps_left e)

  -- A step that submits nothing.
  abbrev pub Advances : Queue → Queue → Type 0
  Advances s t = Step size motivation reflector s t × (t.submitted ≡ s.submitted)

  abbrev pub AtRest : Queue → Type 0
  AtRest q =
      (q.waiting ≡ [])
      × ((q.executor ≡ receiving) × (q.channel ≡ []) ⊎ (is_stopped q.executor ≡ true))

  waiting_or_rest :
      (q : Queue) (ws : List TaskRequest) (cs : List TaskRequest)
      → 0 < size
      → q.waiting ≡ ws
      → q.channel ≡ cs
      → q.executor ≡ receiving
      → AtRest q ⊎ ((t : Queue) × Advances q t)
  unfolding accept receive
  waiting_or_rest q [] [] h w c e = inl (w, inl (e, c))
  waiting_or_rest q (r ∷ ws) [] h w c e = inr (
    accept [] r ws q,
    (accepts [] r ws w (ap is_stopped e) (omega (arith, h, ap length c)), refl),
  )
  waiting_or_rest q ws (r ∷ cs) h w c e = inr (receive r cs q, (receives r cs e c, refl))

  refused_or_rest :
      (q : Queue) (ws : List TaskRequest)
      → q.waiting ≡ ws
      → is_stopped q.executor ≡ true
      → AtRest q ⊎ ((t : Queue) × Advances q t)
  unfolding refuse
  refused_or_rest q [] w e = inl (w, inr e)
  refused_or_rest q (r ∷ ws) w e = inr (refuse [] ws q, (refuses [] r ws w e, refl))

  advance_from :
      (q : Queue) (x : Executor)
      → 0 < size
      → q.executor ≡ x
      → AtRest q ⊎ ((t : Queue) × Advances q t)
  unfolding claim finish reply settle
  advance_from q receiving h e = waiting_or_rest q q.waiting q.channel h refl refl e
  advance_from q (received r) h e = inr (claim r q, (claims r e, refl))
  advance_from q (executing r) h e =
      inr (finish motivation reflector r (err []) q, (finishes r (err []) e, refl))
  advance_from q (executed r result) h e = inr (reply r result q, (replies r result e, refl))
  advance_from q (answered r) h e = inr (settle q, (settles r e, refl))
  advance_from q (stopped r lost) h e = refused_or_rest q q.waiting refl (ap is_stopped e)

  -- If the channel has room at all, every state of the queue either is at rest, with no
  -- caller waiting and the executor waiting at an empty channel or ended by a panic, or has a step
  -- that submits nothing.
  pub advances : (q : Queue) → 0 < size → AtRest q ⊎ ((t : Queue) × Advances q t)
  advances q h = advance_from q q.executor h refl

  -- Whatever the callers and the executor do next, as long as nothing is submitted, they come to a
  -- state of which `P` holds: it holds now, or there is a next step and every next step leads there.
  pub data Inevitably (P : Queue → Type 0) : Queue → Type 0 where
    now : {q : Queue} → P q → Inevitably P q
    next :
        {q : Queue} (t : Queue)
        → Advances q t
        → ((u : Queue) → Advances q u → Inevitably P u)
        → Inevitably P q

  Inevitably-within : (n : ℕ) (q : Queue) → 0 < size → work q < n → Inevitably AtRest q
  Inevitably-within zero q h k = absurd (omega arith)
  Inevitably-within (suc n) q h k = elim (advances q h) [
    | inl r ↦ now r
    | inr (t, a) ↦
        next t a (λ u (st, e). Inevitably-within n u h (omega (arith, k, Step-work st e)))
  ]

  -- If the channel has room for a task at all, then from every state the queue comes to rest by
  -- itself when nothing more is submitted, in whatever order the callers and the executor proceed:
  -- no caller waits, and the executor waits at an empty channel or was ended by a panic.
  pub rests : (q : Queue) → 0 < size → Inevitably AtRest q
  rests q h = Inevitably-within (work q + 1) q h (omega arith)
