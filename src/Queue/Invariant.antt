-- ===== src/Queue/Invariant.antt =====
-- What the counters and the order of the queue of crates/peko-core/src/task_queue.rs keep to.
use peko_agent.Base.{
  suc, ℕ, ◌+◌, ◌≤◌, ◌≡◌, refl, ◌∙◌, ap, arith, Bool, true, false, not, ◌&&◌, List, [], ◌∷◌, ◌++◌,
  map, length, length-append, keep_if, if◌then◌else◌,
}
use mathlib.Core.List.{append-nil}
use peko_agent.Queue.{
  TaskRequest, TaskResult, Executor, receiving, received, executing, executed, answered, stopped,
  Queue, is_ok, is_internal,
}
use peko_agent.Queue.Steps.{is_stopped}

-- A task that was taken from the channel and is counted as pending.
abbrev pub unclaimed : Executor → ℕ
unclaimed (received r) = 1
unclaimed receiving = 0
unclaimed (executing r) = 0
unclaimed (executed r result) = 0
unclaimed (answered r) = 0
unclaimed (stopped r lost) = 0

abbrev pub is_busy : Executor → Bool
is_busy receiving = false
is_busy (received r) = false
is_busy (executing r) = true
is_busy (executed r result) = true
is_busy (answered r) = true
is_busy (stopped r lost) = true

-- A task whose result was sent, and that is not counted yet.
abbrev pub uncounted : Executor → ℕ
uncounted (answered r) = 1
uncounted receiving = 0
uncounted (received r) = 0
uncounted (executing r) = 0
uncounted (executed r result) = 0
uncounted (stopped r lost) = 0

-- The tasks that were taken from the channel and have no result.
abbrev pub held : Executor → List TaskRequest
held receiving = []
held (received r) = r ∷ []
held (executing r) = r ∷ []
held (executed r result) = r ∷ []
held (answered r) = []
held (stopped r lost) = r ∷ lost

-- The task that is finished, and whose result is not sent yet.
abbrev pub unsent : Executor → List (TaskRequest × TaskResult)
unsent (executed r result) = (r, result) ∷ []
unsent receiving = []
unsent (received r) = []
unsent (executing r) = []
unsent (answered r) = []
unsent (stopped r lost) = []

-- The tasks of users that succeeded.
abbrev pub deserves_reflection : TaskRequest × TaskResult → Bool
deserves_reflection (r, result) = is_ok result && not (is_internal r.source)

abbrev pub to_reflect : Bool → List (TaskRequest × TaskResult) → List TaskRequest
to_reflect true rs = map (λ p. p.0) (keep_if deserves_reflection rs)
to_reflect false rs = []

-- The state of a queue whose executor is at `x`.
pub record IsAt (size : ℕ) (reflector : Bool) (q : Queue) (x : Executor) : Type 0 where
  pub counted :
      is_stopped x ≡ false → q.status.pending ≡ length q.waiting + length q.channel + unclaimed x
  pub busy : q.status.processing ≡ is_busy x
  pub total : q.status.total_processed + uncounted x ≡ length q.results
  pub order : q.accepted ≡ map (λ p. p.0) q.results ++ (held x ++ q.channel)
  pub tally : q.submitted ≡ length q.waiting + q.refused + length q.accepted
  pub room : length q.channel ≤ size
  pub reflected : q.reflections ≡ to_reflect reflector (q.results ++ unsent x)

abbrev pub IsConsistent : ℕ → Bool → Queue → Type 0
IsConsistent size reflector q = IsAt size reflector q q.executor

pub map-append :
    {A B : Type 0} (f : A → B) (xs ys : List A) → map f (xs ++ ys) ≡ map f xs ++ map f ys
map-append f [] ys = refl
map-append f (x ∷ xs) ys = ap (λ z. f x ∷ z) (map-append f xs ys)

keep_if-append :
    {A : Type 0} (p : A → Bool) (xs ys : List A)
    → keep_if p (xs ++ ys) ≡ keep_if p xs ++ keep_if p ys
keep_if-append p [] ys = refl
keep_if-append p (x ∷ xs) ys = ground (arith, keep_if-append p xs ys)

reflect_if :
    (c : Bool) (p : TaskRequest × TaskResult) (ys : List TaskRequest)
    → ys ++ map (λ q. q.0) (keep_if (λ _. c) (p ∷ []))
      ≡ (if c && true then ys ++ (p.0 ∷ []) else ys)
reflect_if true p ys = refl
reflect_if false p ys = append-nil ys

pub to_reflect-append :
    (b : Bool) (xs : List (TaskRequest × TaskResult)) (r : TaskRequest) (result : TaskResult)
    → to_reflect b (xs ++ ((r, result) ∷ [])) ≡ (
        if is_ok result && not (is_internal r.source) && b
        then to_reflect b xs ++ (r ∷ [])
        else to_reflect b xs)
to_reflect-append true xs r result =
    ap (map (λ p. p.0)) (keep_if-append deserves_reflection xs ((r, result) ∷ []))
    ∙ (map-append (λ p. p.0) (keep_if deserves_reflection xs)
          (keep_if deserves_reflection ((r, result) ∷ []))
        ∙ reflect_if (is_ok result && not (is_internal r.source)) (r, result) _)
to_reflect-append false xs r result = ground arith

length-map : {A B : Type 0} (f : A → B) (xs : List A) → length (map f xs) ≡ length xs
length-map f [] = refl
length-map f (x ∷ xs) = ap suc (length-map f xs)

pub unclaimed-held : (x : Executor) → unclaimed x ≤ length (held x)
unclaimed-held receiving = omega arith
unclaimed-held (received r) = omega arith
unclaimed-held (executing r) = omega arith
unclaimed-held (executed r result) = omega arith
unclaimed-held (answered r) = omega arith
unclaimed-held (stopped r lost) = omega arith

module _ (size : ℕ) (reflector : Bool) where
  -- The tasks that the channel took, counted by where they are.
  pub length-accepted :
      (q : Queue) (x : Executor)
      → IsAt size reflector q x
      → length q.accepted ≡ length q.results + (length (held x) + length q.channel)
  length-accepted q x i =
      ap length i.order
      ∙ omega (
        arith,
        length-append (map (λ p. p.0) q.results) (held x ++ q.channel),
        length-append (held x) q.channel,
        length-map (λ p. p.0) q.results,
      )
