-- ===== src/Queue/Steps.antt =====
-- The interleavings of the callers and the executor of crates/peko-core/src/task_queue.rs.
use peko_agent.Base.{ℕ, ◌<◌, ◌≡◌, Bool, true, false, List, ◌∷◌, ◌++◌, length}
use peko_agent.Queue.{
  TaskRequest, TaskResult, Executor, receiving, received, executing, executed, answered, stopped,
  Queue, submit, accept, refuse, receive, claim, finish, panic, reply, settle,
}

abbrev pub is_stopped : Executor → Bool
is_stopped (stopped r lost) = true
is_stopped receiving = false
is_stopped (received r) = false
is_stopped (executing r) = false
is_stopped (executed r result) = false
is_stopped (answered r) = false

-- What a queue of the given size, with the given hooks, may do next. `execute_task` may return any
-- result, or panic.
pub data Step (size : ℕ) (motivation reflector : Bool) (q : Queue) : Queue → Type 0 where
  submits : (r : TaskRequest) → Step size motivation reflector q (submit r q)
  accepts :
      (front : List TaskRequest) (r : TaskRequest) (back : List TaskRequest)
      → q.waiting ≡ front ++ (r ∷ back)
      → is_stopped q.executor ≡ false
      → length q.channel < size
      → Step size motivation reflector q (accept front r back q)
  refuses :
      (front : List TaskRequest) (r : TaskRequest) (back : List TaskRequest)
      → q.waiting ≡ front ++ (r ∷ back)
      → is_stopped q.executor ≡ true
      → Step size motivation reflector q (refuse front back q)
  receives :
      (r : TaskRequest) (rest : List TaskRequest)
      → q.executor ≡ receiving
      → q.channel ≡ r ∷ rest
      → Step size motivation reflector q (receive r rest q)
  claims :
      (r : TaskRequest) → q.executor ≡ received r → Step size motivation reflector q (claim r q)
  finishes :
      (r : TaskRequest) (result : TaskResult)
      → q.executor ≡ executing r
      → Step size motivation reflector q (finish motivation reflector r result q)
  panics :
      (r : TaskRequest) → q.executor ≡ executing r → Step size motivation reflector q (panic r q)
  replies :
      (r : TaskRequest) (result : TaskResult)
      → q.executor ≡ executed r result
      → Step size motivation reflector q (reply r result q)
  settles :
      (r : TaskRequest) → q.executor ≡ answered r → Step size motivation reflector q (settle q)

-- Any number of steps from one state to another.
pub data Reach (size : ℕ) (motivation reflector : Bool) (q : Queue) : Queue → Type 0 where
  here : Reach size motivation reflector q q
  later :
      {s t : Queue}
      → Reach size motivation reflector q s
      → Step size motivation reflector s t
      → Reach size motivation reflector q t
