-- ===== src/Queue.antt =====
-- crates/peko-core/src/task_queue.rs: the tasks that callers submit, the bounded channel, and the
-- one executor that takes them from it.
--
-- The callers and the executor run beside each other; what one of them does between two awaits is
-- one operation on a `Queue`. `accepted`, `refused`, `submitted` and `results` record what has
-- happened so far: the tasks that the channel took, in order, how many sends failed, how many were
-- submitted, and the results that were sent, in order.
pub mod Steps
pub mod Invariant
pub mod Kept
pub mod Idle
pub mod Work
pub mod Stopped
pub mod Tests
use peko_agent.Base.{
  ℕ, suc, ◌+◌, ◌-◌, ◌%◌, Bool, true, false, not, ◌&&◌, Option, none, some, List, [], ◌∷◌, ◌++◌,
  ◌==◌, if◌then◌else◌,
}
use peko_agent.Base.Results.{Result, ok, err}
use peko_agent.Text.{Text, text}
use peko_agent.Text.Number.{to_string}
use peko_agent.Budget.{usize_mod}
use peko_agent.Motivation.{DriveEvent, task_succeeded, task_failed}
use peko_agent.Runtime.{AgentResponse}

-- `i64`: `negsuc n` is -(n + 1).
pub data ℤ : Type 0 where
  pos negsuc : ℕ → ℤ

abbrev pub print_int : ℤ → Text
print_int (pos n) = to_string n
print_int (negsuc n) = text "-" ++ to_string (suc n)

pub data TaskSource : Type 0 where
  web_ui api : TaskSource
  telegram : (chat_id : ℤ) → TaskSource
  scheduler : (task_name : Text) → TaskSource
  internal : (action reason : Text) → TaskSource

unfoldable pub is_internal : TaskSource → Bool
is_internal (internal action reason) = true
is_internal web_ui = false
is_internal api = false
is_internal (telegram chat_id) = false
is_internal (scheduler task_name) = false

unfoldable pub source_name : TaskSource → Text
source_name web_ui = text "web"
source_name (telegram chat_id) = text "telegram:" ++ print_int chat_id
source_name (scheduler task_name) = text "schedule:" ++ task_name
source_name api = text "api"
source_name (internal action reason) = text "internal:" ++ action

pub record TaskRequest : Type 0 where
  pub input : Text
  pub session_id : Option Text
  pub source : TaskSource

pub record QueueStatus : Type 0 where
  pub pending : ℕ
  pub processing : Bool
  pub total_processed : ℕ
  pub current_task : Option Text
  pub current_source : Option Text

abbrev pub TaskResult : Type 0
TaskResult = Result AgentResponse Text

-- Where the executor's loop stands. A panic of `execute_task` ends the loop: the channel is closed,
-- and the task at hand and those in the channel are dropped.
pub data Executor : Type 0 where
  receiving : Executor
  received executing answered : TaskRequest → Executor
  executed : TaskRequest → TaskResult → Executor
  stopped : TaskRequest → List TaskRequest → Executor

pub record Queue : Type 0 where
  pub status : QueueStatus
  -- Tasks that are counted, while their callers wait for room in the channel.
  pub waiting : List TaskRequest
  pub channel : List TaskRequest
  pub executor : Executor
  pub submitted : ℕ
  pub refused : ℕ
  pub accepted : List TaskRequest
  pub results : List (TaskRequest × TaskResult)
  pub drive_events : List DriveEvent
  pub reflections : List TaskRequest

unfoldable pub new : Queue
new = record {
  status = record {
    pending = 0;
    processing = false;
    total_processed = 0;
    current_task = none;
    current_source = none;
  };
  waiting = [];
  channel = [];
  executor = receiving;
  submitted = 0;
  refused = 0;
  accepted = [];
  results = [];
  drive_events = [];
  reflections = [];
}

-- `submit`, up to the await of `send`.
unfoldable pub submit : TaskRequest → Queue → Queue
submit r q = record q {
  status = record q.status { pending = (q.status.pending + 1) % usize_mod };
  waiting = q.waiting ++ (r ∷ []);
  submitted = q.submitted + 1;
}

-- A send that found room, of one of the waiting tasks.
unfoldable pub accept : List TaskRequest → TaskRequest → List TaskRequest → Queue → Queue
accept front r back q = record q {
  waiting = front ++ back;
  channel = q.channel ++ (r ∷ []);
  accepted = q.accepted ++ (r ∷ []);
}

-- A send that found the channel closed: the error goes to the caller, the count stays.
unfoldable pub refuse : List TaskRequest → List TaskRequest → Queue → Queue
refuse front back q = record q { waiting = front ++ back; refused = q.refused + 1 }

-- `rx.recv()`
unfoldable pub receive : TaskRequest → List TaskRequest → Queue → Queue
receive r rest q = record q { channel = rest; executor = received r }

-- The first update of the status.
unfoldable pub claim : TaskRequest → Queue → Queue
unfolding source_name
claim r q = record q {
  status = record q.status {
    pending = q.status.pending - 1;
    processing = true;
    current_task = some r.input;
    current_source = some (source_name r.source);
  };
  executor = executing r;
}

abbrev pub is_ok : TaskResult → Bool
is_ok (ok r) = true
is_ok (err e) = false

-- What follows the task's execution: an event for the drives, and a reflection on a task of a user
-- that succeeded. The two flags tell which of the hooks are set.
unfoldable pub finish :
    (has_motivation has_reflector : Bool) → TaskRequest → TaskResult → Queue → Queue
unfolding is_internal
finish has_motivation has_reflector r result q = record q {
  executor = executed r result;
  drive_events =
      if has_motivation
      then q.drive_events ++ ((if is_ok result then task_succeeded else task_failed) ∷ [])
      else q.drive_events;
  reflections =
      if is_ok result && not (is_internal r.source) && has_reflector
      then q.reflections ++ (r ∷ [])
      else q.reflections;
}

unfoldable pub panic : TaskRequest → Queue → Queue
panic r q = record q { channel = []; executor = stopped r q.channel }

-- `result_tx.send(…)`
unfoldable pub reply : TaskRequest → TaskResult → Queue → Queue
reply r result q = record q { executor = answered r; results = q.results ++ ((r, result) ∷ []) }

-- The second update of the status.
unfoldable pub settle : Queue → Queue
settle q = record q {
  status = record q.status {
    processing = false;
    total_processed = (q.status.total_processed + 1) % usize_mod;
    current_task = none;
    current_source = none;
  };
  executor = receiving;
}

unfoldable pub is_idle : Queue → Bool
is_idle q = q.status.pending == 0 && not q.status.processing
