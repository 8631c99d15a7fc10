-- ===== src/Scheduler.antt =====
-- crates/peko-core/src/scheduler.rs: the tasks that run at the times of a cron expression.
--
-- `execute` stands for a runtime's `run_task` on a task's text, `send` for the Telegram message to
-- every chat, and `sender` tells whether a bot is configured. `describe_error` is the `Display` of a
-- cron error. One check reads the clock several times in the source; here it has one reading, a
-- point in time and its text to the minute. A log line has no effect, but its slice may panic.
pub mod Checks
pub mod Firing
pub mod Starving
pub mod Tests
use peko_agent.Base.{
  ℕ, ◌+◌, ◌%◌, ◌^◌, min, Bool, true, false, not, ◌&&◌, Option, none, some, List, [], ◌∷◌, ◌++◌,
  if◌then◌else◌,
}
use mathlib.Core.Option
use peko_agent.Base.Results.{Result, ok, err}
use peko_agent.Text.{Text, text, text_eq, is_empty, len, slice_to}
use peko_agent.Text.Number.{to_string}
use peko_agent.Cron.{CronExpr, Time, parse, matches_time}
use peko_agent.Cron.Field.{CronError}
use peko_agent.Runtime.Rounds
use peko_agent.Runtime.{AgentResponse}

abbrev pub u64_mod : ℕ
u64_mod = 2 ^ 64

pub record ScheduledTask : Type 0 where
  pub name : Text
  pub cron : Text
  pub task : Text
  pub notify : Text
  pub enabled : Bool
  pub last_run : Option Text
  pub run_count : ℕ
  pub last_result : Option Text
  pub last_error : Option Text

pub record Clock : Type 0 where
  pub now : Time
  pub key : Text

-- `as_deref() == Some(&key)`
abbrev pub ran_at : Option Text → Text → Bool
ran_at none key = false
ran_at (some k) key = text_eq k key

module _ (describe_error : CronError → Text) where
  -- What `new` makes of a task whose expression was read.
  abbrev pub registered :
      ScheduledTask → Result CronExpr CronError → ScheduledTask × Option CronExpr
  registered t (ok c) = (t, some c)
  registered t (err e) = (
    record t {
      enabled = false;
      last_error = some (text "invalid cron '" ++ (t.cron ++ (text "': " ++ describe_error e)));
    },
    none,
  )

  -- The tasks and their expressions, side by side.
  unfoldable pub new : List ScheduledTask → List ScheduledTask × List (Option CronExpr)
  new [] = ([], [])
  new (t ∷ ts) =
      let rest = new ts in let (u, c) = registered t (parse t.cron) in (u ∷ rest.0, c ∷ rest.1)

unfoldable pub due : Clock → Option CronExpr → ScheduledTask → Bool
due clock none t = false
due clock (some c) t = t.enabled && (matches_time c clock.now && not (ran_at t.last_run clock.key))

abbrev pub marked : Clock → ScheduledTask → ScheduledTask
marked clock t = record t { last_run = some clock.key; run_count = (t.run_count + 1) % u64_mod }

module _ {W : Type 0} (sender : Bool) (send : Text → W → W)
    (execute : Text → W → Result AgentResponse Text × W) where
  -- `none` is a panic.
  unfoldable pub deliver : (method name body : Text) → W → Option W
  deliver method name body w =
      if text_eq method (text "telegram")
      then some
          (if sender then send (text "[Scheduled: " ++ (name ++ (text "]\n\n" ++ body))) w else w)
      else Option.map (λ _. w) (slice_to (min (len body) 200) body)

  -- A finished run with its text.
  unfoldable pub completed_text : ScheduledTask → AgentResponse → Text
  completed_text t r =
      if is_empty r.response_text
      then text "["
        ++ (t.name ++ (text "] completed in " ++ (to_string r.iterations ++ text " iterations")))
      else r.response_text

  abbrev pub recorded : ScheduledTask → Result AgentResponse Text × W → Option (ScheduledTask × W)
  recorded t (ok r, w) =
      Option.map (λ v. (record t { last_result = some (completed_text t r); last_error = none }, v))
        (deliver t.notify t.name (completed_text t r) w)
  recorded t (err e, w) =
      Option.map (λ v. (record t { last_error = some e }, v))
        (deliver t.notify t.name (text "ERROR: " ++ e) w)

  -- The task is marked first, and its result is stored afterwards.
  unfoldable pub run : Clock → ScheduledTask → W → Option (ScheduledTask × W)
  unfolding deliver completed_text
  run clock t w = recorded (marked clock t) (execute t.task w)

  -- A task that is due is run and ends the loop; `rest` is the loop behind it.
  abbrev pub checked :
      Bool
      → Option (ScheduledTask × W)
      → Option (List ScheduledTask × W)
      → ScheduledTask
      → List ScheduledTask
      → Option (List ScheduledTask × W)
  checked true ran rest t ts = Option.map (λ (u, v). (u ∷ ts, v)) ran
  checked false ran rest t ts = Option.map (λ (us, v). (t ∷ us, v)) rest

  -- The loop of `check_and_run`, which returns after the first task that is due.
  unfoldable pub check_and_run :
      Clock → List (Option CronExpr) → List ScheduledTask → W → Option (List ScheduledTask × W)
  unfolding due run
  check_and_run clock (c ∷ cs) (t ∷ ts) w =
      checked (due clock c t) (run clock t w) (check_and_run clock cs ts w) t ts
  check_and_run clock cs ts w = some (ts, w)

  -- A check at each reading of the clock.
  unfoldable pub checks :
      List Clock → List (Option CronExpr) → List ScheduledTask → W → Option (List ScheduledTask × W)
  unfolding check_and_run
  checks [] cs ts w = some (ts, w)
  checks (k ∷ ks) cs ts w = Option.bind (check_and_run k cs ts w) (λ (us, v). checks ks cs us v)
