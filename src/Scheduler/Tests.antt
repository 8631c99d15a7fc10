-- ===== src/Scheduler/Tests.antt =====
-- Checks of crates/peko-core/src/scheduler.rs with three tasks.
use peko_agent.Base.{
  ℕ, suc, ◌≡◌, refl, true, false, Option, none, some, List, [], ◌∷◌, ◌++◌, get_elem?,
}
use peko_agent.Base.Results.{Result, ok}
use peko_agent.Text.{Text, text, text_eq}
use peko_agent.Cron.{CronExpr, Time, parse}
use peko_agent.Cron.Field.{CronError, invalid_format}
use peko_agent.Runtime.{AgentResponse}
use peko_agent.Scheduler.{ScheduledTask, Clock, checks, new}
use peko_agent.Scheduler.Firing.{RanOnce, checks-same_minute, checks-invalid}
use peko_agent.Scheduler.Starving.{AreDistinct, IsFresh, checks-starves}

abbrev describe_error : CronError → Text
describe_error e = text "bad"

-- Midnight of the first of January, a Sunday, at whatever minute.
abbrev every_first : CronExpr
every_first = record {
  raw = text "0,1 0 1 1 0";
  minutes = 0 ∷ 1 ∷ [];
  hours = 0 ∷ [];
  days_of_month = 1 ∷ [];
  months = 1 ∷ [];
  days_of_week = 0 ∷ [];
}

abbrev task_named : Text → ScheduledTask
task_named name = record {
  name = name;
  cron = text "0,1 0 1 1 0";
  task = name;
  notify = text "log";
  enabled = true;
  last_run = none;
  run_count = 0;
  last_result = none;
  last_error = none;
}

abbrev at : ℕ → Text → Clock
at minute key = record {
  now = record { minute = minute; hour = 0; day = 1; month = 1; weekday = 0 };
  key = key;
}

-- A runtime that answers at once; the world counts its runs.
abbrev execute : Text → ℕ → Result AgentResponse Text × ℕ
execute task w =
    (ok (record { response_text = text "ok"; iterations = 1; session_id = text "s" }), suc w)

abbrev send : Text → ℕ → ℕ
send message w = w

abbrev ran : Text → Text → ℕ → ScheduledTask
ran name key n = record (task_named name) {
  last_run = some key;
  run_count = n;
  last_result = some (text "ok");
}

abbrev two_tasks : List ScheduledTask
two_tasks = task_named (text "a") ∷ task_named (text "b") ∷ []

abbrev two_crons : List (Option CronExpr)
two_crons = some every_first ∷ some every_first ∷ []

checks-same_minute_example :
    RanOnce (text "00:00") (task_named (text "a")) (some (ran (text "a") (text "00:00") 1))
unfolding checks mathlib.Core.Option.bind peko_agent.Cron.matches_time peko_agent.Cron.Values.has
    text_eq peko_agent.Text.slice_to peko_agent.Text.is_empty peko_agent.Text.len
checks-same_minute_example =
    checks-same_minute false send execute (text "00:00")
      (at 0 (text "00:00") ∷ at 0 (text "00:00") ∷ []) two_crons two_tasks 0 0
      {us = ran (text "a") (text "00:00") 1 ∷ ran (text "b") (text "00:00") 1 ∷ []} {v = 2}
      (refl, (refl, tt)) refl refl refl

checks-starves_example :
    get_elem? (ran (text "a") (text "00:01") 2 ∷ task_named (text "b") ∷ []) 1
    ≡ some (task_named (text "b"))
unfolding checks AreDistinct IsFresh text_eq mathlib.Core.Option.bind peko_agent.Cron.matches_time
    peko_agent.Cron.Values.has peko_agent.Text.slice_to peko_agent.Text.is_empty peko_agent.Text.len
checks-starves_example =
    checks-starves false send execute every_first []
      (at 0 (text "00:00") ∷ at 1 (text "00:01") ∷ []) two_tasks 0 {v = 2} ((refl, tt), (tt, tt))
      (record {
        task = task_named (text "a");
        there = refl;
        enabled = refl;
        fresh = (refl, (refl, tt));
      })
      refl refl

abbrev broken : ScheduledTask
broken = record (task_named (text "c")) { cron = text "daily" }

checks-invalid_example :
    get_elem?
      (record broken { enabled = false; last_error = some (text "invalid cron 'daily': bad") } ∷ [])
      0
    ≡ some (record broken {
      enabled = false;
      last_error = some (
          text "invalid cron '"
          ++ (broken.cron ++ (text "': " ++ describe_error (invalid_format 1))));
    })
unfolding checks new parse peko_agent.Text.Split.split_whitespace peko_agent.Text.trim
    mathlib.Core.Option.bind
checks-invalid_example =
    checks-invalid false send execute describe_error (broken ∷ [])
      (at 0 (text "00:00") ∷ at 1 (text "00:01") ∷ []) 0 0 {v = 0} refl refl refl
