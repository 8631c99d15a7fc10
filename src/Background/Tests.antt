-- ===== src/Background/Tests.antt =====
-- Runs of the job store of crates/peko-core/src/background.rs.
use peko_agent.Base.{
  ℕ, ◌*◌, ◌≡◌, refl, subst, map, false, true, false, Option, none, some, List, [], ◌∷◌, any, length,
}
use peko_agent.Base.Results.{Result, ok}
use peko_agent.Text.{Text, text, text_eq}
use peko_agent.Message.{Message, user, tool_result}
use peko_agent.Background.{
  BgStatus, done, running, cancelled, is_terminal, as_str, parse, BgJob, Row, BgStore, get, new_job,
  as_running, as_done, as_cancelled,
}
use peko_agent.Background.Operations.{
  enqueue, mark_running, mark_done, mark_cancelled, write_checkpoint, tokens_used_today,
}
use peko_agent.Background.Checkpoint.{Checkpoint, encode, IsShortened, encode-IsShortened}
use peko_agent.Background.Status.{mark_done-cancelled}
use peko_agent.Background.Halves.{catalog_jobs}
use peko_agent.Background.Catalog.{
  starts, steps, begins, lands, write_job-IsReachable, IsReachable-agrees,
}
use peko_agent.Background.Writes.{
  Write, inserts, runs, cancels, memory_half, catalog_half, in_memory, in_catalog, write_job,
}
use peko_agent.Text.Equality.{text_eq_iff}
use peko_agent.Background.Resuming.{pending_resumable}
use peko_agent.Background.Restart.{pending_resumable-running}

abbrev today : ℕ → Text
today now = text "2025-01-01"

abbrev job : BgJob
job = new_job (text "j1") 10 (text "look") none

abbrev one_job : BgStore ℕ
one_job = record {
  jobs = job ∷ [];
  rows = record { job = job; blob = none; checkpoint_at = none } ∷ [];
  stats = [];
}

mark_done-cancelled_example :
    ((mark_cancelled today (text "j1") 20 one_job).1 ≡ true)
    × (get
          (text "j1")
          (mark_done today
            (text "j1")
            30
            (text "found")
            none
            2
            900
            (mark_cancelled today (text "j1") 20 one_job).0).jobs
        ≡ some (as_done 30 (text "found") none 2 900 (as_cancelled 20 job)))
unfolding get text_eq new_job is_terminal
mark_done-cancelled_example =
    mark_done-cancelled today (text "j1") 20 30 (text "found") none 2 900 one_job job refl refl

abbrev first_job : Write ℕ
first_job = inserts (text "j1") 10 (text "look") none

abbrev second_job : Write ℕ
second_job = inserts (text "j2") 11 (text "listen") none

abbrev start_first : Write ℕ
start_first = runs (text "j1") 12

abbrev empty_store : BgStore ℕ
empty_store = record { jobs = []; rows = []; stats = [] }

-- The second job comes between the halves of the start of the first, and is not in the catalog yet.
abbrev crossed : BgStore ℕ
crossed =
    in_catalog start_first
      (in_memory start_first (in_memory second_job (write_job first_job empty_store)))

IsReachable-agrees_example :
    get (text "j1") (catalog_jobs crossed.rows) ≡ get (text "j1") crossed.jobs
unfolding write_job text_eq
IsReachable-agrees_example =
    IsReachable-agrees today {s = record { store = crossed; waiting = second_job ∷ [] }} (text "j1")
      (steps
        (steps
          (steps (write_job-IsReachable today first_job empty_store tt starts)
            (begins second_job tt))
          (begins start_first tt))
        (lands (second_job ∷ []) start_first [] refl (
          λ id h.
              subst (λ z. text_eq (text "j2") z ≡ false) ((text_eq_iff (text "j1") id).0 h) refl,
          tt,
        )))
      (refl, tt)

abbrev stop_first : Write ℕ
stop_first = cancels (text "j1") 21

-- Statements about one job that reach the catalog in the other order leave it apart from memory.
swapped_statements :
    map (λ j. j.status) (memory_half stop_first (memory_half start_first (job ∷ [])))
      ∷ map
          (λ j. j.status)
          (catalog_jobs (catalog_half start_first (catalog_half stop_first one_job.rows)))
      ∷ []
    ≡ (cancelled ∷ []) ∷ (running ∷ []) ∷ []
unfolding memory_half catalog_half text_eq new_job
swapped_statements = refl

-- A running job with a checkpoint, and one without.
abbrev job_named : Text → BgJob
job_named id = as_running 11 (new_job id 10 (text "look") none)

abbrev restarted : BgStore ℕ
restarted = record {
  jobs = job_named (text "j1") ∷ job_named (text "j2") ∷ [];
  rows =
      record { job = job_named (text "j1"); blob = some 5; checkpoint_at = some 90 }
      ∷ record { job = job_named (text "j2"); blob = none; checkpoint_at = none }
      ∷ [];
  stats = [];
}

abbrev decode : ℕ → Option ℕ
decode blob = some blob

pending_resumable-running_example :
    any (λ p. text_eq p.0.id (text "j1")) (pending_resumable decode 1 50 today 100 restarted).1
    ≡ true
unfolding pending_resumable text_eq new_job peko_agent.Background.Operations.mark_failed
pending_resumable-running_example =
    pending_resumable-running decode 1 50 today 100 restarted 0
      (record { job = job_named (text "j1"); blob = some 5; checkpoint_at = some 90 }) refl refl
      refl

-- A size of a hundred thousand bytes for each message.
abbrev to_bytes : Checkpoint ℕ → Result ℕ Text
to_bytes c = ok (length c.messages)

abbrev size : ℕ → ℕ
size n = n * 100000

abbrev talk : List (Message ℕ)
talk = user (text "two") ∷ user (text "three") ∷ user (text "four") ∷ []

abbrev long_checkpoint : Checkpoint ℕ
long_checkpoint = record {
  task = text "one";
  iterations = 3;
  tokens_so_far = 0;
  messages = user (text "one") ∷ talk;
  system_prompt_snapshot = none;
  schema = 1;
}

encode-IsShortened_example : IsShortened to_bytes size long_checkpoint (user (text "one")) talk 2
unfolding encode
encode-IsShortened_example =
    encode-IsShortened to_bytes size long_checkpoint (user (text "one")) talk refl refl

abbrev shot : List (Message ℕ)
shot =
    user (text "look")
    ∷ tool_result (text "1") (text "screen") (text "seen") false
        (some (record { base64 = text "aGk="; media_type = text "image/png" }))
    ∷ []
