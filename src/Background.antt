-- ===== src/Background.antt =====
-- crates/peko-core/src/background.rs: the store of background jobs, in memory and in its catalog.
--
-- The hash map of jobs is a list of jobs with their ids, the catalog a list of rows. A write to the
-- catalog that fails is only logged by the source; here each write succeeds. Times are numbers, and
-- `today` is the date of a time. Waiting and its notifiers are not part of the state.
pub mod Writes
pub mod Operations
pub mod Checkpoint
pub mod Resuming
pub mod Restart
pub mod Halves
pub mod Catalog
pub mod Status
pub mod Metrics
pub mod Tests
use peko_agent.Base.{
  ℕ, ◌+◌, ◌-◌, ◌*◌, ◌/◌, Bool, true, false, not, ◌&&◌, ◌||◌, Option, none, some, List, [], ◌∷◌,
  ◌++◌, map, any, keep_if, ltb, ◌==◌, length, if◌then◌else◌,
}
use peko_agent.Text.{Text, text, text_eq, starts_with}
use peko_agent.Text.Number.{to_string}

pub data BgStatus : Type 0 where
  queued running done failed cancelled : BgStatus

unfoldable pub is_terminal : BgStatus → Bool
is_terminal queued = false
is_terminal running = false
is_terminal done = true
is_terminal failed = true
is_terminal cancelled = true

unfoldable pub as_str : BgStatus → Text
as_str queued = text "queued"
as_str running = text "running"
as_str done = text "done"
as_str failed = text "failed"
as_str cancelled = text "cancelled"

unfoldable pub parse : Text → Option BgStatus
parse s =
    if text_eq s (text "queued")
    then some queued
    else if text_eq s (text "running")
    then some running
    else if text_eq s (text "done")
    then some done
    else if text_eq s (text "failed")
    then some failed
    else if text_eq s (text "cancelled")
    then some cancelled
    else none

pub record BgJob : Type 0 where
  pub id : Text
  pub task : Text
  pub name : Option Text
  pub status : BgStatus
  pub created_at : ℕ
  pub started_at : Option ℕ
  pub finished_at : Option ℕ
  pub result : Option Text
  pub error : Option Text
  pub session_id : Option Text
  pub iterations : ℕ
  pub tokens_used : ℕ

-- A row of `bg_jobs`: the columns of a job, and the checkpoint with its time.
pub record Row (B : Type 0) : Type 0 where
  pub job : BgJob
  pub blob : Option B
  pub checkpoint_at : Option ℕ

-- A row of `bg_stats`.
pub record Stat : Type 0 where
  pub date : Text
  pub metric : Text
  pub value : ℕ

pub record BgStore (B : Type 0) : Type 0 where
  pub jobs : List BgJob
  pub rows : List (Row B)
  pub stats : List Stat

-- `BgJob::new` with the id and the time that it draws
unfoldable pub new_job : (id : Text) → (now : ℕ) → Text → Option Text → BgJob
new_job id now task name = record {
  id = id;
  task = task;
  name = name;
  status = queued;
  created_at = now;
  started_at = none;
  finished_at = none;
  result = none;
  error = none;
  session_id = none;
  iterations = 0;
  tokens_used = 0;
}

-- `get_mut`, and `UPDATE … WHERE id = …`
unfoldable pub update_job : Text → (BgJob → BgJob) → List BgJob → List BgJob
update_job id f [] = []
update_job id f (j ∷ js) = (if text_eq j.id id then f j else j) ∷ update_job id f js

unfoldable pub update_row : {B : Type 0} → Text → (Row B → Row B) → List (Row B) → List (Row B)
update_row id f [] = []
update_row id f (r ∷ rs) = (if text_eq r.job.id id then f r else r) ∷ update_row id f rs

-- The upsert of `bump_metric`
unfoldable pub add_stat : Text → Text → ℕ → List Stat → List Stat
add_stat date metric n [] = record { date = date; metric = metric; value = n } ∷ []
add_stat date metric n (s ∷ ss) =
    if text_eq s.date date && text_eq s.metric metric
    then record s { value = s.value + n } ∷ ss
    else s ∷ add_stat date metric n ss

unfoldable pub get_stat : Text → Text → List Stat → ℕ
get_stat date metric [] = 0
get_stat date metric (s ∷ ss) =
    if text_eq s.date date && text_eq s.metric metric then s.value else get_stat date metric ss

unfoldable pub get : Text → List BgJob → Option BgJob
get id [] = none
get id (j ∷ js) = if text_eq j.id id then some j else get id js

-- What the operations write into a job in memory.
abbrev pub as_running : ℕ → BgJob → BgJob
as_running now j = record j { status = running; started_at = some now }

abbrev pub as_done : ℕ → Text → Option Text → ℕ → ℕ → BgJob → BgJob
as_done now result session_id iterations tokens_used j = record j {
  status = done;
  finished_at = some now;
  result = some result;
  session_id = session_id;
  iterations = iterations;
  tokens_used = tokens_used;
}

abbrev pub as_failed : ℕ → Text → BgJob → BgJob
as_failed now error j = record j { status = failed; finished_at = some now; error = some error }

abbrev pub as_cancelled : ℕ → BgJob → BgJob
as_cancelled now j = record j { status = cancelled; finished_at = some now }

abbrev pub with_iterations : ℕ → BgJob → BgJob
with_iterations n j = record j { iterations = n }
