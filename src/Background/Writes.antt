-- ===== src/Background/Writes.antt =====
-- The halves of a job operation of crates/peko-core/src/background.rs: the change in memory under the
-- lock of the jobs, and the statement that is then run on the catalog under the lock of the database.
use peko_agent.Base.{
  ℕ, Bool, false, not, ◌&&◌, Option, none, some, List, [], ◌∷◌, ◌++◌, any, keep_if, ltb,
}
use peko_agent.Text.{Text, text, text_eq}
use peko_agent.Background.{
  queued, running, done, failed, cancelled, is_terminal, as_str, BgJob, Row, BgStore, new_job,
  update_job, update_row, as_running, as_done, as_failed, as_cancelled, with_iterations,
}

-- An operation on jobs, with the values that it writes.
pub data Write (B : Type 0) : Type 0 where
  inserts : (id : Text) (now : ℕ) (task : Text) (name : Option Text) → Write B
  runs : (id : Text) (now : ℕ) → Write B
  finishes :
      (id : Text) (now : ℕ) (result : Text) (session_id : Option Text) (iterations tokens_used : ℕ)
      → Write B
  fails : (id : Text) (now : ℕ) (error : Text) → Write B
  cancels : (id : Text) (now : ℕ) → Write B
  checkpoints : (id : Text) (now iterations : ℕ) (blob : B) → Write B
  prunes : (cutoff : ℕ) → Write B

-- The test of memory on a job.
unfoldable pub prunable : ℕ → BgJob → Bool
prunable cutoff j =
    is_terminal j.status && elim j.finished_at [ none ↦ false | some t ↦ ltb t cutoff ]

-- `status IN ('done','failed','cancelled') AND finished_at IS NOT NULL AND finished_at < ?1`
unfoldable pub is_deleted : {B : Type 0} → ℕ → Row B → Bool
is_deleted cutoff r =
    any (text_eq (as_str r.job.status)) (text "done" ∷ text "failed" ∷ text "cancelled" ∷ [])
    && elim r.job.finished_at [ none ↦ false | some t ↦ ltb t cutoff ]

unfoldable pub memory_half : {B : Type 0} → Write B → List BgJob → List BgJob
unfolding update_job prunable
memory_half (inserts id now task name) js = js ++ (new_job id now task name ∷ [])
memory_half (runs id now) js = update_job id (as_running now) js
memory_half (finishes id now result session_id iterations tokens_used) js =
    update_job id (as_done now result session_id iterations tokens_used) js
memory_half (fails id now error) js = update_job id (as_failed now error) js
memory_half (cancels id now) js = update_job id (as_cancelled now) js
memory_half (checkpoints id now iterations blob) js = update_job id (with_iterations iterations) js
memory_half (prunes cutoff) js = keep_if (λ j. not (prunable cutoff j)) js

module _ {B : Type 0} where
  -- The columns of the INSERT; the others are null.
  abbrev pub inserted : Text → ℕ → Text → Option Text → Row B
  inserted id now task name = record {
    job = record {
      id = id;
      task = task;
      name = name;
      status = queued;
      created_at = now;
      started_at = none;
      finished_at = none;
      result = none;
      error = none;
      session_id = none;
      iterations = 0;
      tokens_used = 0;
    };
    blob = none;
    checkpoint_at = none;
  }

  -- `SET status = ?1, started_at = ?2`
  abbrev pub set_running : ℕ → Row B → Row B
  set_running now r = record r { job = record r.job { status = running; started_at = some now } }

  -- `SET status = ?1, finished_at = ?2, result = ?3, session_id = ?4, iterations = ?5, tokens_used = ?6`
  abbrev pub set_done : ℕ → Text → Option Text → ℕ → ℕ → Row B → Row B
  set_done now result session_id iterations tokens_used r = record r {
    job = record r.job {
      status = done;
      finished_at = some now;
      result = some result;
      session_id = session_id;
      iterations = iterations;
      tokens_used = tokens_used;
    };
  }

  -- `SET status = ?1, finished_at = ?2, error = ?3`
  abbrev pub set_failed : ℕ → Text → Row B → Row B
  set_failed now error r = record r {
    job = record r.job { status = failed; finished_at = some now; error = some error };
  }

  -- `SET status = ?1, finished_at = ?2`
  abbrev pub set_cancelled : ℕ → Row B → Row B
  set_cancelled now r = record r {
    job = record r.job { status = cancelled; finished_at = some now };
  }

  -- `SET checkpoint_blob = ?1, checkpoint_at = ?2, iterations = ?3`
  abbrev pub set_checkpoint : ℕ → ℕ → B → Row B → Row B
  set_checkpoint now iterations blob r = record {
    job = record r.job { iterations = iterations };
    blob = some blob;
    checkpoint_at = some now;
  }

  unfoldable pub catalog_half : Write B → List (Row B) → List (Row B)
  unfolding update_row is_deleted
  catalog_half (inserts id now task name) rs = rs ++ (inserted id now task name ∷ [])
  catalog_half (runs id now) rs = update_row id (set_running now) rs
  catalog_half (finishes id now result session_id iterations tokens_used) rs =
      update_row id (set_done now result session_id iterations tokens_used) rs
  catalog_half (fails id now error) rs = update_row id (set_failed now error) rs
  catalog_half (cancels id now) rs = update_row id (set_cancelled now) rs
  catalog_half (checkpoints id now iterations blob) rs =
      update_row id (set_checkpoint now iterations blob) rs
  catalog_half (prunes cutoff) rs = keep_if (λ r. not (is_deleted cutoff r)) rs

  unfoldable pub in_memory : Write B → BgStore B → BgStore B
  unfolding memory_half
  in_memory w s = record s { jobs = memory_half w s.jobs }

  unfoldable pub in_catalog : Write B → BgStore B → BgStore B
  unfolding catalog_half
  in_catalog w s = record s { rows = catalog_half w s.rows }

  -- An operation that no other one comes between.
  unfoldable pub write_job : Write B → BgStore B → BgStore B
  unfolding in_memory in_catalog
  write_job w s = in_catalog w (in_memory w s)
