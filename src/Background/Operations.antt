-- ===== src/Background/Operations.antt =====
-- The operations of the job store of crates/peko-core/src/background.rs.
use peko_agent.Base.{
  ℕ, ◌+◌, ◌-◌, ◌*◌, ◌/◌, Bool, true, false, Option, none, some, List, [], ◌∷◌, ◌++◌, map, any,
  keep_if, length, if◌then◌else◌,
}
use peko_agent.Text.{Text, text, text_eq, starts_with}
use peko_agent.Text.Number.{to_string}
use peko_agent.Background.{is_terminal, BgJob, BgStore, new_job, add_stat, get_stat, get}
use peko_agent.Background.Writes.{
  inserts, runs, finishes, fails, cancels, checkpoints, prunes, memory_half, write_job,
}

module _ {B : Type 0} (today : ℕ → Text) where
  unfoldable pub bump_metric : ℕ → Text → ℕ → BgStore B → BgStore B
  unfolding add_stat
  bump_metric now metric n s = record s { stats = add_stat (today now) metric n s.stats }

  unfoldable pub tokens_used_today : ℕ → BgStore B → ℕ
  unfolding get_stat
  tokens_used_today now s = get_stat (today now) (text "tokens_used") s.stats

  -- A new job under an id that no other job has.
  unfoldable pub enqueue :
      (id : Text) → (now : ℕ) → Text → Option Text → BgStore B → BgStore B × BgJob
  unfolding bump_metric new_job write_job
  enqueue id now task name s = (
    bump_metric now (text "fired") 1 (write_job (inserts id now task name) s),
    new_job id now task name,
  )

  unfoldable pub mark_running : Text → ℕ → BgStore B → BgStore B
  unfolding write_job
  mark_running id now s = write_job (runs id now) s

  unfoldable pub mark_done :
      Text
      → ℕ
      → (result : Text) → (session_id : Option Text) → (iterations tokens_used : ℕ) → BgStore B
      → BgStore B
  unfolding write_job bump_metric
  mark_done id now result session_id iterations tokens_used s =
      bump_metric now (text "iterations") iterations (
        bump_metric now (text "tokens_used") tokens_used (
          bump_metric now (text "completed") 1
            (write_job (finishes id now result session_id iterations tokens_used) s)))

  unfoldable pub mark_failed : Text → ℕ → (error : Text) → BgStore B → BgStore B
  unfolding write_job bump_metric
  mark_failed id now error s = bump_metric now (text "failed") 1 (write_job (fails id now error) s)

  unfoldable pub mark_timeout : Text → ℕ → (secs : ℕ) → BgStore B → BgStore B
  unfolding mark_failed bump_metric
  mark_timeout id now secs s =
      mark_failed id now (text "timeout: exceeded " ++ (to_string secs ++ text "s"))
        (bump_metric now (text "timeout") 1 s)

  -- `write_checkpoint` with the encoded bytes; the status stays.
  unfoldable pub write_checkpoint : Text → ℕ → (iterations : ℕ) → B → BgStore B → BgStore B
  unfolding write_job
  write_checkpoint id now iterations blob s = write_job (checkpoints id now iterations blob) s

  -- Only a job that has not ended is cancelled.
  abbrev pub cancelled_if : Option BgJob → Text → ℕ → BgStore B → BgStore B × Bool
  cancelled_if none id now s = (s, false)
  cancelled_if (some j) id now s =
      if is_terminal j.status
      then (s, false)
      else (bump_metric now (text "cancelled") 1 (write_job (cancels id now) s), true)

  unfoldable pub mark_cancelled : Text → ℕ → BgStore B → BgStore B × Bool
  unfolding get write_job bump_metric is_terminal
  mark_cancelled id now s = cancelled_if (get id s.jobs) id now s

abbrev pub the_only : List Text → Option Text
the_only (k ∷ []) = some k
the_only _ = none

-- An id, or the only id with a prefix.
unfoldable pub resolve : {B : Type 0} → Text → BgStore B → Option Text
resolve p s =
    let ids = map (λ j. j.id) s.jobs in
    if any (λ k. text_eq k p) ids then some p else the_only (keep_if (λ k. starts_with p k) ids)

-- `cutoff` is the time before which a finished job goes; the number of jobs that went is returned.
unfoldable pub prune_finished : {B : Type 0} → ℕ → BgStore B → BgStore B × ℕ
unfolding write_job memory_half
prune_finished cutoff s = let t = write_job (prunes cutoff) s in (t, length s.jobs - length t.jobs)

unfoldable pub estimate_tokens : Text → ℕ → Text → ℕ
estimate_tokens task iterations response = length task / 4 + length response / 4 + iterations * 800
