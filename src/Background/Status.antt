-- ===== src/Background/Status.antt =====
-- The statuses of background jobs, and how the operations change them.
use peko_agent.Base.{
  ℕ, ◌≡◌, refl, ◌∙◌, ap, arith, ◌↔◌, true, false, not, Option, some, List, [], ◌∷◌, inl, inr,
  Bool-cases, if◌then◌else◌,
}
use peko_agent.Text.{Text, text, text_eq}
use peko_agent.Text.Equality.{text_eq_iff}
use peko_agent.Background.{
  BgStatus, queued, running, done, failed, cancelled, is_terminal, as_str, parse, BgJob, BgStore,
  update_job, get, as_cancelled, as_done,
}
use peko_agent.Background.Writes.{write_job}
use peko_agent.Background.Operations.{bump_metric, mark_cancelled, mark_done}

parse-as_str : (s : BgStatus) → parse (as_str s) ≡ some s
unfolding parse as_str text_eq
parse-as_str queued = refl
parse-as_str running = refl
parse-as_str done = refl
parse-as_str failed = refl
parse-as_str cancelled = refl

parse-eq-some : (t : Text) (s : BgStatus) → parse t ≡ some s → t ≡ as_str s
unfolding parse as_str
parse-eq-some t s h = ground (
  arith,
  h,
  text_eq_iff t (text "queued"),
  text_eq_iff t (text "running"),
  text_eq_iff t (text "done"),
  text_eq_iff t (text "failed"),
  text_eq_iff t (text "cancelled"),
)

-- Each status has one text, and no other text is read as it.
pub parse_iff : (t : Text) (s : BgStatus) → (parse t ≡ some s) ↔ (t ≡ as_str s)
parse_iff t s = (parse-eq-some t s, λ e. ap parse e ∙ parse-as_str s)

pub get-update_job :
    (id : Text) (f : BgJob → BgJob) (js : List BgJob) (j : BgJob)
    → ((k : BgJob) → (f k).id ≡ k.id)
    → get id js ≡ some j
    → get id (update_job id f js) ≡ some (f j)
unfolding get update_job
get-update_job id f (k ∷ ks) j same h =
    ground (arith, h, same k, get-update_job id f ks j same, Bool-cases (text_eq k.id id))
get-update_job id f [] j same h = cc

module _ {B : Type 0} (today : ℕ → Text) where
  -- A cancellation of a job in the store reports success if the job has not ended, and then the job
  -- is cancelled at that time; otherwise the job is as before.
  pub mark_cancelled-get :
      (id : Text) (now : ℕ) (s : BgStore B) (j : BgJob)
      → get id s.jobs ≡ some j
      → ((mark_cancelled today id now s).1 ≡ not (is_terminal j.status))
        × (get id (mark_cancelled today id now s).0.jobs
            ≡ some (if is_terminal j.status then j else as_cancelled now j))
  unfolding mark_cancelled write_job bump_metric
  mark_cancelled-get id now s j h = elim (Bool-cases (is_terminal j.status)) [
    | inl e ↦ rw (h, e) (refl, h)
    | inr e ↦ rw (h, e) (refl, get-update_job id (as_cancelled now) s.jobs j (λ k. refl) h)
  ]

  -- A job that was cancelled, with success reported, is done after its worker finishes.
  pub mark_done-cancelled :
      (id : Text) (now later : ℕ) (result : Text) (session_id : Option Text)
      (iterations tokens_used : ℕ) (s : BgStore B) (j : BgJob)
      → get id s.jobs ≡ some j
      → is_terminal j.status ≡ false
      → ((mark_cancelled today id now s).1 ≡ true)
        × (get id
              (mark_done today id later result session_id iterations tokens_used
                (mark_cancelled today id now s).0).jobs
            ≡ some (as_done later result session_id iterations tokens_used (as_cancelled now j)))
  unfolding mark_done write_job bump_metric
  mark_done-cancelled id now later result session_id iterations tokens_used s j h t =
      let (p, q) = mark_cancelled-get id now s j h in
      (
        p ∙ rw (t) refl,
        get-update_job id (as_done later result session_id iterations tokens_used)
            (mark_cancelled today id now s).0.jobs (as_cancelled now j) (λ k. refl)
            (q ∙ rw (t) refl),
      )
