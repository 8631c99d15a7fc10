-- ===== src/Background/Halves.antt =====
-- The two halves of a job operation of crates/peko-core/src/background.rs against each other, and on
-- the jobs of one id.
use peko_agent.Base.{
  ℕ, ◌≡◌, refl, sym, ◌∙◌, ap, arith, Bool, true, false, not, ◌&&◌, Option, none, some, List, [],
  ◌∷◌, ◌++◌, All, Bool-cases, map, keep_if, any, ltb,
}
use peko_agent.Text.{Text, text, text_eq}
use peko_agent.Text.Equality.{text_eq_iff}
use peko_agent.Background.{
  BgStatus, queued, running, done, failed, cancelled, is_terminal, as_str, BgJob, Row, new_job,
  update_job, update_row, get, as_running, as_done, as_failed, as_cancelled, with_iterations,
}
use peko_agent.Background.Writes.{
  Write, inserts, runs, finishes, fails, cancels, checkpoints, prunes, prunable, is_deleted,
  memory_half, catalog_half, set_running, set_done, set_failed, set_cancelled, set_checkpoint,
}

module _ {A : Type 0} where
  pub keep_if-append :
      (p : A → Bool) (xs ys : List A) → keep_if p (xs ++ ys) ≡ keep_if p xs ++ keep_if p ys
  keep_if-append p [] ys = refl
  keep_if-append p (x ∷ xs) ys = ground (arith, keep_if-append p xs ys, Bool-cases (p x))

  pub keep_if-none : (p : A → Bool) (xs : List A) → All (λ x. p x ≡ false) xs → keep_if p xs ≡ []
  keep_if-none p [] h = refl
  keep_if-none p (x ∷ xs) h = ground (arith, h.0, keep_if-none p xs h.1)

  pub keep_if-kept :
      (p : A → Bool) (x : A) (xs : List A) → p x ≡ true → keep_if p (x ∷ xs) ≡ x ∷ keep_if p xs
  keep_if-kept p x xs h = ground (arith, h)

  pub keep_if-dropped :
      (p : A → Bool) (x : A) (xs : List A) → p x ≡ false → keep_if p (x ∷ xs) ≡ keep_if p xs
  keep_if-dropped p x xs h = ground (arith, h)

  pub append_nil : (xs : List A) → xs ++ [] ≡ xs
  append_nil [] = refl
  append_nil (x ∷ xs) = ap (λ z. x ∷ z) (append_nil xs)

  pub keep_if-one : (p : A → Bool) (x : A) → p x ≡ true → keep_if p (x ∷ []) ≡ x ∷ []
  keep_if-one p x h = ground (arith, h)

  keep_if-swap :
      (p q : A → Bool) (xs : List A) → keep_if p (keep_if q xs) ≡ keep_if q (keep_if p xs)
  keep_if-swap p q [] = refl
  keep_if-swap p q (x ∷ xs) =
      ground (arith, keep_if-swap p q xs, Bool-cases (p x), Bool-cases (q x))

terminal-names :
    (s : BgStatus)
    → any (text_eq (as_str s)) (text "done" ∷ text "failed" ∷ text "cancelled" ∷ []) ≡ is_terminal s
unfolding as_str is_terminal text_eq
terminal-names queued = refl
terminal-names running = refl
terminal-names done = refl
terminal-names failed = refl
terminal-names cancelled = refl

module _ {B : Type 0} where
  abbrev pub catalog_jobs : List (Row B) → List BgJob
  catalog_jobs rows = map (λ r. r.job) rows

  update-agrees :
      (id : Text) (f : BgJob → BgJob) (g : Row B → Row B) (rows : List (Row B))
      → ((r : Row B) → (g r).job ≡ f r.job)
      → catalog_jobs (update_row id g rows) ≡ update_job id f (catalog_jobs rows)
  unfolding update_row update_job
  update-agrees id f g [] h = refl
  update-agrees id f g (r ∷ rows) h =
      ground (arith, update-agrees id f g rows h, h r, Bool-cases (text_eq r.job.id id))

  append-agrees :
      (rows : List (Row B)) (r : Row B)
      → catalog_jobs (rows ++ (r ∷ [])) ≡ catalog_jobs rows ++ (r.job ∷ [])
  append-agrees [] r = refl
  append-agrees (x ∷ rows) r = ap (λ z. x.job ∷ z) (append-agrees rows r)

  is_deleted-prunable : (cutoff : ℕ) (r : Row B) → is_deleted cutoff r ≡ prunable cutoff r.job
  unfolding is_deleted prunable
  is_deleted-prunable cutoff r =
      ap (λ b. b && elim r.job.finished_at [ none ↦ false | some t ↦ ltb t cutoff ])
        (terminal-names r.job.status)

  delete-agrees :
      (cutoff : ℕ) (rows : List (Row B))
      → catalog_jobs (keep_if (λ r. not (is_deleted cutoff r)) rows)
        ≡ keep_if (λ j. not (prunable cutoff j)) (catalog_jobs rows)
  delete-agrees cutoff [] = refl
  delete-agrees cutoff (r ∷ rows) = ground (
    arith,
    delete-agrees cutoff rows,
    is_deleted-prunable cutoff r,
    Bool-cases (prunable cutoff r.job),
  )

  -- A statement does to the jobs of the catalog what its operation does to those of memory.
  pub catalog_half-jobs :
      (w : Write B) (rows : List (Row B))
      → catalog_jobs (catalog_half w rows) ≡ memory_half w (catalog_jobs rows)
  unfolding catalog_half memory_half new_job
  catalog_half-jobs (inserts id now task name) rows = append-agrees rows _
  catalog_half-jobs (runs id now) rows =
      update-agrees id (as_running now) (set_running now) rows (λ r. refl)
  catalog_half-jobs (finishes id now result session_id iterations tokens_used) rows =
      update-agrees id (as_done now result session_id iterations tokens_used)
        (set_done now result session_id iterations tokens_used) rows (λ r. refl)
  catalog_half-jobs (fails id now error) rows =
      update-agrees id (as_failed now error) (set_failed now error) rows (λ r. refl)
  catalog_half-jobs (cancels id now) rows =
      update-agrees id (as_cancelled now) (set_cancelled now) rows (λ r. refl)
  catalog_half-jobs (checkpoints id now iterations blob) rows =
      update-agrees id (with_iterations iterations) (set_checkpoint now iterations blob) rows
        (λ r. refl)
  catalog_half-jobs (prunes cutoff) rows = delete-agrees cutoff rows

-- The jobs of an id.
abbrev pub only : Text → List BgJob → List BgJob
only id js = keep_if (λ j. text_eq j.id id) js

abbrev first : List BgJob → Option BgJob
first [] = none
first (j ∷ _) = some j

get-first : (id : Text) (js : List BgJob) → get id js ≡ first (only id js)
unfolding get
get-first id [] = refl
get-first id (j ∷ js) = ground (arith, get-first id js, Bool-cases (text_eq j.id id))

pub get-only : (id : Text) (js ks : List BgJob) → only id js ≡ only id ks → get id js ≡ get id ks
get-only id js ks h = get-first id js ∙ ap first h ∙ sym (get-first id ks)

only-update_job :
    (id key : Text) (f : BgJob → BgJob) (js : List BgJob)
    → ((j : BgJob) → (f j).id ≡ j.id)
    → only id (update_job key f js) ≡ update_job key f (only id js)
unfolding update_job
only-update_job id key f [] same = refl
only-update_job id key f (j ∷ js) same = ground (
  arith,
  only-update_job id key f js same,
  same j,
  Bool-cases (text_eq j.id key),
  Bool-cases (text_eq j.id id),
)

update_job-other :
    (id key : Text) (f : BgJob → BgJob) (js : List BgJob)
    → text_eq key id ≡ false
    → update_job key f (only id js) ≡ only id js
unfolding update_job
update_job-other id key f [] h = refl
update_job-other id key f (j ∷ js) h = ground (
  arith,
  h,
  update_job-other id key f js h,
  text_eq_iff j.id key,
  Bool-cases (text_eq j.id key),
  Bool-cases (text_eq j.id id),
)

only-update-other :
    (id key : Text) (f : BgJob → BgJob) (js : List BgJob)
    → ((j : BgJob) → (f j).id ≡ j.id)
    → text_eq key id ≡ false
    → only id (update_job key f js) ≡ only id js
only-update-other id key f js same h =
    only-update_job id key f js same ∙ update_job-other id key f js h

module _ {B : Type 0} where
  -- Whether an operation is about the job of an id; `prunes` may be about any.
  abbrev pub concerns : Text → Write B → Bool
  concerns id (inserts key now task name) = text_eq key id
  concerns id (runs key now) = text_eq key id
  concerns id (finishes key now result session_id iterations tokens_used) = text_eq key id
  concerns id (fails key now error) = text_eq key id
  concerns id (cancels key now) = text_eq key id
  concerns id (checkpoints key now iterations blob) = text_eq key id
  concerns id (prunes cutoff) = true

  -- The operations are not about the same job.
  abbrev pub Apart : Write B → Write B → Type 0
  Apart w v = (id : Text) → concerns id w ≡ true → concerns id v ≡ false

  abbrev pub apply_all : List (Write B) → List BgJob → List BgJob
  apply_all [] js = js
  apply_all (w ∷ ws) js = apply_all ws (memory_half w js)

  pub apply_all-append :
      (ws : List (Write B)) (w : Write B) (js : List BgJob)
      → apply_all (ws ++ (w ∷ [])) js ≡ memory_half w (apply_all ws js)
  apply_all-append [] w js = refl
  apply_all-append (v ∷ ws) w js = apply_all-append ws w (memory_half v js)

  pub only-concerns :
      (id : Text) (w : Write B) (js : List BgJob)
      → concerns id w ≡ true
      → only id (memory_half w js) ≡ memory_half w (only id js)
  unfolding memory_half new_job
  only-concerns id (inserts key now task name) js h =
      keep_if-append (λ j. text_eq j.id id) js _
      ∙ ap (λ z. only id js ++ z) (keep_if-one (λ j. text_eq j.id id) (new_job key now task name) h)
  only-concerns id (runs key now) js h = only-update_job id key _ js (λ j. refl)
  only-concerns id (finishes key now result session_id iterations tokens_used) js h =
      only-update_job id key _ js (λ j. refl)
  only-concerns id (fails key now error) js h = only-update_job id key _ js (λ j. refl)
  only-concerns id (cancels key now) js h = only-update_job id key _ js (λ j. refl)
  only-concerns id (checkpoints key now iterations blob) js h =
      only-update_job id key _ js (λ j. refl)
  only-concerns id (prunes cutoff) js h =
      keep_if-swap (λ j. text_eq j.id id) (λ j. not (prunable cutoff j)) js

  pub only-other :
      (id : Text) (w : Write B) (js : List BgJob)
      → concerns id w ≡ false
      → only id (memory_half w js) ≡ only id js
  unfolding memory_half new_job
  only-other id (inserts key now task name) js h =
      keep_if-append (λ j. text_eq j.id id) js _
      ∙ ap (λ z. only id js ++ z)
          (keep_if-none (λ j. text_eq j.id id) (new_job key now task name ∷ []) (h, tt))
      ∙ append_nil (only id js)
  only-other id (runs key now) js h = only-update-other id key _ js (λ j. refl) h
  only-other id (finishes key now result session_id iterations tokens_used) js h =
      only-update-other id key _ js (λ j. refl) h
  only-other id (fails key now error) js h = only-update-other id key _ js (λ j. refl) h
  only-other id (cancels key now) js h = only-update-other id key _ js (λ j. refl) h
  only-other id (checkpoints key now iterations blob) js h =
      only-update-other id key _ js (λ j. refl) h
  only-other id (prunes cutoff) js h = absurd cc
