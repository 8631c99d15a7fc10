-- ===== src/Background/Catalog.antt =====
-- The store of crates/peko-core/src/background.rs as a state machine of concurrent operations: each
-- changes the jobs in memory under one lock, and the catalog later, under another.
--
-- The state holds the statements that have not reached the catalog. Those for one job reach it in the
-- order of their changes in memory; those for different jobs in any order.
use peko_agent.Base.{
  ℕ, ◌≡◌, refl, sym, ◌∙◌, ap, false, some, List, [], ◌∷◌, ◌++◌, All, All-map, inl, inr, Bool-cases,
  keep_if,
}
use peko_agent.Text.{Text}
use peko_agent.Background.{is_terminal, BgJob, BgStore, get}
use peko_agent.Background.Writes.{
  Write, inserts, runs, finishes, fails, cancels, checkpoints, prunes, memory_half, catalog_half,
  in_memory, in_catalog, write_job,
}
use peko_agent.Background.Operations.{bump_metric}
use peko_agent.Background.Halves.{
  keep_if-append, keep_if-none, keep_if-one, keep_if-kept, keep_if-dropped, append_nil,
  catalog_jobs, catalog_half-jobs, only, get-only, concerns, Apart, apply_all, apply_all-append,
  only-concerns, only-other,
}

pub record Pending (B : Type 0) : Type 0 where
  pub store : BgStore B
  pub waiting : List (Write B)

abbrev pub at_start : {B : Type 0} → Pending B
at_start = record { store = record { jobs = []; rows = []; stats = [] }; waiting = [] }

-- Only a job that has not ended is cancelled.
abbrev pub IsAllowed : {B : Type 0} → Write B → List BgJob → Type 0
IsAllowed (cancels id now) js = (j : BgJob) × (get id js ≡ some j) × (is_terminal j.status ≡ false)
IsAllowed (inserts id now task name) js = Unit
IsAllowed (runs id now) js = Unit
IsAllowed (finishes id now result session_id iterations tokens_used) js = Unit
IsAllowed (fails id now error) js = Unit
IsAllowed (checkpoints id now iterations blob) js = Unit
IsAllowed (prunes cutoff) js = Unit

pub data Step {B : Type 0} (today : ℕ → Text) (s : Pending B) : Pending B → Type 0 where
  begins :
      (w : Write B)
      → IsAllowed w s.store.jobs
      → Step today s (record { store = in_memory w s.store; waiting = s.waiting ++ (w ∷ []) })
  lands :
      (before : List (Write B)) (w : Write B) (after : List (Write B))
      → s.waiting ≡ before ++ (w ∷ after)
      → All (Apart w) before
      → Step today s (record { store = in_catalog w s.store; waiting = before ++ after })
  counts :
      (now : ℕ) (metric : Text) (n : ℕ)
      → Step today s (record s { store = bump_metric today now metric n s.store })

pub data IsReachable {B : Type 0} (today : ℕ → Text) : Pending B → Type 0 where
  starts : IsReachable today at_start
  steps : {s t : Pending B} → IsReachable today s → Step today s t → IsReachable today t

module _ {B : Type 0} (today : ℕ → Text) where
  -- What the waiting statements make of the catalog's jobs of an id is what memory has of it.
  abbrev pub Settles : Text → Pending B → Type 0
  Settles id s =
      apply_all (keep_if (concerns id) s.waiting) (only id (catalog_jobs s.store.rows))
      ≡ only id s.store.jobs

  begins-Settles :
      (id : Text) (s : Pending B) (w : Write B)
      → Settles id s
      → Settles id (record { store = in_memory w s.store; waiting = s.waiting ++ (w ∷ []) })
  unfolding in_memory
  begins-Settles id s w h =
      let mine = only id (catalog_jobs s.store.rows) in
      let p = concerns id in
      ap (λ z. apply_all z mine) (keep_if-append p s.waiting (w ∷ []))
      ∙ elim (Bool-cases (concerns id w)) [
        | inl e ↦
            ap (λ z. apply_all (keep_if p s.waiting ++ z) mine) (keep_if-one p w e)
            ∙ apply_all-append (keep_if p s.waiting) w mine
            ∙ ap (memory_half w) h
            ∙ sym (only-concerns id w s.store.jobs e)
        | inr e ↦
            ap (λ z. apply_all (keep_if p s.waiting ++ z) mine) (keep_if-none p (w ∷ []) (e, tt))
            ∙ ap (λ z. apply_all z mine) (append_nil (keep_if p s.waiting))
            ∙ h
            ∙ sym (only-other id w s.store.jobs e)
      ]

  lands-Settles :
      (id : Text) (s : Pending B) (before : List (Write B)) (w : Write B) (after : List (Write B))
      → s.waiting ≡ before ++ (w ∷ after)
      → All (Apart w) before
      → Settles id s
      → Settles id (record { store = in_catalog w s.store; waiting = before ++ after })
  unfolding in_catalog
  lands-Settles id s before w after q apart h =
      let rows = s.store.rows in
      let p = concerns id in
      let split : keep_if p s.waiting ≡ keep_if p before ++ keep_if p (w ∷ after) =
        ap (keep_if p) q ∙ keep_if-append p before (w ∷ after) in
      let joined = keep_if-append p before after in
      elim (Bool-cases (concerns id w)) [
        | inl e ↦
            let none_before : keep_if p before ≡ [] =
              keep_if-none p before
                (All-map (Apart w) (λ v. p v ≡ false) before (λ v a. a id e) apart) in
            ap (λ z. apply_all z (only id (catalog_jobs (catalog_half w rows))))
              (joined ∙ ap (λ z. z ++ keep_if p after) none_before)
            ∙ ap (apply_all (keep_if p after))
                (ap (only id) (catalog_half-jobs w rows) ∙ only-concerns id w (catalog_jobs rows) e)
            ∙ sym (
                ap (λ z. apply_all z (only id (catalog_jobs rows)))
                  (split
                    ∙ ap (λ z. z ++ keep_if p (w ∷ after)) none_before
                    ∙ keep_if-kept p w after e))
            ∙ h
        | inr e ↦
            ap (λ z. apply_all (keep_if p (before ++ after)) z)
              (ap (only id) (catalog_half-jobs w rows) ∙ only-other id w (catalog_jobs rows) e)
            ∙ ap (λ z. apply_all z (only id (catalog_jobs rows)))
                (joined
                  ∙ ap (λ z. keep_if p before ++ z) (sym (keep_if-dropped p w after e))
                  ∙ sym split)
            ∙ h
      ]

  IsReachable-Settles : {s : Pending B} → IsReachable today s → (id : Text) → Settles id s
  unfolding bump_metric
  IsReachable-Settles starts id = refl
  IsReachable-Settles (steps {s} r (begins w a)) id =
      begins-Settles id s w (IsReachable-Settles r id)
  IsReachable-Settles (steps {s} r (lands before w after q a)) id =
      lands-Settles id s before w after q a (IsReachable-Settles r id)
  IsReachable-Settles (steps {s} r (counts now metric n)) id = IsReachable-Settles r id

  -- An operation that nothing comes between is its two steps, so what the operations do one after
  -- the other is among the runs.
  pub write_job-IsReachable :
      (w : Write B) (s : BgStore B)
      → IsAllowed w s.jobs
      → IsReachable today (record { store = s; waiting = [] })
      → IsReachable today (record { store = write_job w s; waiting = [] })
  unfolding write_job
  write_job-IsReachable w s a r = steps (steps r (begins w a)) (lands [] w [] refl tt)

  -- However operations run at the same time, as long as the statements about one job reach the
  -- catalog in the order of their changes in memory: if no statement about a job waits for the
  -- catalog, then the catalog's row of the job holds what memory holds of it, and has none if
  -- memory has none.
  pub IsReachable-agrees :
      {s : Pending B} (id : Text)
      → IsReachable today s
      → All (λ w. concerns id w ≡ false) s.waiting
      → get id (catalog_jobs s.store.rows) ≡ get id s.store.jobs
  IsReachable-agrees {s} id r h = get-only id (catalog_jobs s.store.rows) s.store.jobs (
      ap (λ z. apply_all z (only id (catalog_jobs s.store.rows)))
        (sym (keep_if-none (concerns id) s.waiting h))
      ∙ IsReachable-Settles r id)
