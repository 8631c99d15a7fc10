-- ===== src/Background/Resuming.antt =====
-- `pending_resumable` of crates/peko-core/src/background.rs: what becomes of the jobs that were
-- running when the process ended. `decode` reads a checkpoint's bytes; `hours` are those of the
-- window, which ends at `cutoff`.
use peko_agent.Base.{
  ℕ, zero, suc, ◌≡◌, refl, ◌∙◌, ap, Bool, true, false, Option, none, some, List, [], ◌∷◌, ◌++◌, any,
  get_elem?, ltb, inl, inr, Bool-cases, if◌then◌else◌,
}
use peko_agent.Text.{Text, text, text_eq}
use peko_agent.Text.Number.{to_string}
use peko_agent.Background.{
  BgStatus, queued, running, done, failed, cancelled, BgJob, Row, BgStore, get, update_row,
}
use peko_agent.Background.Writes.{write_job, set_failed}
use peko_agent.Background.Operations.{bump_metric, mark_failed}

pub data Verdict (C : Type 0) : Type 0 where
  orphan : (reason : Text) → Verdict C
  resumable : C → Verdict C

abbrev pub is_running : BgStatus → Bool
is_running running = true
is_running queued = false
is_running done = false
is_running failed = false
is_running cancelled = false

-- A checkpoint without a time is too old.
abbrev pub too_old : ℕ → Option ℕ → Bool
too_old cutoff none = true
too_old cutoff (some t) = ltb t cutoff

module _ {B C : Type 0} (decode : B → Option C) (hours cutoff : ℕ) where
  abbrev pub decoded : Option C → Verdict C
  decoded none = orphan (text "checkpoint decode failed (schema drift?)")
  decoded (some c) = resumable c

  abbrev pub judged : Option B → Option ℕ → Verdict C
  judged none at = orphan (text "no checkpoint written before restart")
  judged (some blob) at =
      if too_old cutoff at
      then orphan (text "checkpoint older than " ++ (to_string hours ++ text " hours"))
      else decoded (decode blob)

  unfoldable pub verdict : Row B → Verdict C
  verdict r = judged r.blob r.checkpoint_at

  -- What one row adds to the jobs that are resumed, and to those that are not.
  abbrev pub resumed : Bool → Verdict C → Option BgJob → List (BgJob × C)
  resumed true (resumable c) (some j) = (j, c) ∷ []
  resumed _ _ _ = []

  abbrev pub orphaned : Bool → Verdict C → Text → List (Text × Text)
  orphaned true (orphan reason) id = (id, reason) ∷ []
  orphaned _ _ id = []

  unfoldable pub resumables : List (Row B) → List BgJob → List (BgJob × C)
  unfolding verdict
  resumables [] jobs = []
  resumables (r ∷ rs) jobs =
      resumed (is_running r.job.status) (verdict r) (get r.job.id jobs) ++ resumables rs jobs

  unfoldable pub orphans : List (Row B) → List (Text × Text)
  unfolding verdict
  orphans [] = []
  orphans (r ∷ rs) = orphaned (is_running r.job.status) (verdict r) r.job.id ++ orphans rs

  module _ (today : ℕ → Text) (now : ℕ) where
    unfoldable pub fail_all : List (Text × Text) → BgStore B → BgStore B
    fail_all [] s = s
    fail_all ((id, reason) ∷ os) s =
        fail_all os (mark_failed today id now reason (bump_metric today now (text "orphaned") 1 s))

    unfoldable pub pending_resumable : BgStore B → BgStore B × List (BgJob × C)
    unfolding resumables orphans fail_all
    pending_resumable s = (fail_all (orphans s.rows) s, resumables s.rows s.jobs)

    get-update_row :
        (id : Text) (f : Row B → Row B) (rows : List (Row B)) (j : ℕ) {r : Row B}
        → get_elem? rows j ≡ some r
        → get_elem? (update_row id f rows) j ≡ some (if text_eq r.job.id id then f r else r)
    unfolding update_row
    get-update_row id f (x ∷ rows) zero h =
        let e : x ≡ _ = cc in ap (λ r. some (if text_eq r.job.id id then f r else r)) e
    get-update_row id f (x ∷ rows) (suc j) h = get-update_row id f rows j h
    get-update_row id f [] j h = cc

    -- A row that still runs after the orphans were failed is no orphan, and is as it was.
    pub fail_all-running :
        (os : List (Text × Text)) (s : BgStore B) (j : ℕ) (r t : Row B)
        → get_elem? s.rows j ≡ some r
        → get_elem? (fail_all os s).rows j ≡ some t
        → is_running t.job.status ≡ true
        → (any (λ o. text_eq r.job.id o.0) os ≡ false) × (t ≡ r)
    unfolding fail_all mark_failed write_job bump_metric
    fail_all-running [] s j r t h k q = (refl, cc)
    fail_all-running ((id, reason) ∷ os) s j r t h k q =
        let s1 = mark_failed today id now reason (bump_metric today now (text "orphaned") 1 s) in
        let g = get-update_row id (set_failed now reason) s.rows j h in
        elim (Bool-cases (text_eq r.job.id id)) [
          | inl e ↦
              let (_, f) =
                fail_all-running os s1 j (set_failed now reason r) t (g ∙ rw (e) refl) k q in
              let z : is_running t.job.status ≡ false = ap (λ x. is_running x.job.status) f in cc
          | inr e ↦ let (n, f) = fail_all-running os s1 j r t (g ∙ rw (e) refl) k q in (rw (e) n, f)
        ]

    update_row-none :
        (id : Text) (f : Row B → Row B) (rows : List (Row B)) (j : ℕ)
        → get_elem? rows j ≡ none
        → get_elem? (update_row id f rows) j ≡ none
    unfolding update_row
    update_row-none id f (x ∷ rows) zero h = cc
    update_row-none id f (x ∷ rows) (suc j) h = update_row-none id f rows j h
    update_row-none id f [] j h = refl

    pub fail_all-none :
        (os : List (Text × Text)) (s : BgStore B) (j : ℕ)
        → get_elem? s.rows j ≡ none
        → get_elem? (fail_all os s).rows j ≡ none
    unfolding fail_all mark_failed write_job bump_metric
    fail_all-none [] s j h = h
    fail_all-none ((id, reason) ∷ os) s j h =
        fail_all-none os
          (mark_failed today id now reason (bump_metric today now (text "orphaned") 1 s)) j
          (update_row-none id (set_failed now reason) s.rows j h)
