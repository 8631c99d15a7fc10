-- ===== src/Background/Restart.antt =====
-- Running jobs and `pending_resumable` of crates/peko-core/src/background.rs.
use peko_agent.Base.{
  ℕ, zero, suc, ◌≡◌, refl, sym, ◌∙◌, ap, subst, arith, Bool, true, false, ◌||◌, Option, none, some,
  List, [], ◌∷◌, ◌++◌, any, get_elem?, inl, inr, Bool-cases, Option-cases,
}
use peko_agent.Text.{Text, text_eq}
use peko_agent.Text.Equality.{text_eq_refl}
use peko_agent.Background.{BgJob, Row, BgStore, get}
use peko_agent.Background.Halves.{catalog_jobs}
use peko_agent.Background.Resuming.{
  Verdict, orphan, resumable, is_running, verdict, resumed, orphaned, resumables, orphans,
  pending_resumable, fail_all-running, fail_all-none,
}

any-append :
    {A : Type 0} (p : A → Bool) (xs ys : List A) → any p (xs ++ ys) ≡ (any p xs || any p ys)
any-append p [] ys = refl
any-append p (x ∷ xs) ys = ground (arith, any-append p xs ys)

get-id : (id : Text) (js : List BgJob) (j : BgJob) → get id js ≡ some j → text_eq j.id id ≡ true
unfolding get
get-id id [] j h = cc
get-id id (k ∷ ks) j h = ground (arith, h, get-id id ks j)

-- A row of an agreeing catalog has its job in memory.
get-catalog :
    {B : Type 0} (rows : List (Row B)) (j : ℕ) {r : Row B}
    → get_elem? rows j ≡ some r
    → (k : BgJob) × (get r.job.id (catalog_jobs rows) ≡ some k)
unfolding get
get-catalog (x ∷ rows) zero {r} h =
    let e : x ≡ r = cc in
    (
      x.job,
      ap (λ r. get r.job.id (catalog_jobs (x ∷ rows))) (sym e) ∙ rw (text_eq_refl x.job.id) refl,
    )
get-catalog (x ∷ rows) (suc j) {r} h = elim (Bool-cases (text_eq x.job.id r.job.id)) [
  | inl e ↦ (x.job, rw (e) refl)
  | inr e ↦ let (k, q) = get-catalog rows j h in (k, rw (e) q)
]
get-catalog [] j h = cc

module _ {B C : Type 0} (decode : B → Option C) (hours cutoff : ℕ) where
  -- A running row is resumed or failed, by its verdict.
  resumed-or-orphaned :
      (v : Verdict C) (o : Option BgJob) (k : BgJob) (id : Text)
      → o ≡ some k
      → text_eq k.id id ≡ true
      → any (λ x. text_eq id x.0) (orphaned decode hours cutoff true v id) ≡ false
      → any (λ p. text_eq p.0.id id) (resumed decode hours cutoff true v o) ≡ true
  resumed-or-orphaned (orphan reason) o k id h q n = let r = text_eq_refl id in ground (arith, r, n)
  resumed-or-orphaned (resumable c) (some j) k id h q n =
      let e : j ≡ k = cc in ap (λ z. text_eq z.id id || false) e ∙ rw (q) refl
  resumed-or-orphaned (resumable c) none k id h q n = cc

  head-resumed :
      (r : Row B) (jobs : List BgJob) (k : BgJob) (os : List (Text × Text)) (rs : List (BgJob × C))
      → is_running r.job.status ≡ true
      → get r.job.id jobs ≡ some k
      → any
          (λ x. text_eq r.job.id x.0)
          (orphaned decode hours cutoff
              (is_running r.job.status)
              (verdict decode hours cutoff r)
              r.job.id
            ++ os)
        ≡ false
      → any
          (λ p. text_eq p.0.id r.job.id)
          (resumed decode hours cutoff
              (is_running r.job.status)
              (verdict decode hours cutoff r)
              (get r.job.id jobs)
            ++ rs)
        ≡ true
  head-resumed r jobs k os rs q g n =
      let v = verdict decode hours cutoff r in
      let m =
        any-append (λ x. text_eq r.job.id x.0)
          (orphaned decode hours cutoff (is_running r.job.status) v r.job.id) os in
      let a : any (λ x. text_eq r.job.id x.0)
            (orphaned decode hours cutoff (is_running r.job.status) v r.job.id)
          ≡ false =
        ground (arith, m, n) in
      let b = resumed-or-orphaned v (get r.job.id jobs) k r.job.id g (get-id r.job.id jobs k g) (
        subst
          (λ z. any (λ x. text_eq r.job.id x.0) (orphaned decode hours cutoff z v r.job.id) ≡ false)
          q a) in
      let c : any (λ p. text_eq p.0.id r.job.id)
            (resumed decode hours cutoff (is_running r.job.status) v (get r.job.id jobs))
          ≡ true =
        subst
          (λ z.
            any (λ p. text_eq p.0.id r.job.id) (resumed decode hours cutoff z v (get r.job.id jobs))
            ≡ true)
          (sym q) b in
      any-append (λ p. text_eq p.0.id r.job.id)
        (resumed decode hours cutoff (is_running r.job.status) v (get r.job.id jobs)) rs
      ∙ ground (arith, c)

  row-resumed :
      (rows : List (Row B)) (jobs : List BgJob) (j : ℕ) (r : Row B) (k : BgJob)
      → get_elem? rows j ≡ some r
      → is_running r.job.status ≡ true
      → get r.job.id jobs ≡ some k
      → any (λ x. text_eq r.job.id x.0) (orphans decode hours cutoff rows) ≡ false
      → any (λ p. text_eq p.0.id r.job.id) (resumables decode hours cutoff rows jobs) ≡ true
  unfolding orphans resumables
  row-resumed (x ∷ rows) jobs zero r k h q g n =
      let e : r ≡ x = cc in
      subst
        (λ y.
          any (λ z. text_eq r.job.id z.0)
              (orphaned decode hours cutoff (is_running y.job.status)
                  (verdict decode hours cutoff y) y.job.id
                ++ orphans decode hours cutoff rows)
            ≡ false
          → any (λ p. text_eq p.0.id r.job.id)
              (resumed decode hours cutoff (is_running y.job.status) (verdict decode hours cutoff y)
                  (get y.job.id jobs)
                ++ resumables decode hours cutoff rows jobs)
            ≡ true)
        e (λ m. head-resumed r jobs k _ _ q g m) n
  row-resumed (x ∷ rows) jobs (suc j) r k h q g n =
      let m =
        any-append (λ z. text_eq r.job.id z.0)
          (orphaned decode hours cutoff (is_running x.job.status) (verdict decode hours cutoff x)
            x.job.id)
          (orphans decode hours cutoff rows) in
      let ih = row-resumed rows jobs j r k h q g (ground (arith, m, n)) in
      any-append (λ p. text_eq p.0.id r.job.id)
        (resumed decode hours cutoff (is_running x.job.status) (verdict decode hours cutoff x)
          (get x.job.id jobs))
        (resumables decode hours cutoff rows jobs)
      ∙ ground (arith, ih)
  row-resumed [] jobs j r k h q g n = cc

  module _ (today : ℕ → Text) (now : ℕ) where
    -- When memory and catalog agree, every row that still counts as running after a restart was
    -- handled is among the jobs that are returned to be resumed.
    pub pending_resumable-running :
        (s : BgStore B) (j : ℕ) (t : Row B)
        → catalog_jobs s.rows ≡ s.jobs
        → get_elem? (pending_resumable decode hours cutoff today now s).0.rows j ≡ some t
        → is_running t.job.status ≡ true
        → any (λ p. text_eq p.0.id t.job.id) (pending_resumable decode hours cutoff today now s).1
          ≡ true
    unfolding pending_resumable
    pending_resumable-running s j t a h q = elim (Option-cases (get_elem? s.rows j)) [
      | inl e ↦
          let f =
            fail_all-none decode hours cutoff today now (orphans decode hours cutoff s.rows) s j
              e in
          cc
      | inr (r, e) ↦
          let (n, f) =
            fail_all-running decode hours cutoff today now (orphans decode hours cutoff s.rows) s j
              r t e h q in
          let (k, g) = get-catalog s.rows j e in
          subst
            (λ z.
              any (λ p. text_eq p.0.id z.job.id) (resumables decode hours cutoff s.rows s.jobs)
              ≡ true)
            (sym f)
            (row-resumed s.rows s.jobs j r k e (ap (λ z. is_running z.job.status) (sym f) ∙ q)
              (ap (λ js. get r.job.id js) (sym a) ∙ g) n)
    ]
