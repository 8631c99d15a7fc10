-- ===== src/Scheduler/Firing.antt =====
-- The runs of a task of crates/peko-core/src/scheduler.rs over a sequence of checks.
use peko_agent.Base.{
  ℕ, zero, suc, ◌+◌, ◌%◌, ◌≡◌, refl, sym, ◌∙◌, ap, subst, arith, Bool, false, Option, none, some,
  List, [], ◌∷◌, ◌++◌, ◌⊎◌, inl, inr, get_elem?, All,
}
use mathlib.Core.Option
use peko_agent.Base.Results.{Result, err}
use peko_agent.Text.{Text, text}
use peko_agent.Text.Equality.{text_eq_refl}
use peko_agent.Cron.{CronExpr, parse}
use peko_agent.Cron.Field.{CronError}
use peko_agent.Runtime.{AgentResponse}
use peko_agent.Scheduler.{
  u64_mod, ScheduledTask, Clock, due, check_and_run, checks, new, registered,
}
use peko_agent.Scheduler.Checks.{MayRun, check_and_run-MayRun}

-- Not run yet, or run once and marked with the minute.
unfoldable pub RanOnce : Text → ScheduledTask → Option ScheduledTask → Type 0
RanOnce key t o =
    (o ≡ some t)
    ⊎ ((u : ScheduledTask) × (u.run_count ≡ (t.run_count + 1) % u64_mod)
        × (u.last_run ≡ some key)
        × (o ≡ some u))

get-new :
    (describe_error : CronError → Text) (tasks : List ScheduledTask) (j : ℕ) {t : ScheduledTask}
    → get_elem? tasks j ≡ some t
    → (get_elem? (new describe_error tasks).0 j
        ≡ some (registered describe_error t (parse t.cron)).0)
      × (get_elem? (new describe_error tasks).1 j
          ≡ some (registered describe_error t (parse t.cron)).1)
unfolding new
get-new d (s ∷ ts) zero h =
    let e : s ≡ _ = cc in
    subst
      (λ t.
        (some (registered d s (parse s.cron)).0 ≡ some (registered d t (parse t.cron)).0)
        × (some (registered d s (parse s.cron)).1 ≡ some (registered d t (parse t.cron)).1))
      e (refl, refl)
get-new d (s ∷ ts) (suc j) h = get-new d ts j h
get-new d [] j h = cc

module _ {W : Type 0} (sender : Bool) (send : Text → W → W)
    (execute : Text → W → Result AgentResponse Text × W) where
  -- A task that is marked with the minute is not due in it.
  due-marked :
      (clock : Clock) (c : Option CronExpr) (t : ScheduledTask)
      → t.last_run ≡ some clock.key
      → due clock c t ≡ false
  unfolding due
  due-marked clock none t h = refl
  due-marked clock (some c) t h = rw (h, text_eq_refl clock.key) (ground arith)

  check_and_run-RanOnce :
      (key : Text) (k : Clock) (cs : List (Option CronExpr)) (ts : List ScheduledTask) (w : W)
      (j : ℕ) (t : ScheduledTask) {c : Option CronExpr} {us : List ScheduledTask} {v : W}
      → k.key ≡ key
      → get_elem? cs j ≡ some c
      → RanOnce key t (get_elem? ts j)
      → check_and_run sender send execute k cs ts w ≡ some (us, v)
      → RanOnce key t (get_elem? us j)
  unfolding RanOnce MayRun
  check_and_run-RanOnce key k cs ts w j t q hc (inl e) h =
      elim (check_and_run-MayRun sender send execute k cs ts w j hc e h) [
        | inl f ↦ inl f
        | inr (u, d, m, f) ↦ inr (u, m.count, m.last ∙ ap (λ z. some z) q, f)
      ]
  check_and_run-RanOnce key k cs ts w j t {c} q hc (inr (u, n, l, e)) h =
      elim (check_and_run-MayRun sender send execute k cs ts w j hc e h) [
        | inl f ↦ inr (u, n, l, f)
        | inr (u', d, m, f) ↦ let off = due-marked k c u (l ∙ ap (λ z. some z) (sym q)) in cc
      ]

  checks-RanOnce :
      (key : Text) (ks : List Clock) (cs : List (Option CronExpr)) (ts : List ScheduledTask) (w : W)
      (j : ℕ) (t : ScheduledTask) {c : Option CronExpr} {us : List ScheduledTask} {v : W}
      → All (λ k. k.key ≡ key) ks
      → get_elem? cs j ≡ some c
      → RanOnce key t (get_elem? ts j)
      → checks sender send execute ks cs ts w ≡ some (us, v)
      → RanOnce key t (get_elem? us j)
  unfolding checks
  checks-RanOnce key [] cs ts w j t a hc r h = subst (λ z. RanOnce key t (get_elem? z j)) (cc) r
  checks-RanOnce key (k ∷ ks) cs ts w j t a hc r h =
      let ((vs, x), p, e) = (Option.bind-eq-some_iff _ _).0 h in
      checks-RanOnce key ks cs vs x j t a.1 hc (check_and_run-RanOnce key k cs ts w j t a.0 hc r p)
        e

  -- Checks in the same minute run a task at most once: it is as before, or its run count is one
  -- higher, modulo 2^64, and it is marked with the minute.
  pub checks-same_minute :
      (key : Text) (ks : List Clock) (cs : List (Option CronExpr)) (ts : List ScheduledTask) (w : W)
      (j : ℕ) {c : Option CronExpr} {t : ScheduledTask} {us : List ScheduledTask} {v : W}
      → All (λ k. k.key ≡ key) ks
      → get_elem? cs j ≡ some c
      → get_elem? ts j ≡ some t
      → checks sender send execute ks cs ts w ≡ some (us, v)
      → RanOnce key t (get_elem? us j)
  unfolding RanOnce
  checks-same_minute key ks cs ts w j {c} {t} a hc ht h =
      checks-RanOnce key ks cs ts w j t a hc (inl ht) h

  checks-none :
      (ks : List Clock) (cs : List (Option CronExpr)) (ts : List ScheduledTask) (w : W) (j : ℕ)
      {t : ScheduledTask} {us : List ScheduledTask} {v : W}
      → get_elem? cs j ≡ some none
      → get_elem? ts j ≡ some t
      → checks sender send execute ks cs ts w ≡ some (us, v)
      → get_elem? us j ≡ some t
  unfolding checks MayRun due
  checks-none [] cs ts w j hc ht h = ap (λ z. get_elem? z j) (cc) ∙ ht
  checks-none (k ∷ ks) cs ts w j hc ht h =
      let ((vs, x), p, e) = (Option.bind-eq-some_iff _ _).0 h in
      checks-none ks cs vs x j hc
        (elim (check_and_run-MayRun sender send execute k cs ts w j hc ht p) [
          | inl f ↦ f
          | inr (u, d, m, f) ↦ cc
        ])
        e

  -- A task whose expression does not parse is switched off with the error, and no sequence of
  -- checks runs it or changes it.
  pub checks-invalid :
      (describe_error : CronError → Text) (tasks : List ScheduledTask) (ks : List Clock) (w : W)
      (j : ℕ) {t : ScheduledTask} {e : CronError} {us : List ScheduledTask} {v : W}
      → get_elem? tasks j ≡ some t
      → parse t.cron ≡ err e
      → checks sender send execute ks (new describe_error tasks).1 (new describe_error tasks).0 w
        ≡ some (us, v)
      → get_elem? us j
        ≡ some (record t {
          enabled = false;
          last_error = some (text "invalid cron '" ++ (t.cron ++ (text "': " ++ describe_error e)));
        })
  checks-invalid describe_error tasks ks w j {t} ht he h =
      let (p, q) = get-new describe_error tasks j ht in
      checks-none ks _ _ w j (q ∙ ap (λ r. some (registered describe_error t r).1) he)
        (p ∙ ap (λ r. some (registered describe_error t r).0) he) h
