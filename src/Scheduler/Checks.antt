-- ===== src/Scheduler/Checks.antt =====
-- One check of crates/peko-core/src/scheduler.rs, task by task.
use peko_agent.Base.{
  ℕ, zero, suc, ◌+◌, ◌%◌, ◌≡◌, refl, sym, ◌∙◌, ap, subst, Bool, true, false, Option, some, List, [],
  ◌∷◌, ◌⊎◌, inl, inr, get_elem?,
}
use mathlib.Core.Option
use peko_agent.Base.Results.{Result, ok, err}
use peko_agent.Text.{Text}
use peko_agent.Cron.{CronExpr}
use peko_agent.Runtime.{AgentResponse}
use peko_agent.Scheduler.{
  u64_mod, ScheduledTask, Clock, due, marked, checked, recorded, run, check_and_run,
}

-- A run marks its task.
pub record IsMarked (clock : Clock) (t u : ScheduledTask) : Type 0 where
  pub count : u.run_count ≡ (t.run_count + 1) % u64_mod
  pub last : u.last_run ≡ some clock.key
  pub enabled : u.enabled ≡ t.enabled

-- The task is as before, or it was due and ran.
unfoldable pub MayRun : Clock → Option CronExpr → ScheduledTask → Option ScheduledTask → Type 0
MayRun clock c t o =
    (o ≡ some t)
    ⊎ ((u : ScheduledTask) × (due clock c t ≡ true) × IsMarked clock t u × (o ≡ some u))

module _ {W : Type 0} (sender : Bool) (send : Text → W → W)
    (execute : Text → W → Result AgentResponse Text × W) where
  recorded-eq-some :
      (t : ScheduledTask) (r : Result AgentResponse Text × W) {u : ScheduledTask} {v : W}
      → recorded sender send execute t r ≡ some (u, v)
      → (u.run_count ≡ t.run_count) × (u.last_run ≡ t.last_run) × (u.enabled ≡ t.enabled)
  recorded-eq-some t (ok r, w) h =
      let (_, _, e) = (Option.map-eq-some_iff _ _).0 h in
      (
        ap (λ p. p.0.run_count) (sym e),
        ap (λ p. p.0.last_run) (sym e),
        ap (λ p. p.0.enabled) (sym e),
      )
  recorded-eq-some t (err e, w) h =
      let (_, _, e) = (Option.map-eq-some_iff _ _).0 h in
      (
        ap (λ p. p.0.run_count) (sym e),
        ap (λ p. p.0.last_run) (sym e),
        ap (λ p. p.0.enabled) (sym e),
      )

  pub run-IsMarked :
      (clock : Clock) (t : ScheduledTask) (w : W) {u : ScheduledTask} {v : W}
      → run sender send execute clock t w ≡ some (u, v)
      → IsMarked clock t u
  unfolding run
  run-IsMarked clock t w h =
      let (c, l, e) = recorded-eq-some (marked clock t) (execute t.task w) h in
      record { count = c; last = l; enabled = e }

  checked-here :
      (b : Bool) (clock : Clock) (c : Option CronExpr) (s : ScheduledTask) (w : W)
      (rest : Option (List ScheduledTask × W)) (ts : List ScheduledTask) {us : List ScheduledTask}
      {v : W}
      → due clock c s ≡ b
      → checked sender send execute b (run sender send execute clock s w) rest s ts ≡ some (us, v)
      → MayRun clock c s (get_elem? us 0)
  unfolding MayRun
  checked-here true clock c s w rest ts q h =
      let ((u, x), p, e) = (Option.map-eq-some_iff _ _).0 h in
      inr (u, q, run-IsMarked clock s w p, ap (λ z. get_elem? z.0 0) (sym e))
  checked-here false clock c s w rest ts q h =
      let ((u, x), p, e) = (Option.map-eq-some_iff _ _).0 h in
      inl (ap (λ z. get_elem? z.0 0) (sym e))

  checked-there :
      (b : Bool) (clock : Clock) (d : Option CronExpr) (s t : ScheduledTask)
      (ran : Option (ScheduledTask × W)) (rest : Option (List ScheduledTask × W))
      (ts : List ScheduledTask) (j : ℕ) {us : List ScheduledTask} {v : W}
      → get_elem? ts j ≡ some t
      → ((vs : List ScheduledTask) (x : W)
          → rest ≡ some (vs, x)
          → MayRun clock d t (get_elem? vs j))
      → checked sender send execute b ran rest s ts ≡ some (us, v)
      → MayRun clock d t (get_elem? us (suc j))
  unfolding MayRun
  checked-there true clock d s t ran rest ts j q f h =
      let ((u, x), p, e) = (Option.map-eq-some_iff _ _).0 h in
      inl (ap (λ z. get_elem? z.0 (suc j)) (sym e) ∙ q)
  checked-there false clock d s t ran rest ts j q f h =
      let ((vs, x), p, e) = (Option.map-eq-some_iff _ _).0 h in
      subst (λ z. MayRun clock d t (get_elem? z.0 (suc j))) e (f vs x p)

  -- A check leaves the task at `j` as it is, or the task was due and ran.
  pub check_and_run-MayRun :
      (clock : Clock) (cs : List (Option CronExpr)) (ts : List ScheduledTask) (w : W) (j : ℕ)
      {c : Option CronExpr} {t : ScheduledTask} {us : List ScheduledTask} {v : W}
      → get_elem? cs j ≡ some c
      → get_elem? ts j ≡ some t
      → check_and_run sender send execute clock cs ts w ≡ some (us, v)
      → MayRun clock c t (get_elem? us j)
  unfolding check_and_run
  check_and_run-MayRun clock (d ∷ cs) (s ∷ ts) w zero {c} {t} {us} hc ht h =
      let e1 : d ≡ c = cc in
      let e2 : s ≡ t = cc in
      subst (λ x. MayRun clock x t (get_elem? us 0)) e1
        (subst (λ y. MayRun clock d y (get_elem? us 0)) e2
          (checked-here (due clock d s) clock d s w
            (check_and_run sender send execute clock cs ts w) ts refl h))
  check_and_run-MayRun clock (d ∷ cs) (s ∷ ts) w (suc j) {c} {t} hc ht h =
      checked-there (due clock d s) clock c s t (run sender send execute clock s w)
        (check_and_run sender send execute clock cs ts w) ts j ht
        (λ vs x. check_and_run-MayRun clock cs ts w j hc ht) h
  check_and_run-MayRun clock [] ts w j hc ht h = cc
  check_and_run-MayRun clock (d ∷ cs) [] w j hc ht h = cc
