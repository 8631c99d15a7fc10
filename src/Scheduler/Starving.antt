-- ===== src/Scheduler/Starving.antt =====
-- Tasks of crates/peko-core/src/scheduler.rs that share their times.
use peko_agent.Base.{
  ◌≡◌, refl, sym, ◌∙◌, ap, arith, Bool, true, false, Option, some, List, [], ◌∷◌, inl, inr,
  get_elem?, All,
}
use mathlib.Core.Option
use peko_agent.Base.Results.{Result}
use peko_agent.Text.{Text, text_eq}
use peko_agent.Cron.{CronExpr}
use peko_agent.Runtime.{AgentResponse}
use peko_agent.Scheduler.{ScheduledTask, Clock, ran_at, due, checked, run, check_and_run, checks}
use peko_agent.Scheduler.Checks.{MayRun, check_and_run-MayRun}

-- No two of the readings are in the same minute.
unfoldable pub AreDistinct : List Clock → Type 0
AreDistinct [] = Unit {0}
AreDistinct (k ∷ ks) = All (λ l. text_eq k.key l.key ≡ false) ks × AreDistinct ks

-- The task has not run in any of the minutes.
unfoldable pub IsFresh : Option Text → List Clock → Type 0
IsFresh last ks = All (λ k. ran_at last k.key ≡ false) ks

-- An enabled task in front.
pub record IsAhead (ks : List Clock) (o : Option ScheduledTask) : Type 0 where
  pub task : ScheduledTask
  pub there : o ≡ some task
  pub enabled : task.enabled ≡ true
  pub fresh : IsFresh task.last_run ks

module _ {W : Type 0} (sender : Bool) (send : Text → W → W)
    (execute : Text → W → Result AgentResponse Text × W) (c : CronExpr)
    (cs : List (Option CronExpr)) where
  due-together :
      (k : Clock) (a b : ScheduledTask)
      → a.enabled ≡ true
      → ran_at a.last_run k.key ≡ false
      → due k (some c) b ≡ true
      → due k (some c) a ≡ true
  unfolding due
  due-together k a b e f h = ground (arith, e, f)

  kept :
      (b : Bool) (k : Clock) (t s : ScheduledTask) (ts : List ScheduledTask) (w : W)
      (rest : Option (List ScheduledTask × W)) {us : List ScheduledTask} {v : W}
      → b ≡ true
      → checked sender send execute b (run sender send execute k t w) rest t (s ∷ ts) ≡ some (us, v)
      → get_elem? us 1 ≡ some s
  kept true k t s ts w rest q h =
      let (_, _, e) = (Option.map-eq-some_iff _ _).0 h in ap (λ z. get_elem? z.0 1) (sym e)
  kept false k t s ts w rest q h = cc

  first-keeps_second :
      (k : Clock) (ts : List ScheduledTask) (w : W) {a s : ScheduledTask} {us : List ScheduledTask}
      {v : W}
      → get_elem? ts 0 ≡ some a
      → get_elem? ts 1 ≡ some s
      → due k (some c) a ≡ true
      → check_and_run sender send execute k (some c ∷ some c ∷ cs) ts w ≡ some (us, v)
      → get_elem? us 1 ≡ some s
  unfolding check_and_run
  first-keeps_second k (t ∷ s ∷ ts) w {a} ha hs d h =
      let e : a ≡ t = cc in
      kept (due k (some c) t) k t s ts w _ (ap (λ z. due k (some c) z) (sym e) ∙ d) h ∙ hs
  first-keeps_second k (t ∷ []) w ha hs d h = cc
  first-keeps_second k [] w ha hs d h = cc

  check-starves :
      (k : Clock) (ks : List Clock) (ts : List ScheduledTask) (w : W) {s : ScheduledTask}
      {us : List ScheduledTask} {v : W}
      → AreDistinct (k ∷ ks)
      → IsAhead (k ∷ ks) (get_elem? ts 0)
      → get_elem? ts 1 ≡ some s
      → check_and_run sender send execute k (some c ∷ some c ∷ cs) ts w ≡ some (us, v)
      → IsAhead ks (get_elem? us 0) × (get_elem? us 1 ≡ some s)
  unfolding AreDistinct IsFresh MayRun
  check-starves k ks ts w ds a hs h = (
    elim (check_and_run-MayRun sender send execute k _ ts w 0 refl a.there h) [
      | inl e ↦ record { task = a.task; there = e; enabled = a.enabled; fresh = a.fresh.1 }
      | inr (u, d, m, e) ↦ record {
        task = u;
        there = e;
        enabled = m.enabled ∙ a.enabled;
        fresh = rw (m.last) ds.0;
      }
    ],
    elim (check_and_run-MayRun sender send execute k _ ts w 1 refl hs h) [
      | inl e ↦ e
      | inr (u, d, m, e) ↦
          first-keeps_second k ts w a.there hs (due-together k a.task _ a.enabled a.fresh.0 d) h
    ],
  )

  -- If the first task is enabled and has not run in any of the minutes, and the second has the same
  -- expression, then the second never runs, however many minutes, no two the same, the scheduler
  -- checks.
  pub checks-starves :
      (ks : List Clock) (ts : List ScheduledTask) (w : W) {s : ScheduledTask}
      {us : List ScheduledTask} {v : W}
      → AreDistinct ks
      → IsAhead ks (get_elem? ts 0)
      → get_elem? ts 1 ≡ some s
      → checks sender send execute ks (some c ∷ some c ∷ cs) ts w ≡ some (us, v)
      → get_elem? us 1 ≡ some s
  unfolding checks AreDistinct
  checks-starves [] ts w ds a hs h = ap (λ z. get_elem? z 1) (cc) ∙ hs
  checks-starves (k ∷ ks) ts w ds a hs h =
      let ((vs, x), p, e) = (Option.bind-eq-some_iff _ _).0 h in
      let (a', hs') = check-starves k ks ts w ds a hs p in checks-starves ks vs x ds.1 a' hs' e
