-- ===== src/Runtime/Ends.antt =====
-- The outcomes of `run_task` of crates/peko-core/src/runtime.rs, and its fuel.
use peko_agent.Base.{ℕ, zero, suc, ◌+◌, ◌≤◌, ◌<◌, ◌≡◌, refl, arith, Option, none, some, List}
use peko_agent.Base.Results.{Result, ok, err}
use peko_agent.Text.{Text}
use peko_agent.Budget.{usize_mod, IterationBudget, reset}
use peko_agent.Message.{Message}
use peko_agent.Brain.{BrainChoice}
use peko_agent.Runtime.{Done, Agent, Running}
use peko_agent.Runtime.Rounds.{
  Step, stop, again, Outcome, finished, panicked, out_of_fuel, round, rounds, after_round, respond,
  responded, status, task_fuel, ResumeState, or_fail, started, begin_with, chosen, after_choice,
  append_all, run_task,
}
use peko_agent.Runtime.Limits.{IsWithin, left, StepWithin}
use peko_agent.Runtime.Termination.{round-Within}

-- An outcome that is not cut off by the fuel, and reports at most `n` iterations.
unfoldable pub EndsWithin : {W : Type 0} → ℕ → Outcome W → Type 0
EndsWithin n (finished (ok r) w) = r.iterations ≤ n
EndsWithin n (finished (err e) w) = Unit {0}
EndsWithin n panicked = Unit {0}
EndsWithin n out_of_fuel = ⊥

module _ {V W : Type 0} (agent : Agent V W) where
  module _ (max limit : ℕ) (input session : Text) where
    responded-EndsWithin :
        (s : Running V) (r : Result Done Text × W)
        → s.total_iterations ≤ limit
        → EndsWithin limit (responded agent input session s r)
    unfolding EndsWithin
    responded-EndsWithin s (ok d, w) h = h
    responded-EndsWithin s (err e, w) h = tt

    after_round-EndsWithin :
        (s : Running V) (rest : Running V → W → Outcome W) (r : Result (Step V) Text × W)
        → ((st : Step V) (v : W) → r ≡ (ok st, v) → StepWithin max limit s st)
        → ((t : Running V) (v : W)
            → IsWithin max limit t
            → left max t < left max s
            → EndsWithin limit (rest t v))
        → EndsWithin limit (after_round agent input session rest r)
    unfolding EndsWithin StepWithin respond
    after_round-EndsWithin s rest (ok (stop t), w) f g =
        responded-EndsWithin t
          (agent.update_status session (status agent input session t) t.total_iterations w)
          (f (stop t) w refl)
    after_round-EndsWithin s rest (ok (again t), w) f g =
        let (i, h) = f (again t) w refl in g t w i h
    after_round-EndsWithin s rest (err e, w) f g = tt

    rounds-EndsWithin :
        (fuel : ℕ) (s : Running V) (w : W)
        → IsWithin max limit s
        → left max s < fuel
        → EndsWithin limit (rounds agent input session fuel s w)
    unfolding rounds EndsWithin
    rounds-EndsWithin zero s w i h = omega arith
    rounds-EndsWithin (suc fuel) s w i h =
        after_round-EndsWithin s (rounds agent input session fuel) (round agent input session s w)
          (λ st v. round-Within max limit agent input session s w v i)
          (λ t v j k. rounds-EndsWithin fuel t v j (omega arith))

  or_fail-EndsWithin :
      (n : ℕ) {A : Type 0} (r : Result A Text × W) (f : A → W → Outcome W)
      → ((a : A) (w : W) → EndsWithin n (f a w))
      → EndsWithin n (or_fail agent r f)
  unfolding EndsWithin
  or_fail-EndsWithin n (ok a, w) f g = g a w
  or_fail-EndsWithin n (err e, w) f g = tt

  begin_with-EndsWithin :
      (budget : IterationBudget) (active : Option BrainChoice) (conversation : List (Message V))
      (n : ℕ) (input session : Text) (w : W)
      → budget.max < usize_mod
      → EndsWithin (n + budget.max) (begin_with agent budget active conversation n input session w)
  unfolding reset left
  begin_with-EndsWithin budget active conversation n input session w h =
      rounds-EndsWithin budget.max (n + budget.max) input session (task_fuel budget.max) _ w
        (record {
          budget_max = refl;
          word = h;
          remaining = omega arith;
          escalations = omega arith;
          total = omega arith;
          room = omega arith;
        })
        (omega arith)

  -- The iterations that a task starts with.
  abbrev pub start : Option (ResumeState V) → ℕ
  start none = 0
  start (some r) = r.iterations

  started-EndsWithin :
      (budget : IterationBudget) (active : Option BrainChoice) (resume : Option (ResumeState V))
      (input : Text) (w : W)
      → budget.max < usize_mod
      → EndsWithin (start resume + budget.max) (started agent budget active resume input w)
  started-EndsWithin budget active none input w h =
      or_fail-EndsWithin (0 + budget.max) (agent.create_session input w) _ (λ session v.
        or_fail-EndsWithin (0 + budget.max) (append_all agent session _ v) _
          (λ _ u. begin_with-EndsWithin budget active _ 0 input session u h))
  started-EndsWithin budget active (some r) input w h =
      or_fail-EndsWithin _ (agent.create_session r.original_task w) _ (λ session v.
        or_fail-EndsWithin _ (append_all agent session r.messages v) _ (λ _ u.
          begin_with-EndsWithin budget active r.messages r.iterations r.original_task session u h))

  after_choice-EndsWithin :
      (budget : IterationBudget) (resume : Option (ResumeState V)) (input : Text) (w : W)
      (o : Option (Option BrainChoice))
      → budget.max < usize_mod
      → EndsWithin (start resume + budget.max) (after_choice agent budget resume input w o)
  unfolding EndsWithin
  after_choice-EndsWithin budget resume input w none h = tt
  after_choice-EndsWithin budget resume input w (some active) h =
      started-EndsWithin budget active resume input w h

  -- For every model, tool set and store, a task on a budget of fewer than 2^64 iterations ends
  -- within the fuel of two rounds for each iteration and two more, by a response, an error or the
  -- panic of the choice of a model, and a response reports at most the iterations it started with
  -- and the budget.
  pub run_task-EndsWithin :
      (budget : IterationBudget) (active : Option BrainChoice) (resume : Option (ResumeState V))
      (input : Text) (w : W)
      → budget.max < usize_mod
      → EndsWithin (start resume + budget.max) (run_task agent budget active resume input w)
  unfolding run_task
  run_task-EndsWithin budget active resume input w h =
      after_choice-EndsWithin budget resume input w (chosen agent agent.brain active input w) h
