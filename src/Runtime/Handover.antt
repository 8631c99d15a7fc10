-- ===== src/Runtime/Handover.antt =====
-- What a handover to the cloud model leaves.
use peko_agent.Base.{
  ℕ, ◌≡◌, refl, sym, ◌∙◌, ap, subst, Bool, true, false, some, List, [], ◌∷◌, length,
}
use peko_agent.Base.Results.{ok}
use peko_agent.Text.{Text}
use peko_agent.Budget.{reset}
use peko_agent.Message.{ToolCall}
use peko_agent.Brain.{cloud}
use peko_agent.Runtime.{Run, continue_with-eq-ok, Agent, Running}
use peko_agent.Runtime.Calls.{
  Intercept, refused, ordinary, handed_over, hand_over, intercept, on_intercept, run_call,
  run_calls,
}
use peko_agent.Runtime.Progress.{ok-pair, SamePace, run_call-SamePace, intercept-handed}

-- The cloud model starts anew: one message, a full budget, and no interrupt pending.
pub record IsRestarted {V : Type 0} (max : ℕ) (t : Running V) : Type 0 where
  pub brain : t.active_brain ≡ some cloud
  pub one_message : length t.conversation ≡ 1
  pub remaining : t.budget.remaining ≡ max
  pub not_interrupted : t.budget.interrupted ≡ false
  pub total : t.total_iterations ≡ 0

module _ {V W : Type 0} (agent : Agent V W) (input session : Text) where
  hand_over-IsRestarted :
      (tc : ToolCall V) (s : Running V)
      → IsRestarted s.budget.max (hand_over agent input session tc s)
  unfolding hand_over reset
  hand_over-IsRestarted tc s = record {
    brain = refl;
    one_message = refl;
    remaining = refl;
    not_interrupted = refl;
    total = refl;
  }

  on_intercept-handover :
      (i : Intercept V) (tc : ToolCall V) (rest : Running V → Run W (Running V × Bool))
      (s t : Running V) (w v : W)
      → ((u : Running V) (w1 : W)
          → SamePace s u
          → rest u w1 ≡ (ok (t, true), v)
          → (s.escalation_count ≡ 0) × IsRestarted s.budget.max t)
      → intercept agent input session tc s ≡ i
      → on_intercept agent input session i tc rest s w ≡ (ok (t, true), v)
      → (s.escalation_count ≡ 0) × IsRestarted s.budget.max t
  on_intercept-handover refused tc rest s t w v f e k =
      f s w (record { remaining = refl; max = refl; total = refl; escalations = refl }) k
  on_intercept-handover (handed_over u) tc rest s t w v f e k =
      let (z, q) = intercept-handed agent input session tc s e in
      (
        z,
        subst (IsRestarted s.budget.max) (q ∙ ap (λ p. p.0) (ok-pair k))
            (hand_over-IsRestarted tc s),
      )
  on_intercept-handover ordinary tc rest s t w v f e k =
      let (u, w1, p, q) = continue_with-eq-ok (run_call agent input session tc s w) rest k in
      f u w1 (run_call-SamePace agent input session tc s w w1 p) q

  -- If the calls of an answer hand the task over, then it was never handed over before, and the
  -- cloud model starts with one message, a full budget, no iteration counted and no interrupt
  -- pending.
  pub run_calls-handover :
      (tcs : List (ToolCall V)) (s t : Running V) (w v : W)
      → run_calls agent input session tcs s w ≡ (ok (t, true), v)
      → (s.escalation_count ≡ 0) × IsRestarted s.budget.max t
  unfolding run_calls
  run_calls-handover [] s t w v h = cc
  run_calls-handover (tc ∷ tcs) s t w v h =
      on_intercept-handover (intercept agent input session tc s) tc
        (run_calls agent input session tcs) s t w v
        (λ u w1 p k.
          let (z, r) = run_calls-handover tcs u t w1 v k in
          (sym p.escalations ∙ z, subst (λ n. IsRestarted n t) p.max r))
        refl h
