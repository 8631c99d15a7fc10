-- ===== src/Runtime/Progress.antt =====
-- What one round of the loop does to its counters.
use peko_agent.Base.{
  ◌+◌, ◌≡◌, refl, sym, ◌∙◌, ap, subst, arith, Bool, true, false, Option, none, some, List, [], ◌∷◌,
  ◌++◌, inl, inr, Bool-cases, if◌then◌else◌,
}
use peko_agent.Base.Results.{Result, ok}
use peko_agent.Text.{Text}
use peko_agent.Budget.{interrupt, reset}
use peko_agent.Message.{ToolCall}
use peko_agent.Brain.{DualBrain}
use peko_agent.Tools.{ToolResult}
use peko_agent.Runtime.{Run, continue_with-eq-ok, Agent, Running, poll}
use peko_agent.Runtime.Calls.{
  Intercept, refused, ordinary, handed_over, hand_over, escalation, intercept, on_intercept,
  run_call, append_result, store_result, result_message, call_result, run_calls,
}

-- The counters are the same.
pub record SamePace {V : Type 0} (s t : Running V) : Type 0 where
  pub remaining : t.budget.remaining ≡ s.budget.remaining
  pub max : t.budget.max ≡ s.budget.max
  pub total : t.total_iterations ≡ s.total_iterations
  pub escalations : t.escalation_count ≡ s.escalation_count

-- The task was handed over for the first time, with a new budget.
pub record IsHandover {V : Type 0} (s t : Running V) : Type 0 where
  pub first : s.escalation_count ≡ 0
  pub once : t.escalation_count ≡ 1
  pub remaining : t.budget.remaining ≡ s.budget.max
  pub max : t.budget.max ≡ s.budget.max
  pub total : t.total_iterations ≡ 0

unfoldable pub Paced : {V : Type 0} → Running V → Running V × Bool → Type 0
Paced s (t, false) = SamePace s t
Paced s (t, true) = IsHandover s t

SamePace-trans : {V : Type 0} {s t u : Running V} → SamePace s t → SamePace t u → SamePace s u
SamePace-trans p q = record {
  remaining = q.remaining ∙ p.remaining;
  max = q.max ∙ p.max;
  total = q.total ∙ p.total;
  escalations = q.escalations ∙ p.escalations;
}

Paced-trans :
    {V : Type 0} {s t : Running V} (r : Running V × Bool) → SamePace s t → Paced t r → Paced s r
unfolding Paced
Paced-trans (u, false) p q = SamePace-trans p q
Paced-trans (u, true) p q = record {
  first = sym p.escalations ∙ q.first;
  once = q.once;
  remaining = q.remaining ∙ p.max;
  max = q.max ∙ p.max;
  total = q.total;
}

pub ok-pair :
    {A W : Type 0} {a b : A} {w v : W} → ◌≡◌ {A = Result A Text × W} (ok a, w) (ok b, v) → a ≡ b
ok-pair h = cc

module _ {V W : Type 0} (agent : Agent V W) where
  pub poll-SamePace : (s : Running V) (w : W) → SamePace s (poll agent s w).0
  unfolding poll interrupt
  poll-SamePace s w = elim (Bool-cases (agent.take_signal w).0) [
    | inl e ↦ rw (e) (record { remaining = refl; max = refl; total = refl; escalations = refl })
    | inr e ↦ rw (e) (record { remaining = refl; max = refl; total = refl; escalations = refl })
  ]

  module _ (input session : Text) where
    -- What a stored result leaves: the conversation with its message, and a last look at the signal.
    pub store_result-eq-ok :
        (tc : ToolCall V) (s : Running V) (r : ToolResult) (w v : W) {t : Running V}
        → store_result agent input session tc s r w ≡ (ok t, v)
        → (u : W) × (t
            ≡ (poll agent
                (record s {
                  conversation = s.conversation ++ (result_message agent input session tc r ∷ []);
                })
                u).0)
    unfolding store_result
    store_result-eq-ok tc s r w v h =
        let (_, u, _, e) =
          continue_with-eq-ok
            (append_result agent input session tc r r.image
              (if r.is_error then w else agent.record_tool_use tc.name w))
            _ h in
        (u, cc)

    pub run_call-SamePace :
        (tc : ToolCall V) (s : Running V) (w v : W) {t : Running V}
        → run_call agent input session tc s w ≡ (ok t, v)
        → SamePace s t
    unfolding run_call
    run_call-SamePace tc s w v h =
        let r = call_result agent input session tc w in
        let (u, e) = store_result-eq-ok tc s r.0 r.1 v h in
        subst (SamePace s) (sym e) (
          SamePace-trans (record { remaining = refl; max = refl; total = refl; escalations = refl })
            (poll-SamePace _ u))

    escalation-eq :
        (b : Option DualBrain) (tc : ToolCall V) (s : Running V) {t : Running V}
        → escalation agent input session b tc s ≡ handed_over t
        → hand_over agent input session tc s ≡ t
    escalation-eq none tc s h = cc
    escalation-eq (some b) tc s h = cc

    pub intercept-handed :
        (tc : ToolCall V) (s : Running V) {t : Running V}
        → intercept agent input session tc s ≡ handed_over t
        → (s.escalation_count ≡ 0) × (hand_over agent input session tc s ≡ t)
    unfolding intercept
    intercept-handed tc s {t} h =
        let (p, q) : (s.escalation_count ≡ 0)
            × (escalation agent input session agent.brain tc s ≡ handed_over t) =
          ground arith in
        (p, escalation-eq agent.brain tc s q)

    intercept-IsHandover :
        (tc : ToolCall V) (s : Running V) {t : Running V}
        → intercept agent input session tc s ≡ handed_over t
        → IsHandover s t
    unfolding hand_over reset
    intercept-IsHandover tc s h =
        let (p, e) = intercept-handed tc s h in
        subst (IsHandover s) e (record {
          first = p;
          once = ap (λ n. n + 1) p;
          remaining = refl;
          max = refl;
          total = refl;
        })

    on_intercept-Paced :
        (i : Intercept V) (tc : ToolCall V) (rest : Running V → Run W (Running V × Bool))
        (s : Running V) (w v : W) {r : Running V × Bool}
        → ((t : Running V) (u : W) → rest t u ≡ (ok r, v) → Paced t r)
        → intercept agent input session tc s ≡ i
        → on_intercept agent input session i tc rest s w ≡ (ok r, v)
        → Paced s r
    unfolding Paced
    on_intercept-Paced refused tc rest s w v f e k = f s w k
    on_intercept-Paced (handed_over t) tc rest s w v f e k =
        subst (Paced s) (ok-pair k) (intercept-IsHandover tc s e)
    on_intercept-Paced ordinary tc rest s w v {r} f e k =
        let (t, u, p, q) = continue_with-eq-ok (run_call agent input session tc s w) rest k in
        Paced-trans r (run_call-SamePace tc s w u p) (f t u q)

    -- The calls of an answer leave the counters as they are, or hand the task over once.
    pub run_calls-Paced :
        (tcs : List (ToolCall V)) (s : Running V) (w v : W) {r : Running V × Bool}
        → run_calls agent input session tcs s w ≡ (ok r, v)
        → Paced s r
    unfolding run_calls Paced
    run_calls-Paced [] s w v {r} h =
        subst (Paced s) (ok-pair h)
          (record { remaining = refl; max = refl; total = refl; escalations = refl })
    run_calls-Paced (tc ∷ tcs) s w v h =
        on_intercept-Paced (intercept agent input session tc s) tc
          (run_calls agent input session tcs) s w v (λ t u. run_calls-Paced tcs t u v) refl h
