-- ===== src/Runtime/Answers.antt =====
-- Which tool calls of an answer the conversation gets a result for.
use peko_agent.Base.{
  ◌≡◌, refl, sym, ◌∙◌, ap, subst, arith, Bool, true, false, not, ◌||◌, Option, none, some, List, [],
  ◌∷◌, ◌++◌, map, all, keep_if, leb, if◌then◌else◌,
}
use mathlib.Core.List.{append-nil, append_assoc}
use peko_agent.Base.Results.{ok}
use peko_agent.Text.{Text, text_eq}
use peko_agent.Message.{ToolCall, Message, system, user, assistant, tool_result}
use peko_agent.Runtime.{continue_with-eq-ok, Agent, Running, poll}
use peko_agent.Runtime.Calls.{
  refused, ordinary, intercept, on_intercept, run_call, call_result, run_calls, result_message,
  escalate_tool_name,
}
use peko_agent.Runtime.Progress.{ok-pair, SamePace, run_call-SamePace, store_result-eq-ok}

module _ {V : Type 0} where
  abbrev pub answered_id : Message V → Option Text
  answered_id (tool_result id name content e image) = some id
  answered_id (system t) = none
  answered_id (user t) = none
  answered_id (assistant t calls) = none

  abbrev pub is_escalate : ToolCall V → Bool
  is_escalate tc = text_eq tc.name escalate_tool_name

  -- The conversation grew by one result for each of the ids, in order.
  pub record IsAnswered (s t : Running V) (ids : List Text) : Type 0 where
    pub added : List (Message V)
    pub grows : t.conversation ≡ s.conversation ++ added
    pub results : map answered_id added ≡ map (λ i. some i) ids

  abbrev pub answered_calls : List (ToolCall V) → List (ToolCall V)
  answered_calls tcs = keep_if (λ tc. not (is_escalate tc)) tcs

  -- Every call is refused or runs a tool: the cap is reached, or the call is not `escalate`.
  abbrev pub stays : Running V → ToolCall V → Bool
  stays s tc = leb 1 s.escalation_count || not (is_escalate tc)

IsAnswered-refl : {V : Type 0} (s : Running V) → IsAnswered s s []
IsAnswered-refl s = record { added = []; grows = sym (append-nil s.conversation); results = refl }

IsAnswered-trans :
    {V : Type 0} {s t u : Running V} {i : Text} (ids : List Text) (m : Message V)
    → t.conversation ≡ s.conversation ++ (m ∷ [])
    → answered_id m ≡ some i
    → IsAnswered t u ids
    → IsAnswered s u (i ∷ ids)
IsAnswered-trans {s = s} ids m e q a = record {
  added = m ∷ a.added;
  grows = a.grows ∙ (ap (λ z. z ++ a.added) e ∙ append_assoc s.conversation (m ∷ []) a.added);
  results = rw (q, a.results) refl;
}

module _ {V W : Type 0} (agent : Agent V W) (input session : Text) where
  poll-conversation : (s : Running V) (w : W) → (poll agent s w).0.conversation ≡ s.conversation
  unfolding poll
  poll-conversation s w = refl

  run_call-added :
      (tc : ToolCall V) (s : Running V) (w v : W) {t : Running V}
      → run_call agent input session tc s w ≡ (ok t, v)
      → t.conversation
        ≡ s.conversation
          ++ (result_message agent input session tc (call_result agent input session tc w).0 ∷ [])
  unfolding run_call
  run_call-added tc s w v h =
      let r = call_result agent input session tc w in
      let (u, e) = store_result-eq-ok agent input session tc s r.0 r.1 v h in
      let s1 : Running V = record s {
        conversation = s.conversation ++ (result_message agent input session tc r.0 ∷ []);
      } in
      ap (λ z. z.conversation) e ∙ poll-conversation s1 u

  intercept-stays :
      (tc : ToolCall V) (s : Running V)
      → stays s tc ≡ true
      → intercept agent input session tc s ≡ (if is_escalate tc then refused else ordinary)
  unfolding intercept
  intercept-stays tc s h = ground arith

  stays-pace :
      (tcs : List (ToolCall V)) {s t : Running V}
      → SamePace s t
      → all (stays s) tcs ≡ true
      → all (stays t) tcs ≡ true
  stays-pace tcs p h = rw (p.escalations) h

  abbrev ids : List (ToolCall V) → List Text
  ids tcs = map (λ tc. tc.id) (answered_calls tcs)

  ids_cons :
      (b : Bool) (tc : ToolCall V) (tcs : List (ToolCall V))
      → is_escalate tc ≡ b
      → ids (tc ∷ tcs) ≡ (if b then ids tcs else tc.id ∷ ids tcs)
  ids_cons true tc tcs q = ground arith
  ids_cons false tc tcs q = ground arith

  -- One call, where `f` speaks of the calls behind it.
  on_intercept-answers :
      (b : Bool) (tc : ToolCall V) (tcs : List (ToolCall V)) (s t : Running V) (handed : Bool)
      (w v : W)
      → is_escalate tc ≡ b
      → ((u : Running V) (w1 : W)
          → SamePace s u
          → run_calls agent input session tcs u w1 ≡ (ok (t, handed), v)
          → (handed ≡ false) × IsAnswered u t (ids tcs))
      → on_intercept agent input session
          (if b then refused else ordinary)
          tc
          (run_calls agent input session tcs)
          s
          w
        ≡ (ok (t, handed), v)
      → (handed ≡ false) × IsAnswered s t (ids (tc ∷ tcs))
  unfolding result_message
  on_intercept-answers true tc tcs s t handed w v q f e =
      subst (λ z. (handed ≡ false) × IsAnswered s t z) (sym (ids_cons true tc tcs q))
        (f s w (record { remaining = refl; max = refl; total = refl; escalations = refl }) e)
  on_intercept-answers false tc tcs s t handed w v q f e =
      let (u, w1, p, k) =
        continue_with-eq-ok (run_call agent input session tc s w)
          (run_calls agent input session tcs) e in
      let (z, a) = f u w1 (run_call-SamePace agent input session tc s w w1 p) k in
      (
        z,
        subst (IsAnswered s t) (sym (ids_cons false tc tcs q)) (
            IsAnswered-trans (ids tcs)
              (result_message agent input session tc (call_result agent input session tc w).0)
              (run_call-added tc s w w1 p) refl a),
      )

  -- If the task cannot be handed over during the calls of an answer, because the cap is reached or
  -- no call asks for it, and the calls are carried out without an error of the session, then each
  -- call but `escalate` adds one result with its id, in order, and `escalate` adds none.
  pub run_calls-answers :
      (tcs : List (ToolCall V)) (s t : Running V) (handed : Bool) (w v : W)
      → all (stays s) tcs ≡ true
      → run_calls agent input session tcs s w ≡ (ok (t, handed), v)
      → (handed ≡ false) × IsAnswered s t (map (λ tc. tc.id) (answered_calls tcs))
  unfolding run_calls
  run_calls-answers [] s t handed w v h e =
      let q = ok-pair e in
      (ap (λ z. z.1) (sym q), subst (λ z. IsAnswered s z []) (ap (λ z. z.0) q) (IsAnswered-refl s))
  run_calls-answers (tc ∷ tcs) s t handed w v h e =
      let (h1, h2) : (stays s tc ≡ true) × (all (stays s) tcs ≡ true) = ground arith in
      on_intercept-answers (is_escalate tc) tc tcs s t handed w v refl
        (λ u w1 p k. run_calls-answers tcs u t handed w1 v (stays-pace tcs p h2) k)
        (subst
          (λ i.
            on_intercept agent input session i tc (run_calls agent input session tcs) s w
            ≡ (ok (t, handed), v))
          (intercept-stays tc s h1) e)
