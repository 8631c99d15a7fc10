-- ===== src/Runtime/Termination.antt =====
-- One round of the loop of crates/peko-core/src/runtime.rs, from its counters' point of view.
use peko_agent.Base.{ℕ, ◌<◌, ◌≡◌, refl, subst, arith, Bool, true, false, List, [], ◌∷◌, ◌++◌}
use peko_agent.Base.Results.{ok}
use peko_agent.Text.{Text}
use peko_agent.Budget.{should_stop}
use peko_agent.Compressor.{check_and_compress}
use peko_agent.Stream.{StreamEvent, Gathered, gather, answer}
use peko_agent.Runtime.{continue_with-eq-ok, Agent, Running, poll}
use peko_agent.Runtime.Prompt.{build_prompt}
use peko_agent.Runtime.Calls.{parse_tool_input, run_calls}
use peko_agent.Runtime.Rounds.{
  Step, round, ask, receive, act, end_round, decided, unless_stopped, is_final, offers_escalation,
  provider_of,
}
use peko_agent.Runtime.Progress.{SamePace, Paced, poll-SamePace, run_calls-Paced, ok-pair}
use peko_agent.Runtime.Limits.{
  IsWithin, StepWithin, SamePace-IsWithin, StepWithin-pace, IsHandover-Within, spent-Within,
}

module _ (max limit : ℕ) {V W : Type 0} (agent : Agent V W) (input session : Text) where
  end_round-Within :
      (prompt : Text) (s : Running V) (r : Running V × Bool) (w v : W) {st : Step V}
      → IsWithin max limit s
      → 0 < s.budget.remaining
      → Paced s r
      → end_round agent input session prompt r w ≡ (ok st, v)
      → StepWithin max limit s st
  unfolding end_round Paced
  end_round-Within prompt s (t, true) w v i h p e =
      subst (StepWithin max limit s) (ok-pair e) (IsHandover-Within max limit s t i h p)
  end_round-Within prompt s (t, false) w v i h p e =
      subst (StepWithin max limit s) (ok-pair e) (spent-Within max limit s t i h p)

  decided-Within :
      (final : Bool) (prompt : Text) (g : Gathered V) (s : Running V) (w v : W) {st : Step V}
      → IsWithin max limit s
      → 0 < s.budget.remaining
      → decided agent input session final prompt g s w ≡ (ok st, v)
      → StepWithin max limit s st
  unfolding StepWithin
  decided-Within true prompt g s w v i h e =
      subst (StepWithin max limit s) (ok-pair e) (omega (arith, i.total))
  decided-Within false prompt g s w v i h e =
      let (r, u, p, f) =
        continue_with-eq-ok (run_calls agent input session g.tool_calls s w)
          (end_round agent input session prompt) e in
      end_round-Within prompt s r u v i h (run_calls-Paced agent input session g.tool_calls s w u p)
        f

  receive-Within :
      (prompt : Text) (s : Running V) (events : List StreamEvent) (w v : W) {st : Step V}
      → IsWithin max limit s
      → 0 < s.budget.remaining
      → receive agent input session prompt s events w ≡ (ok st, v)
      → StepWithin max limit s st
  unfolding receive act
  receive-Within prompt s events w v {st} i h e =
      let g = gather (parse_tool_input agent.json) events in
      let p = poll-SamePace agent s w in
      let t : Running V = record (poll agent s w).0 {
        conversation = (poll agent s w).0.conversation ++ (answer g ∷ []);
      } in
      let q : SamePace s t = record {
        remaining = p.remaining;
        max = p.max;
        total = p.total;
        escalations = p.escalations;
      } in
      let (_, u, _, f) =
        continue_with-eq-ok (agent.append_message session (answer g) (poll agent s w).1)
          (λ _. act agent input session prompt g t) e in
      StepWithin-pace max limit st q (
        decided-Within (is_final g) prompt g t u v (SamePace-IsWithin max limit q i)
          (omega (arith, h, q.remaining)) f)

  ask-Within :
      (s : Running V) (w v : W) {st : Step V}
      → IsWithin max limit s
      → 0 < s.budget.remaining
      → ask agent input session s w ≡ (ok st, v)
      → StepWithin max limit s st
  unfolding ask
  ask-Within s w v {st} i h e =
      let shorter = (check_and_compress agent.render agent.compressor s.conversation).0 in
      let prompt = build_prompt agent input s.total_iterations w in
      let t : Running V = record s { conversation = shorter } in
      let q : SamePace s t = record {
        remaining = refl;
        max = refl;
        total = refl;
        escalations = refl;
      } in
      let (events, u, _, f) =
        continue_with-eq-ok
          (agent.stream_completion (provider_of agent.brain s.active_brain) prompt shorter
            (offers_escalation agent.brain s.active_brain) w)
          (receive agent input session prompt t) e in
      StepWithin-pace max limit st q
        (receive-Within prompt t events u v (SamePace-IsWithin max limit q i) h f)

  unless_stopped-Within :
      (s : Running V) (w v : W) {st : Step V} (b : Bool)
      → IsWithin max limit s
      → should_stop s.budget ≡ b
      → unless_stopped agent input session b s w ≡ (ok st, v)
      → StepWithin max limit s st
  unfolding StepWithin should_stop
  unless_stopped-Within s w v true i q e =
      subst (StepWithin max limit s) (ok-pair e) (omega (arith, i.total))
  unless_stopped-Within s w v false i q e = ask-Within s w v i (ground arith) e

  -- A round ends the loop within the limit, or goes on with fewer rounds left.
  pub round-Within :
      (s : Running V) (w v : W) {st : Step V}
      → IsWithin max limit s
      → round agent input session s w ≡ (ok st, v)
      → StepWithin max limit s st
  unfolding round
  round-Within s w v {st} i e =
      let p = poll-SamePace agent s w in
      let (t, u) = poll agent s w in
      StepWithin-pace max limit st p (
        unless_stopped-Within t u v (should_stop t.budget) (SamePace-IsWithin max limit p i) refl e)
