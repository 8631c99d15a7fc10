-- ===== src/Turn/Failing.antt =====
-- What `run_turn` of crates/peko-core/src/runtime.rs does with a request that fails.
use peko_agent.Base.{
  ℕ, suc, ◌+◌, ◌<◌, ◌≡◌, refl, sym, ◌∙◌, ap, subst, arith, false, Option, List, [], ◌∷◌, ◌++◌,
}
use peko_agent.Base.Results.{Result, ok, err}
use peko_agent.Text.{Text, text}
use peko_agent.Budget.{IterationBudget, reset, should_stop}
use peko_agent.Message.{Message, user}
use peko_agent.Stream.{StreamEvent}
use peko_agent.Compressor.{check_and_compress}
use peko_agent.Brain.{BrainChoice}
use peko_agent.Runtime.{Agent}
use peko_agent.Runtime.Rounds.{offers_escalation, provider_of}
use peko_agent.Turn.{Turning, kept, send, failure, finish, turn_prompt}
use peko_agent.Turn.Rounds.{
  Next, stop, responded, replied, status, after_round, begun, ended, Provider, poll, ask, round,
  unless_stopped, respond, rounds, turn_on, label,
}

module _ {V W : Type 0} (agent : Agent V W) (input session : Text) where
  module _ (stream : Provider V W) (active : Option BrainChoice) where
    -- The state in which the first request of a turn is made.
    abbrev pub first : IterationBudget → List (Message V) → Turning V
    first budget conversation = record {
      budget = reset budget;
      conversation = conversation ++ (user input ∷ []);
      total_iterations = 0;
      final_text = [];
      sent = [];
    }

    abbrev pub prompted :
        IterationBudget → List (Message V) → W → Result (List (Result StreamEvent Text)) Text × W
    prompted budget conversation w =
        stream (provider_of agent.brain active) (turn_prompt agent input session active 0 w)
          (check_and_compress agent.render agent.compressor (conversation ++ (user input ∷ []))).0
          (offers_escalation agent.brain active) w

    -- The conversation as the request is made of it, with the failure sent.
    abbrev pub after_failure : IterationBudget → List (Message V) → Text → Turning V
    after_failure budget conversation error =
        send (failure (text "LLM error: " ++ error)) (record (first budget conversation) {
          conversation =
              (check_and_compress agent.render agent.compressor
                (conversation ++ (user input ∷ []))).0;
        })

    poll-quiet :
        (s : Turning V) (w : W)
        → agent.take_signal w ≡ (false, w)
        → poll agent stream active input session s w ≡ (s, w)
    unfolding poll
    poll-quiet s w q = rw (q) refl

    round-failed :
        (budget : IterationBudget) (conversation : List (Message V)) (error : Text) (w w2 : W)
        → 0 < budget.max
        → agent.take_signal w ≡ (false, w)
        → prompted budget conversation w ≡ (err error, w2)
        → round agent stream active input session (first budget conversation, w)
          ≡ (ok stop, (after_failure budget conversation error, w2))
    unfolding round ask reset should_stop
    round-failed budget conversation error w w2 h n p =
        let s0 = first budget conversation in
        let u : Turning V = record s0 {
          conversation =
              (check_and_compress agent.render agent.compressor
                (conversation ++ (user input ∷ []))).0;
        } in
        let end : Result Next Text × (Turning V × W) =
          (ok stop, (after_failure budget conversation error, w2)) in
        let going : should_stop s0.budget ≡ false = ground arith in
        subst
          (λ z. unless_stopped agent stream active input session (should_stop z.0.budget) z ≡ end)
          (sym (poll-quiet s0 w n))
          (subst (λ b. unless_stopped agent stream active input session b (s0, w) ≡ end) (sym going)
            (subst (λ z. replied agent stream active input session (kept u z) ≡ end) (sym p) refl))

    respond-quiet :
        (s : Turning V) (w w3 : W)
        → s.budget.interrupted ≡ false
        → agent.take_signal w ≡ (false, w)
        → agent.update_status session (text "completed") s.total_iterations w ≡ (ok tt, w3)
        → respond agent stream active input session s w
          ≡ responded agent stream active input session s (ok tt, w3)
    unfolding respond
    respond-quiet s w w3 i n u =
        let named : status agent stream active input session s ≡ text "completed" = rw (i) refl in
        subst
          (λ z.
            responded agent stream active input session z.0 (
              agent.update_status session (status agent stream active input session z.0)
                z.0.total_iterations z.1)
            ≡ responded agent stream active input session s (ok tt, w3))
          (sym (poll-quiet s w n))
          (ap (responded agent stream active input session s)
            (ap (λ t. agent.update_status session t s.total_iterations w) named ∙ u))

    rounds_succ :
        (n : ℕ) (s : Turning V) (w : W)
        → rounds agent stream active input session (n + 1) s w
          ≡ after_round agent stream active input session
              (rounds agent stream active input session n)
              (round agent stream active input session (s, w))
    unfolding rounds
    rounds_succ n s w =
        let e : suc n ≡ n + 1 = omega arith in
        subst
          (λ k.
            rounds agent stream active input session k s w
            ≡ after_round agent stream active input session
                (rounds agent stream active input session n)
                (round agent stream active input session (s, w)))
          e refl

    -- A turn whose first request fails, with no interrupt and no error of the session, is marked as
    -- completed and ends with a response: an empty text, after no iteration.
    pub turn_on-failed :
        (budget : IterationBudget) (conversation : List (Message V)) (error : Text) (w w1 w2 w3 : W)
        → 0 < budget.max
        → agent.append_message session (user input) w ≡ (ok tt, w1)
        → ((v : W) → agent.take_signal v ≡ (false, v))
        → prompted budget conversation w1 ≡ (err error, w2)
        → agent.update_status session (text "completed") 0 w2 ≡ (ok tt, w3)
        → (s : Turning V) × (turn_on agent stream active input session budget conversation w
            ≡ ended
                (ok (record { response_text = []; iterations = 0; session_id = session }))
                s
                (agent.record_task input 0 w3))
          × (s.sent
              ≡ failure (text "LLM error: " ++ error)
                ∷ finish 0 session (label agent stream active input session active)
                ∷ [])
    unfolding turn_on reset
    turn_on-failed budget conversation error w w1 w2 w3 h a n p u =
        let end = after_failure budget conversation error in
        (
          send (finish 0 session (label agent stream active input session active)) end,
          ap (begun agent stream active input session (budget.max + 1) (first budget conversation))
                a
              ∙ (rounds_succ budget.max (first budget conversation) w1
                  ∙ (ap
                        (after_round agent stream active input session
                          (rounds agent stream active input session budget.max))
                        (round-failed budget conversation error w1 w2 h (n w1) p)
                      ∙ respond-quiet end w2 w3 refl (n w2) u)),
          refl,
        )
