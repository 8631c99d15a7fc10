-- ===== src/Turn/Rounds.antt =====
-- The rounds of `run_turn` of crates/peko-core/src/runtime.rs.
--
-- `stream` is the provider's answer: an error, or events of which each may be an error. The flag of an
-- interrupt is read when a round begins and when the loop is over, which are the places that look at
-- it.

use peko_agent.Base.{
  ℕ, zero, suc, ◌+◌, Bool, true, false, Option, none, some, List, [], ◌∷◌, ◌++◌, if◌then◌else◌,
}
use peko_agent.Base.Results.{Result, ok, err}
use peko_agent.Text.{Text, text}
use peko_agent.Budget.{IterationBudget, BudgetExhausted, decrement, interrupt, reset, should_stop}
use peko_agent.Message.{Message, user}
use peko_agent.Compressor.{check_and_compress}
use peko_agent.Stream.{StreamEvent, Gathered, nothing_yet, answer}
use peko_agent.Brain.{BrainChoice, local, cloud}
use peko_agent.Runtime.{Run, Done, ◌>>=◌, Agent, AgentResponse}
use peko_agent.Runtime.Rounds.{is_final, offers_escalation, provider_of, chosen}
use peko_agent.Turn.{
  StreamCallback, finish, failure, Turning, Turn, kept, outside, send, stream_events, closed,
  turn_calls, turn_prompt,
}

-- `break`, and the end of the body.
pub data Next : Type 0 where
  stop again : Next

pub data Outcome (V W : Type 0) : Type 0 where
  ended : Result AgentResponse Text → Turning V → W → Outcome V W
  panicked out_of_fuel : Outcome V W

abbrev pub brain_name : BrainChoice → Text
brain_name local = text "local"
brain_name cloud = text "cloud"

-- The provider's answer to a request.
abbrev pub Provider : Type 0 → Type 0 → Type 0
Provider V W =
    Option BrainChoice
    → (prompt : Text) → List (Message V)
    → (offer_escalation : Bool) → Run W (List (Result StreamEvent Text))

abbrev pub flagged : {V W : Type 0} → Turning V → Bool × W → Turning V × W
flagged s (b, w) = (record s { budget = if b then interrupt s.budget else s.budget }, w)

-- `budget.decrement`
abbrev pub spent :
    {V W : Type 0}
    → Turning V
    → IterationBudget × Result ℕ BudgetExhausted
    → W
    → Result Next Text × (Turning V × W)
spent s (b, ok n) w = (ok again, (record s { budget = b }, w))
spent s (b, err e) w = (ok stop, (record s { budget = b }, w))

module _ {V W : Type 0} (agent : Agent V W) (stream : Provider V W) (active : Option BrainChoice)
    (input session : Text) where
  unfoldable pub poll : Turning V → W → Turning V × W
  poll s w = flagged s (agent.take_signal w)

  unfoldable pub end_round : Turn V W Next
  end_round (s, w) =
      let t : Turning V = record s { total_iterations = s.total_iterations + 1 } in
      spent t (decrement t.budget) w

  abbrev pub decided : Bool → Gathered V → Turn V W Next
  decided true g (s, w) = (
    ok stop,
    (record s { final_text = g.text_buffer; total_iterations = s.total_iterations + 1 }, w),
  )
  decided false g (s, w) = (turn_calls agent input session g.tool_calls >>= λ _. end_round) (s, w)

  unfoldable pub act : Gathered V → Turn V W Next
  unfolding is_final end_round
  act g = decided (is_final g) g

  -- The answer joins the conversation, and the session keeps it.
  abbrev pub heard : Gathered V × List StreamCallback → Turning V → Turning V
  heard (g, sent) s = record s {
    conversation = s.conversation ++ (answer (closed agent.json g) ∷ []);
    sent = sent;
  }

  unfoldable pub receive : List (Result StreamEvent Text) → Turn V W Next
  unfolding act stream_events
  receive events (s, w) =
      let g = stream_events agent.json events nothing_yet s.sent in
      (outside (agent.append_message session (answer (closed agent.json g.0))) >>= λ _.
      act (closed agent.json g.0))
        (heard g s, w)

  -- A request that fails is shown to the client, and ends the loop.
  abbrev pub replied :
      Result (List (Result StreamEvent Text)) Text × (Turning V × W)
      → Result Next Text × (Turning V × W)
  replied (ok events, (s, w)) = receive events (s, w)
  replied (err e, (s, w)) = (ok stop, (send (failure (text "LLM error: " ++ e)) s, w))

  unfoldable pub ask : Turn V W Next
  unfolding receive
  ask (s, w) =
      let (shorter, _) = check_and_compress agent.render agent.compressor s.conversation in
      let t : Turning V = record s { conversation = shorter } in
      replied (
        kept t (
          stream (provider_of agent.brain active)
            (turn_prompt agent input session active s.total_iterations w) shorter
            (offers_escalation agent.brain active) w))

  abbrev pub unless_stopped : Bool → Turn V W Next
  unless_stopped true (s, w) = (ok stop, (s, w))
  unless_stopped false (s, w) = ask (s, w)

  unfoldable pub round : Turn V W Next
  unfolding ask poll
  round (s, w) = let (t, v) = poll s w in unless_stopped (should_stop t.budget) (t, v)

  -- What follows the loop.
  abbrev pub label : Option BrainChoice → Option Text
  label none = none
  label (some c) = some (brain_name c)

  abbrev pub status : Turning V → Text
  status s = if s.budget.interrupted then text "interrupted" else text "completed"

  abbrev pub responded : Turning V → Result Done Text × W → Outcome V W
  responded s (err e, w) = ended (err e) s w
  responded s (ok d, w) =
      ended
        (ok (record {
          response_text = s.final_text;
          iterations = s.total_iterations;
          session_id = session;
        }))
        (send (finish s.total_iterations session (label active)) s)
        (agent.record_task input s.total_iterations w)

  unfoldable pub respond : Turning V → W → Outcome V W
  unfolding poll
  respond s w =
      let (t, v) = poll s w in
      responded t (agent.update_status session (status t) t.total_iterations v)

  abbrev pub after_round :
      (Turning V → W → Outcome V W) → Result Next Text × (Turning V × W) → Outcome V W
  after_round rest (ok stop, (s, w)) = respond s w
  after_round rest (ok again, (s, w)) = rest s w
  after_round rest (err e, (s, w)) = ended (err e) s w

  -- One unit of `fuel` is one round.
  unfoldable pub rounds : ℕ → Turning V → W → Outcome V W
  unfolding respond round
  rounds zero s w = out_of_fuel
  rounds (suc fuel) s w = after_round (rounds fuel) (round (s, w))

  abbrev pub begun : ℕ → Turning V → Result Done Text × W → Outcome V W
  begun fuel s (ok d, w) = rounds fuel s w
  begun fuel s (err e, w) = ended (err e) s w

  -- The turn of a runtime whose model is chosen.
  unfoldable pub turn_on : IterationBudget → List (Message V) → W → Outcome V W
  unfolding rounds
  turn_on budget conversation w =
      begun (budget.max + 1)
        (record {
          budget = reset budget;
          conversation = conversation ++ (user input ∷ []);
          total_iterations = 0;
          final_text = [];
          sent = [];
        })
        (agent.append_message session (user input) w)

module _ {V W : Type 0} (agent : Agent V W) (stream : Provider V W) where
  abbrev pub after_choice :
      (input session : Text)
      → IterationBudget
      → List (Message V)
      → W
      → Option (Option BrainChoice)
      → Outcome V W
  after_choice input session budget conversation w none = panicked
  after_choice input session budget conversation w (some active) =
      turn_on agent stream active input session budget conversation w

  -- `run_turn` of a runtime whose budget and active brain are given.
  unfoldable pub run_turn :
      (input session : Text)
      → IterationBudget
      → Option BrainChoice
      → List (Message V)
      → W
      → Outcome V W
  unfolding turn_on
  run_turn input session budget active conversation w =
      after_choice input session budget conversation w (chosen agent agent.brain active input w)
