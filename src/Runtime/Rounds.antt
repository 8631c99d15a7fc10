-- ===== src/Runtime/Rounds.antt =====
-- The loop of `run_task`, from the choice of a model to the response.
use peko_agent.Base.{
  ℕ, zero, suc, ◌+◌, ◌*◌, Bool, true, false, not, ◌&&◌, Option, none, some, List, [], ◌∷◌, ◌++◌,
  if◌then◌else◌,
}
use mathlib.Core.Option
use peko_agent.Base.Results.{Result, ok, err}
use peko_agent.Text.{Text, text, is_empty}
use peko_agent.Budget.{IterationBudget, BudgetExhausted, decrement, reset, should_stop}
use peko_agent.Message.{ToolCall, Message, user}
use peko_agent.Compressor.{check_and_compress}
use peko_agent.Stream.{StreamEvent, StopReason, end_turn, Gathered, gather, answer}
use peko_agent.Brain.{BrainChoice, local, DualBrain, supports_escalation, classify}
use peko_agent.Runtime.{Run, Done, return, ◌>>=◌, Agent, Running, AgentResponse, poll}
use peko_agent.Runtime.Prompt.{build_prompt}
use peko_agent.Runtime.Calls.{parse_tool_input, run_calls}

-- `break` and the end of the loop's body.
pub data Step (V : Type 0) : Type 0 where
  stop again : Running V → Step V

pub data Outcome (W : Type 0) : Type 0 where
  finished : Result AgentResponse Text → W → Outcome W
  panicked out_of_fuel : Outcome W

abbrev pub no_calls : {V : Type 0} → List (ToolCall V) → Bool
no_calls [] = true
no_calls (tc ∷ tcs) = false

abbrev pub is_end_turn : StopReason → Bool
is_end_turn end_turn = true
is_end_turn _ = false

-- The two tests that end the loop with the text of an answer.
unfoldable pub is_final : {V : Type 0} → Gathered V → Bool
is_final g =
    if no_calls g.tool_calls
    then true
    else is_end_turn g.stop_reason && not (is_empty g.text_buffer)

-- `matches!(active_brain, Some(Local))`, where the mode has another brain to hand over to.
unfoldable pub offers_escalation : Option DualBrain → Option BrainChoice → Bool
offers_escalation (some b) (some local) = supports_escalation b.mode
offers_escalation _ _ = false

-- The brain's provider, or the default one.
abbrev pub provider_of : Option DualBrain → Option BrainChoice → Option BrainChoice
provider_of none c = none
provider_of (some b) c = c

-- `budget.decrement`, where an error ends the loop.
abbrev pub spent : {V : Type 0} → Running V → IterationBudget × Result ℕ BudgetExhausted → Step V
spent s (b, ok n) = again (record s { budget = b })
spent s (b, err e) = stop (record s { budget = b })

module _ {V W : Type 0} (agent : Agent V W) (input session : Text) where
  -- The end of the body: a handover starts the next round at once.
  unfoldable pub end_round : Text → Running V × Bool → Run W (Step V)
  end_round prompt (s, true) w = (ok (again s), w)
  end_round prompt (s, false) w =
      let s1 : Running V = record s { total_iterations = s.total_iterations + 1 } in
      (
        ok (spent s1 (decrement s1.budget)),
        agent.iteration_hook s1.conversation s1.total_iterations prompt w,
      )

  -- What the loop does with a gathered answer, by whether it is the last one.
  abbrev pub decided : Bool → Text → Gathered V → Running V → Run W (Step V)
  decided true prompt g s =
      return
        (stop (record s { final_text = g.text_buffer; total_iterations = s.total_iterations + 1 }))
  decided false prompt g s = run_calls agent input session g.tool_calls s >>= end_round prompt

  unfoldable pub act : Text → Gathered V → Running V → Run W (Step V)
  unfolding end_round is_final
  act prompt g s = decided (is_final g) prompt g s

  -- The stream is gathered into a message that the conversation and the session keep.
  unfoldable pub receive : Text → Running V → List StreamEvent → Run W (Step V)
  unfolding act
  receive prompt s events w =
      let g = gather (parse_tool_input agent.json) events in
      let (s1, w1) = poll agent s w in
      let s2 : Running V = record s1 { conversation = s1.conversation ++ (answer g ∷ []) } in
      (agent.append_message session (answer g) >>= λ _. act prompt g s2) w1

  unfoldable pub ask : Running V → Run W (Step V)
  unfolding receive offers_escalation
  ask s w =
      let (shorter, _) = check_and_compress agent.render agent.compressor s.conversation in
      let prompt = build_prompt agent input s.total_iterations w in
      (agent.stream_completion (provider_of agent.brain s.active_brain) prompt shorter
            (offers_escalation agent.brain s.active_brain)
          >>= receive prompt (record s { conversation = shorter }))
        w

  abbrev pub unless_stopped : Bool → Running V → Run W (Step V)
  unless_stopped true s w = (ok (stop s), w)
  unless_stopped false s w = ask s w

  unfoldable pub round : Running V → Run W (Step V)
  unfolding ask
  round s w = let (t, v) = poll agent s w in unless_stopped (should_stop t.budget) t v

  -- What follows the loop.
  abbrev pub status : Running V → Text
  status s = if s.budget.interrupted then text "interrupted" else text "completed"

  abbrev pub responded : Running V → Result Done Text × W → Outcome W
  responded s (err e, w) = finished (err e) w
  responded s (ok _, w) =
      finished
        (ok (record {
          response_text = s.final_text;
          iterations = s.total_iterations;
          session_id = session;
        }))
        (agent.record_task input s.total_iterations w)

  unfoldable pub respond : Running V → W → Outcome W
  respond s w = responded s (agent.update_status session (status s) s.total_iterations w)

  abbrev pub after_round : (Running V → W → Outcome W) → Result (Step V) Text × W → Outcome W
  after_round rest (ok (stop s), w) = respond s w
  after_round rest (ok (again s), w) = rest s w
  after_round rest (err e, w) = finished (err e) w

  -- One unit of `fuel` is one round.
  unfoldable pub rounds : ℕ → Running V → W → Outcome W
  rounds zero s w = out_of_fuel
  rounds (suc fuel) s w = after_round (rounds fuel) (round s w)

-- What a resumed task starts from: its messages, its iterations and its task.
pub record ResumeState (V : Type 0) : Type 0 where
  pub messages : List (Message V)
  pub iterations : ℕ
  pub original_task : Text

-- Two rounds with a full budget and one handover need no more.
abbrev pub task_fuel : ℕ → ℕ
task_fuel n = 2 * n + 2

module _ {V W : Type 0} (agent : Agent V W) where
  unfoldable pub append_all : Text → List (Message V) → Run W Done
  append_all session [] = return tt
  append_all session (m ∷ ms) = agent.append_message session m >>= λ _. append_all session ms

  -- The choice of a model. The inner `none` is a runtime without brains, the outer one a panic.
  abbrev pub chosen : Option DualBrain → Option BrainChoice → Text → W → Option (Option BrainChoice)
  chosen none active input w = some active
  chosen (some b) active input w =
      Option.map (λ c. some c)
        (classify agent.lower (agent.search w) agent.is_good_rate b (agent.skills_free w) input)

  abbrev pub begin_with :
      IterationBudget → Option BrainChoice → List (Message V) → ℕ → Text → Text → W → Outcome W
  begin_with budget active conversation n input session w =
      rounds agent input session (task_fuel budget.max)
        (record {
          budget = reset budget;
          active_brain = active;
          conversation = conversation;
          total_iterations = n;
          final_text = [];
          escalation_count = 0;
        })
        w

  abbrev pub or_fail : {A : Type 0} → Result A Text × W → (A → W → Outcome W) → Outcome W
  or_fail (ok a, w) f = f a w
  or_fail (err e, w) f = finished (err e) w

  -- A session is made for the task, and the first messages are put into it.
  abbrev pub started :
      IterationBudget → Option BrainChoice → Option (ResumeState V) → Text → W → Outcome W
  started budget active none input w =
      let conversation : List (Message V) = user input ∷ [] in
      or_fail (agent.create_session input w) (λ session v.
        or_fail (append_all session conversation v)
          (λ _. begin_with budget active conversation 0 input session))
  started budget active (some r) input w =
      or_fail (agent.create_session r.original_task w) (λ session v.
        or_fail (append_all session r.messages v)
          (λ _. begin_with budget active r.messages r.iterations r.original_task session))

  abbrev pub after_choice :
      IterationBudget → Option (ResumeState V) → Text → W → Option (Option BrainChoice) → Outcome W
  after_choice budget resume input w none = panicked
  after_choice budget resume input w (some active) = started budget active resume input w

  -- `run_task` of a runtime whose budget and active brain are given.
  unfoldable pub run_task :
      IterationBudget → Option BrainChoice → Option (ResumeState V) → Text → W → Outcome W
  unfolding append_all
  run_task budget active resume input w =
      after_choice budget resume input w (chosen agent.brain active input w)
