-- ===== src/Turn/Tests.antt =====
-- Runs of `run_turn` of crates/peko-core/src/runtime.rs with a scripted model.
use peko_agent.Base.{ℕ, suc, ◌≡◌, refl, arith, false, none, some, List, [], ◌∷◌, ◌++◌, map}
use peko_agent.Base.Results.{Result, ok, err}
use peko_agent.Text.{Text, text, text_eq}
use peko_agent.Budget.{new}
use peko_agent.Message.{user, tool_result}
use peko_agent.Brain.{local}
use peko_agent.Tools
use peko_agent.Stream.{StreamEvent, text_delta, nothing_yet, gather}
use peko_agent.Runtime.Tests.{Object, agent, script, object_json, call}
use peko_agent.Turn.{
  Turning, kept, stream_events, closed, turn_input, turn_call, tool_outcome, failure, finish,
}
use peko_agent.Turn.Rounds.{Provider, label, turn_on}
use peko_agent.Turn.Shown.{texts, stream_events-texts, stream_events-gather}
use peko_agent.Turn.Answered.{AreAnswered, turn_calls-AreAnswered}
use peko_agent.Turn.Ends.{EndsWithin, turn_on-EndsWithin}

-- The scripted model, and one that is out of reach.
abbrev scripted : Provider Object ℕ
scripted brain prompt ms offer w = (ok (map (λ e. ok e) (script w)), suc w)

abbrev unreachable : Provider Object ℕ
unreachable brain prompt ms offer w = (err (text "timeout"), suc w)

abbrev idle : Turning Object
idle = record {
  budget = new 3;
  conversation = user (text "what time is it") ∷ [];
  total_iterations = 0;
  final_text = [];
  sent = [];
}

-- A stream that breaks off.
abbrev broken : List (Result StreamEvent Text)
broken = ok (text_delta (text "no")) ∷ ok (text_delta (text "on")) ∷ err (text "reset") ∷ []

stream_events-texts_example :
    texts (stream_events object_json broken nothing_yet []).1
    ≡ texts []
      ++ (closed object_json (stream_events object_json broken nothing_yet []).0).text_buffer
stream_events-texts_example = stream_events-texts object_json broken []

stream_events-gather_example :
    closed object_json (stream_events object_json (map (λ e. ok e) (script 0)) nothing_yet []).0
    ≡ gather (turn_input object_json) (script 0)
stream_events-gather_example = stream_events-gather object_json (script 0) []

abbrev answered : Turning Object
answered = record idle {
  conversation =
      user (text "what time is it")
      ∷ tool_result (text "a") (text "clock") (text "noon") false none
      ∷ [];
  sent = tool_outcome (text "clock") (text "noon") false none ∷ [];
}

turn_calls-AreAnswered_example : AreAnswered idle answered (text "a" ∷ [])
unfolding text_eq peko_agent.Turn.turn_calls Tools.execute Tools.get
turn_calls-AreAnswered_example =
    turn_calls-AreAnswered agent [] [] (call (text "a") (text "clock") ∷ []) idle answered 0 1 tt
      refl

turn_on-EndsWithin_example :
    EndsWithin agent 3
      (text "s")
      (label agent scripted (some local) (text "hi") (text "s") (some local))
      (turn_on agent scripted (some local) (text "hi") (text "s") (new 3) [] 0)
unfolding new
turn_on-EndsWithin_example =
    turn_on-EndsWithin agent scripted (some local) 3 (text "hi") (text "s") (new 3) [] 0 refl
      (omega arith)
