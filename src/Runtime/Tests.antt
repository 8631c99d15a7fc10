-- ===== src/Runtime/Tests.antt =====
-- Runs of the loop of crates/peko-core/src/runtime.rs with a scripted model.
use peko_agent.Base.{
  ℕ, zero, suc, ◌+◌, ◌≡◌, refl, arith, true, false, Option, none, some, List, [], ◌∷◌,
  if◌then◌else◌,
}
use peko_agent.Base.Results.{ok, err}
use peko_agent.Text.{Text, text, text_eq}
use peko_agent.Budget.{new}
use peko_agent.Message.{ToolCall, Message, user, tool_result}
use peko_agent.Brain.{dual, local}
use peko_agent.Tools.{Tool, Registry, ToolResult}
use peko_agent.Stream.{
  StreamEvent, text_delta, tool_use_start, tool_input_delta, content_block_stop, message_delta,
  end_turn, tool_use,
}
use peko_agent.Runtime.{Json, Agent, Running}
use peko_agent.Runtime.Calls.{run_calls, hand_over}
use peko_agent.Runtime.Rounds.{run_task}
use peko_agent.Runtime.Ends.{EndsWithin, run_task-EndsWithin}
use peko_agent.Runtime.Answers.{IsAnswered, run_calls-answers}
use peko_agent.Runtime.Handover.{IsRestarted, run_calls-handover}
use peko_agent.Runtime.Malformed.{HasMarkers}

-- Objects whose fields are texts; the only texts that are read are the empty object and `escalate`'s.
abbrev pub Object : Type 0
Object = List (Text × Text)

abbrev pub field : Object → Text → Option Text
field [] name = none
field ((k, v) ∷ fs) name = if text_eq k name then some v else field fs name

abbrev pub object_json : Json Object
object_json = record {
  empty_object = [];
  from_str = λ raw. if text_eq raw (text "{}") then ok [] else err (text "expected value");
  parse_error = λ e raw. (text "__parse_error", e) ∷ (text "__raw", raw) ∷ [];
  get_str = field;
}

object_json-HasMarkers : HasMarkers object_json
unfolding text_eq
object_json-HasMarkers = record { error_field = λ e raw. refl; raw_field = λ e raw. refl }

-- The world counts the model's answers and the runs of the tool.
abbrev pub clock_tool : Tool Object ℕ
clock_tool = record {
  name = text "clock";
  is_available = true;
  is_dangerous = false;
  run = λ args w. (ok (record { content = text "noon"; is_error = false; image = none }), suc w);
}

-- The first answer calls the tool, the later ones are final.
abbrev pub script : ℕ → List StreamEvent
script zero =
    tool_use_start (text "1") (text "clock")
    ∷ tool_input_delta (text "{}")
    ∷ content_block_stop 0
    ∷ message_delta 5 tool_use
    ∷ []
script (suc n) = text_delta (text "noon") ∷ message_delta 5 end_turn ∷ []

abbrev pub agent : Agent Object ℕ
agent = record {
  json = object_json;
  render = λ v. text "{}";
  lower = λ t. t;
  tools = (text "clock", clock_tool) ∷ [];
  compressor = record { max_context_tokens = 1000; history_share = λ n. n };
  brain = some (record { mode = dual; simple_max_len = 200 });
  local_model_name = text "small";
  nudge_interval = 5;
  search = λ w t. [];
  is_good_rate = λ a b. false;
  skills_free = λ w. false;
  system_prompt = λ w. text "You are an agent.";
  memory = none;
  skills = none;
  user_model = none;
  stream_completion = λ brain prompt ms offer w. (ok (script w), suc w);
  create_session = λ task w. (ok (text "s"), w);
  append_message = λ session m w. (ok tt, w);
  save_image = λ image w. (none, w);
  append_tool_result = λ session id name content e image w. (ok tt, w);
  update_status = λ session status n w. (ok tt, w);
  record_tool_use = λ name w. w;
  record_task = λ input n w. w;
  iteration_hook = λ ms n prompt w. w;
  take_signal = λ w. (false, w);
}

run_task-EndsWithin_example :
    EndsWithin (0 + 3) (run_task agent (new 3) none none (text "what time is it") 0)
unfolding new
run_task-EndsWithin_example =
    run_task-EndsWithin agent (new 3) none none (text "what time is it") 0 (omega arith)

abbrev pub call : Text → Text → ToolCall Object
call id name = record { id = id; name = name; input = [] }

-- A task on the local model, and one that was handed over before.
abbrev running : ℕ → Running Object
running n = record {
  budget = record { remaining = 2; max = 3; interrupted = true };
  active_brain = some local;
  conversation = user (text "hello") ∷ [];
  total_iterations = 1;
  final_text = [];
  escalation_count = n;
}

abbrev mixed_calls : List (ToolCall Object)
mixed_calls =
    call (text "a") (text "clock")
    ∷ call (text "b") (text "escalate")
    ∷ call (text "c") (text "clock")
    ∷ []

abbrev noon : Text → Message Object
noon id = tool_result id (text "clock") (text "noon") false none

abbrev after_mixed : Running Object
after_mixed = record (running 1) {
  conversation = user (text "hello") ∷ noon (text "a") ∷ noon (text "c") ∷ [];
}

run_calls-answers_example :
    (false ≡ false) × IsAnswered (running 1) after_mixed (text "a" ∷ text "c" ∷ [])
unfolding text_eq run_calls peko_agent.Tools.execute peko_agent.Tools.get
run_calls-answers_example =
    run_calls-answers agent [] [] mixed_calls (running 1) after_mixed false 1 3 refl refl

abbrev handing_calls : List (ToolCall Object)
handing_calls = call (text "a") (text "clock") ∷ call (text "b") (text "escalate") ∷ []

abbrev handed : Running Object
handed =
    hand_over agent (text "hello") [] (call (text "b") (text "escalate"))
      (record (running 0) { conversation = user (text "hello") ∷ noon (text "a") ∷ [] })

run_calls-handover_example : ((running 0).escalation_count ≡ 0) × IsRestarted 3 handed
unfolding text_eq run_calls peko_agent.Tools.execute peko_agent.Tools.get
run_calls-handover_example =
    run_calls-handover agent (text "hello") [] handing_calls (running 0) handed 1 2 refl
