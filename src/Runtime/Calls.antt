-- ===== src/Runtime/Calls.antt =====
-- How the loop executes the tool calls of one answer.
use peko_agent.Base.{
  ◌+◌, Bool, true, false, Option, none, some, List, [], ◌∷◌, ◌++◌, ltb, leb, length, take,
  if◌then◌else◌,
}
use peko_agent.Base.Results.{Result, ok, err}
use peko_agent.Text.{Text, text, text_eq, is_empty}
use peko_agent.Budget.{reset}
use peko_agent.Message.{ToolCall, ImageData, Message, user, tool_result}
use peko_agent.Brain.{cloud, DualBrain, build_escalation_context}
use peko_agent.Tools.{ToolResult, error_result, execute}
use peko_agent.Runtime.{Run, Done, return, ◌>>=◌, Json, Agent, Running, max_escalations, poll}

unfoldable pub parsed_input : {V : Type 0} → Json V → Text → Result V Text → V
parsed_input json raw (ok v) = v
parsed_input json raw (err e) = json.parse_error e raw

unfoldable pub parse_tool_input : {V : Type 0} → Json V → Text → V
parse_tool_input json raw =
    if is_empty raw then json.empty_object else parsed_input json raw (json.from_str raw)

-- `unwrap_or`
abbrev pub unwrap_or : Text → Option Text → Text
unwrap_or t none = t
unwrap_or t (some u) = u

abbrev pub escalate_tool_name : Text
escalate_tool_name = text "escalate"

-- What the loop does with a call before it runs a tool.
pub data Intercept (V : Type 0) : Type 0 where
  refused ordinary : Intercept V
  handed_over : Running V → Intercept V

module _ {V W : Type 0} (agent : Agent V W) (input session : Text) where
  unfoldable pub malformed : Text → Text → Text → ToolResult
  malformed name error raw = error_result (
      text "malformed JSON for tool '"
      ++ (name
          ++ (text "': "
              ++ (error
                  ++ (text ". Got first 200 chars: "
                      ++ (take 200 raw
                          ++ ((if ltb 200 (length raw) then text "…" else [])
                              ++ text " Please retry the call with valid JSON.")))))))

  abbrev pub settled : Result ToolResult Text × W → ToolResult × W
  settled (ok r, w) = (r, w)
  settled (err e, w) = (error_result (text "Error: " ++ e), w)

  -- An input with the marker of a parse error never reaches its tool.
  abbrev pub checked_result : Option Text → ToolCall V → W → ToolResult × W
  checked_result (some e) tc w =
      (malformed tc.name e (unwrap_or [] (agent.json.get_str tc.input (text "__raw"))), w)
  checked_result none tc w = settled (execute agent.tools tc.name tc.input w)

  unfoldable pub call_result : ToolCall V → W → ToolResult × W
  unfolding malformed
  call_result tc w = checked_result (agent.json.get_str tc.input (text "__parse_error")) tc w

  unfoldable pub result_message : ToolCall V → ToolResult → Message V
  result_message tc r = tool_result tc.id tc.name r.content r.is_error r.image

  -- The session keeps an image's address in place of its data.
  unfoldable pub append_result : ToolCall V → ToolResult → Option ImageData → Run W Done
  unfolding result_message
  append_result tc r none w = agent.append_message session (result_message tc r) w
  append_result tc r (some image) w =
      let (url, v) = agent.save_image image w in
      agent.append_tool_result session tc.id tc.name r.content r.is_error url v

  unfoldable pub store_result : ToolCall V → Running V → ToolResult → Run W (Running V)
  unfolding result_message append_result poll
  store_result tc s r w =
      let w1 = if r.is_error then w else agent.record_tool_use tc.name w in
      let s1 : Running V = record s {
        conversation = s.conversation ++ (result_message tc r ∷ []);
      } in
      (append_result tc r r.image >>= λ _ v. let (s2, v2) = poll agent s1 v in (ok s2, v2)) w1

  unfoldable pub run_call : ToolCall V → Running V → Run W (Running V)
  unfolding call_result store_result
  run_call tc s w = let (r, v) = call_result tc w in store_result tc s r v

  -- The conversation is cleared, and the cloud model takes over with a new budget.
  unfoldable pub hand_over : ToolCall V → Running V → Running V
  hand_over tc s = record s {
    conversation =
        user (
          build_escalation_context input
            (unwrap_or (text "local model requested escalation")
              (agent.json.get_str tc.input (text "reason")))
            (agent.json.get_str tc.input (text "analysis")) agent.local_model_name)
        ∷ [];
    active_brain = some cloud;
    budget = reset s.budget;
    total_iterations = 0;
    escalation_count = s.escalation_count + 1;
  }

  abbrev pub escalation : Option DualBrain → ToolCall V → Running V → Intercept V
  escalation none tc s = ordinary
  escalation (some b) tc s = handed_over (hand_over tc s)

  unfoldable pub intercept : ToolCall V → Running V → Intercept V
  intercept tc s =
      if text_eq tc.name escalate_tool_name
      then (if leb max_escalations s.escalation_count then refused else escalation agent.brain tc s)
      else ordinary

  -- `rest` is the loop over the calls behind this one.
  abbrev pub on_intercept :
      Intercept V
      → ToolCall V
      → (Running V → Run W (Running V × Bool))
      → Running V
      → Run W (Running V × Bool)
  on_intercept refused tc rest s = rest s
  on_intercept (handed_over s1) tc rest s = return (s1, true)
  on_intercept ordinary tc rest s = run_call tc s >>= rest

  -- The result tells whether a call handed the task over.
  unfoldable pub run_calls : List (ToolCall V) → Running V → Run W (Running V × Bool)
  unfolding intercept run_call
  run_calls [] s = return (s, false)
  run_calls (tc ∷ tcs) s = on_intercept (intercept tc s) tc (run_calls tcs) s
