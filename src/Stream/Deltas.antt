-- ===== src/Stream/Deltas.antt =====
-- `OpenAICompatProvider::parse_openai_delta` of crates/peko-transport/src/openai_compat.rs sends a
-- start event and input events for each tool call, and never a block stop. Its JSON is read by
-- `serde_json`; here a delta is what the code takes from it.
use peko_agent.Base.{ℕ, ◌≡◌, false, Option, none, some, List, [], ◌∷◌, ◌++◌, map, if◌then◌else◌}
use peko_agent.Text.{Text, text, text_eq, is_empty}
use peko_agent.Stream.{
  StreamEvent, StopReason, end_turn, tool_use, max_tokens, unknown, text_delta, tool_use_start,
  tool_input_delta, message_delta, message_stop, Gathered, nothing_yet, on_events, gather,
}

-- `tc["id"]`, `tc["function"]["name"]` and `tc["function"]["arguments"]`, where they are strings.
pub record ToolDelta : Type 0 where
  pub id : Option Text
  pub name : Option Text
  pub arguments : Option Text

-- `choice["delta"]["content"]`, its tool calls, the finish reason and the completion tokens.
pub record Delta : Type 0 where
  pub content : Option Text
  pub tool_calls : List ToolDelta
  pub finish_reason : Option Text
  pub completion_tokens : ℕ

abbrev or_empty : Option Text → Text
or_empty none = []
or_empty (some t) = t

unfoldable pub content_events : Option Text → List StreamEvent
content_events none = []
content_events (some t) = if is_empty t then [] else text_delta t ∷ []

unfoldable pub start_events : ToolDelta → List StreamEvent
start_events d = elim d.name [ none ↦ [] | some name ↦ tool_use_start (or_empty d.id) name ∷ [] ]

unfoldable pub argument_events : Option Text → List StreamEvent
argument_events none = []
argument_events (some json) = tool_input_delta json ∷ []

unfoldable pub tool_events : List ToolDelta → List StreamEvent
unfolding start_events argument_events
tool_events [] = []
tool_events (d ∷ ds) = start_events d ++ (argument_events d.arguments ++ tool_events ds)

unfoldable pub reason_of : Text → StopReason
reason_of finish =
    if text_eq finish (text "stop")
    then end_turn
    else if text_eq finish (text "tool_calls")
    then tool_use
    else if text_eq finish (text "length")
    then max_tokens
    else unknown

unfoldable pub finish_events : Option Text → ℕ → List StreamEvent
unfolding reason_of
finish_events none n = []
finish_events (some finish) n = message_delta n (reason_of finish) ∷ message_stop ∷ []

unfoldable pub parse_openai_delta : Delta → List StreamEvent
unfolding content_events tool_events finish_events
parse_openai_delta d =
    content_events d.content
    ++ (tool_events d.tool_calls ++ finish_events d.finish_reason d.completion_tokens)

-- One delta of complete tool calls: a name and the arguments for each.
abbrev pub whole : Text × Text × Text → ToolDelta
whole (id, name, json) = record { id = some id; name = some name; arguments = some json }

module _ {V : Type 0} (input_of : Text → V) where
  calls_lost :
      (g : Gathered V) (ts : List (Text × Text × Text)) (id name json : Text) (n : ℕ)
      → is_empty name ≡ false
      → let g' = on_events input_of g (
          tool_events (map whole ts ++ (whole (id, name, json) ∷ []))
          ++ finish_events (some (text "tool_calls")) n) in
        (g'.tool_calls
          ≡ g.tool_calls ++ (record { id = id; name = name; input = input_of json } ∷ []))
        × (g'.tool_name ≡ [])
  unfolding tool_events on_events finish_events is_empty
  calls_lost g [] id name json n h = (rw h, rw h)
  calls_lost g ((i, m, j) ∷ ts) id name json n h =
      calls_lost (record g { tool_id = i; tool_name = m; tool_input = j }) ts id name json n h

  -- When the model sends several whole tool calls in one message, the events for them, without
  -- block stops, are gathered into the last call alone.
  pub gather-parallel :
      (ts : List (Text × Text × Text)) (id name json : Text) (n : ℕ)
      → is_empty name ≡ false
      → (gather input_of (
          parse_openai_delta (record {
            content = none;
            tool_calls = map whole ts ++ (whole (id, name, json) ∷ []);
            finish_reason = some (text "tool_calls");
            completion_tokens = n;
          }))).tool_calls
        ≡ record { id = id; name = name; input = input_of json } ∷ []
  unfolding gather parse_openai_delta is_empty
  gather-parallel ts id name json n h =
      let (c, e) = calls_lost nothing_yet ts id name json n h in rw (e, gather) c
