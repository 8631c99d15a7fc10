-- ===== src/Stream.antt =====
-- crates/peko-transport/src/stream.rs, and the loop of `run_task` in
-- crates/peko-core/src/runtime.rs that gathers a streamed answer. `input_of` stands for
-- `parse_tool_input`, which reads the JSON text of a tool's arguments.
pub mod Blocks
pub mod Deltas
use peko_agent.Base.{ℕ, Bool, true, false, Option, none, some, List, [], ◌∷◌, ◌++◌, if◌then◌else◌}
use peko_agent.Text.{Text, is_empty}
use peko_agent.Message.{ToolCall, Message, assistant}

pub data StopReason : Type 0 where
  end_turn tool_use max_tokens stop_sequence unknown : StopReason

pub data ContentBlockType : Type 0 where
  text_block tool_use_block thinking_block : ContentBlockType

pub data StreamEvent : Type 0 where
  message_start : (id : Text) → (input_tokens : ℕ) → StreamEvent
  content_block_start : (index : ℕ) → ContentBlockType → StreamEvent
  text_delta : Text → StreamEvent
  tool_use_start : (id name : Text) → StreamEvent
  tool_input_delta : Text → StreamEvent
  thinking_delta : Text → StreamEvent
  content_block_stop : (index : ℕ) → StreamEvent
  message_delta : (output_tokens : ℕ) → StopReason → StreamEvent
  message_stop : StreamEvent
  ping : StreamEvent

-- The variables of the loop.
pub record Gathered (V : Type 0) : Type 0 where
  pub text_buffer : Text
  pub tool_calls : List (ToolCall V)
  pub tool_id : Text
  pub tool_name : Text
  pub tool_input : Text
  pub stop_reason : StopReason

abbrev pub nothing_yet : {V : Type 0} → Gathered V
nothing_yet = record {
  text_buffer = [];
  tool_calls = [];
  tool_id = [];
  tool_name = [];
  tool_input = [];
  stop_reason = end_turn;
}

module _ {V : Type 0} (input_of : Text → V) where
  -- `tool_calls.push(…)` of the pending call.
  abbrev pub push_call : Gathered V → Gathered V
  push_call g = record g {
    tool_calls =
        g.tool_calls
        ++ (record { id = g.tool_id; name = g.tool_name; input = input_of g.tool_input } ∷ []);
  }

  -- A pending call is pushed, and the buffers of its name and input are cleared.
  unfoldable pub close_call : Gathered V → Gathered V
  close_call g =
      if is_empty g.tool_name then g else record (push_call g) { tool_name = []; tool_input = [] }

  unfoldable pub on_event : Gathered V → StreamEvent → Gathered V
  unfolding close_call
  on_event g (text_delta t) = record g { text_buffer = g.text_buffer ++ t }
  on_event g (tool_use_start id name) = record g { tool_id = id; tool_name = name; tool_input = [] }
  on_event g (tool_input_delta json) = record g { tool_input = g.tool_input ++ json }
  on_event g (content_block_stop index) = close_call g
  on_event g (message_delta n reason) = close_call (record g { stop_reason = reason })
  on_event g (thinking_delta t) = g
  on_event g (message_start id n) = g
  on_event g (content_block_start index type) = g
  on_event g message_stop = g
  on_event g ping = g

  unfoldable pub on_events : Gathered V → List StreamEvent → Gathered V
  unfolding on_event
  on_events g [] = g
  on_events g (e ∷ es) = on_events (on_event g e) es

  -- The whole stream, and the call that is still open at its end.
  unfoldable pub gather : List StreamEvent → Gathered V
  unfolding on_events
  gather es = let g = on_events nothing_yet es in if is_empty g.tool_name then g else push_call g

-- The message that is added to the conversation.
unfoldable pub answer : {V : Type 0} → Gathered V → Message V
answer g = assistant (if is_empty g.text_buffer then none else some g.text_buffer) g.tool_calls
