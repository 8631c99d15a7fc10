-- ===== src/Turn.antt =====
-- crates/peko-core/src/runtime.rs: `run_turn`, the loop of a conversation whose events are sent to a
-- client. It is a loop of its own beside `run_task`, over the same runtime `Agent`.
--
-- What the loop changes is a `Turning`, which an error of the session leaves as it is at that point:
-- the conversation is the caller's. `sent` is what was sent to the client; a client that is gone
-- changes nothing. The stream of the model's answer may fail at any event.
pub mod Rounds
pub mod Answered
pub mod Shown
pub mod Limits
pub mod Errors
pub mod Ends
pub mod Failing
pub mod Tests
use peko_agent.Base.{
  ℕ, ◌+◌, ◌%◌, Bool, true, false, ◌&&◌, Option, none, some, List, [], ◌∷◌, ◌++◌, ltb, ◌==◌,
  if◌then◌else◌,
}
use peko_agent.Base.Results.{Result, ok, err}
use peko_agent.Text.{Text, text}
use peko_agent.Budget.{IterationBudget}
use peko_agent.Message.{ToolCall, ImageData, Message}
use peko_agent.Stream.{
  StreamEvent, text_delta, tool_use_start, tool_input_delta, content_block_stop, message_delta,
  thinking_delta, message_start, content_block_start, message_stop, ping, Gathered, nothing_yet,
  on_event, push_call,
}
use peko_agent.Text.{is_empty}
use peko_agent.Brain.{BrainChoice, local}
use peko_agent.Tools.{ToolResult, execute}
use peko_agent.Runtime.{Run, Done, return, ◌>>=◌, Json, Agent}
use peko_agent.Runtime.Prompt.{memory_nudge, nudge_due}
use peko_agent.Runtime.Calls.{settled, result_message}

pub data StreamCallback : Type 0 where
  text_sent : Text → StreamCallback
  tool_start : (name : Text) → StreamCallback
  tool_outcome :
      (name content : Text) → (is_error : Bool) → (image : Option (Text × Text)) → StreamCallback
  thinking : Text → StreamCallback
  finish : (iterations : ℕ) → (session_id : Text) → (brain : Option Text) → StreamCallback
  failure : Text → StreamCallback

pub record Turning (V : Type 0) : Type 0 where
  pub budget : IterationBudget
  pub conversation : List (Message V)
  pub total_iterations : ℕ
  pub final_text : Text
  pub sent : List StreamCallback

abbrev pub Turn : Type 0 → Type 0 → Type 0 → Type 0
Turn V W A = Run (Turning V × W) A

-- A call of another component, which does not see the loop's variables.
abbrev pub kept : {A S W : Type 0} → S → A × W → A × (S × W)
kept s (r, w) = (r, (s, w))

abbrev pub outside : {V W A : Type 0} → Run W A → Turn V W A
outside m (s, w) = kept s (m w)

abbrev pub send : {V : Type 0} → StreamCallback → Turning V → Turning V
send c s = record s { sent = s.sent ++ (c ∷ []) }

abbrev pub with_type : ImageData → Option Text → Option (Text × Text)
with_type image none = none
with_type image (some u) = some (u, image.media_type)

-- The input of a call whose text is no JSON is an empty object.
abbrev pub or_empty : {V : Type 0} → Json V → Result V Text → V
or_empty json (ok v) = v
or_empty json (err e) = json.empty_object

unfoldable pub turn_input : {V : Type 0} → Json V → Text → V
turn_input json raw = or_empty json (json.from_str raw)

-- What the client gets of an event.
unfoldable pub shown : StreamEvent → List StreamCallback
shown (text_delta t) = text_sent t ∷ []
shown (tool_use_start id name) = tool_start name ∷ []
shown (thinking_delta t) = thinking t ∷ []
shown (tool_input_delta json) = []
shown (content_block_stop index) = []
shown (message_delta n reason) = []
shown (message_start id n) = []
shown (content_block_start index type) = []
shown message_stop = []
shown ping = []

module _ {V : Type 0} (json : Json V) where
  -- The call that is open joins the calls, with its input read.
  abbrev pub with_call : Gathered V → Gathered V
  with_call g = record g {
    tool_calls =
        g.tool_calls
        ++ (record { id = g.tool_id; name = g.tool_name; input = turn_input json g.tool_input }
            ∷ []);
  }

  -- A call is open while its name is not empty. `finalized` closes it and clears its name and input.
  abbrev pub finalized : Gathered V → Gathered V
  finalized g =
      if is_empty g.tool_name then g else record (with_call g) { tool_name = []; tool_input = [] }

  -- The variables of the loop after an event.
  unfoldable pub turn_event : Gathered V → StreamEvent → Gathered V
  unfolding turn_input is_empty
  turn_event g (text_delta t) = record g { text_buffer = g.text_buffer ++ t }
  turn_event g (tool_use_start id name) = record g {
    tool_id = id;
    tool_name = name;
    tool_input = [];
  }
  turn_event g (tool_input_delta json) = record g { tool_input = g.tool_input ++ json }
  turn_event g (content_block_stop index) = finalized g
  turn_event g (message_delta n reason) = finalized (record g { stop_reason = reason })
  turn_event g (thinking_delta thought) = g
  turn_event g (message_start id n) = g
  turn_event g (content_block_start index type) = g
  turn_event g message_stop = g
  turn_event g ping = g

  -- The loop over the stream, up to its end or its first error.
  unfoldable pub stream_events :
      List (Result StreamEvent Text)
      → Gathered V
      → List StreamCallback
      → Gathered V × List StreamCallback
  unfolding shown turn_event
  stream_events [] g sent = (g, sent)
  stream_events (err e ∷ es) g sent = (g, sent ++ (failure (text "LLM stream error: " ++ e) ∷ []))
  stream_events (ok e ∷ es) g sent = stream_events es (turn_event g e) (sent ++ shown e)

  -- The call that is still open at the end is pushed.
  unfoldable pub closed : Gathered V → Gathered V
  unfolding turn_input is_empty
  closed g = if is_empty g.tool_name then g else with_call g

module _ {V W : Type 0} (agent : Agent V W) (input session : Text) where
  -- The address under which the client finds a result's image, and its type.
  abbrev pub saved : Option ImageData → W → Option (Text × Text) × W
  saved none w = (none, w)
  saved (some image) w = let (url, v) = agent.save_image image w in (with_type image url, v)

  abbrev pub address : Option (Text × Text) → Option Text
  address none = none
  address (some (url, media_type)) = some url

  -- The session keeps the address in place of the image.
  abbrev pub store : ToolCall V → ToolResult → Option (Text × Text) → Option ImageData → Run W Done
  store tc r url none = agent.append_message session (result_message agent input session tc r)
  store tc r url (some image) =
      agent.append_tool_result session tc.id tc.name r.content r.is_error (address url)

  -- A result is shown to the client and joins the conversation, before the session stores it.
  abbrev pub with_result : ToolCall V → ToolResult → Option (Text × Text) → Turning V → Turning V
  with_result tc r url s =
      let t = send (tool_outcome tc.name r.content r.is_error url) s in
      record t { conversation = t.conversation ++ (result_message agent input session tc r ∷ []) }

  unfoldable pub turn_call : ToolCall V → Turn V W Done
  unfolding result_message
  turn_call tc (s, w) =
      let (r, w1) = settled agent input session (execute agent.tools tc.name tc.input w) in
      let w2 = if r.is_error then w1 else agent.record_tool_use tc.name w1 in
      let (url, w3) = saved r.image w2 in kept (with_result tc r url s) (store tc r url r.image w3)

  unfoldable pub turn_calls : List (ToolCall V) → Turn V W Done
  unfolding turn_call
  turn_calls [] = return tt
  turn_calls (tc ∷ tcs) = turn_call tc >>= λ _. turn_calls tcs

  -- The prompt of an iteration. A store that is locked, or whose context cannot be built, adds
  -- nothing.
  abbrev pub context : Option Text → Text
  context none = []
  context (some t) = if is_empty t then [] else text "\n\n" ++ t

  abbrev pub store_text : Option (Text → W → Option Text) → W → Text
  store_text none w = []
  store_text (some f) w = context (f input w)

  abbrev pub user_text : Option (W → Option Text) → W → Text
  user_text none w = []
  user_text (some f) w = context (f w)

  -- `matches!(active_brain, Some(Local))`
  abbrev pub no_think : Option BrainChoice → Text
  no_think (some local) = text "\n\n/no_think"
  no_think _ = []

  unfoldable pub turn_prompt : Option BrainChoice → ℕ → W → Text
  unfolding nudge_due
  turn_prompt active n w =
      agent.system_prompt w
      ++ (no_think active
          ++ ((if n == 0
                then store_text agent.memory w
                  ++ (store_text agent.skills w ++ user_text agent.user_model w)
                else [])
              ++ (if nudge_due agent input n then memory_nudge else [])))
