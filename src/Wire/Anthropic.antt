-- ===== src/Wire/Anthropic.antt =====
-- `AnthropicProvider::parse_event` of crates/peko-transport/src/anthropic.rs.
--
-- A JSON value is a tree; `from_str` stands for `serde_json::from_str`. A field that a value does not
-- have reads as null, and `as_str` and `as_u64` of a value of another kind are nothing.
use peko_agent.Base.{ℕ, Bool, Option, none, some, List, [], ◌∷◌, if◌then◌else◌}
use peko_agent.Text.{Text, text, text_eq}
use peko_agent.Sse.{SseEvent}
use peko_agent.Stream.{
  StreamEvent, StopReason, end_turn, tool_use, max_tokens, stop_sequence, unknown, message_start,
  content_block_start, text_block, thinking_block, text_delta, tool_use_start, tool_input_delta,
  thinking_delta, content_block_stop, message_delta, message_stop, ping,
}

-- `?`
infixl 5 ◌>>=◌
abbrev ◌>>=◌ : {A B : Type 0} → Option A → (A → Option B) → Option B
none >>= f = none
some a >>= f = f a

-- A value, the items of an array and the fields of an object; `number` is a number that `u64` holds,
-- and `other_number` one that it does not, by its text.
mutual
  pub data Value : Type 0 where
    null : Value
    boolean : Bool → Value
    number : ℕ → Value
    other_number : Text → Value
    string : Text → Value
    array : Items → Value
    object : Fields → Value

  pub data Items : Type 0 where
    no_item : Items
    item : Value → Items → Items

  pub data Fields : Type 0 where
    end : Fields
    field : Text → Value → Fields → Fields

unfoldable pub get_field : Text → Fields → Value
get_field key end = null
get_field key (field k v fs) = let rest = get_field key fs in if text_eq k key then v else rest

-- `value[key]`
unfoldable pub at : Value → Text → Value
unfolding get_field
at (object fs) key = get_field key fs
at null key = null
at (boolean b) key = null
at (number n) key = null
at (other_number t) key = null
at (string t) key = null
at (array vs) key = null

abbrev pub as_str : Value → Option Text
as_str (string t) = some t
as_str null = none
as_str (boolean b) = none
as_str (number n) = none
as_str (other_number t) = none
as_str (array vs) = none
as_str (object fs) = none

abbrev pub as_u64 : Value → Option ℕ
as_u64 (number n) = some n
as_u64 null = none
as_u64 (boolean b) = none
as_u64 (other_number t) = none
as_u64 (string t) = none
as_u64 (array vs) = none
as_u64 (object fs) = none

-- `unwrap_or`
abbrev pub unwrap_or {ℓ} : {A : Type ℓ} → A → Option A → A
unwrap_or a none = a
unwrap_or a (some b) = b

unfoldable pub start_of_message : Value → Option StreamEvent
unfolding at
start_of_message v = do
  id ← as_str (at (at v (text "message")) (text "id"))
  n ← as_u64 (at (at (at v (text "message")) (text "usage")) (text "input_tokens"))
  some (message_start id n)

abbrev pub use_of_tool : Value → Option StreamEvent
use_of_tool block = do
  id ← as_str (at block (text "id"))
  name ← as_str (at block (text "name"))
  some (tool_use_start id name)

abbrev pub typed_block : ℕ → Value → Text → Option StreamEvent
typed_block index block type =
    if text_eq type (text "tool_use")
    then use_of_tool block
    else if text_eq type (text "thinking")
    then some (content_block_start index thinking_block)
    else some (content_block_start index text_block)

unfoldable pub start_of_block : Value → Option StreamEvent
unfolding at
start_of_block v = do
  index ← as_u64 (at v (text "index"))
  type ← as_str (at (at v (text "content_block")) (text "type"))
  typed_block index (at v (text "content_block")) type

abbrev pub delta_text : Value → Text → (Text → StreamEvent) → Option StreamEvent
delta_text delta key event = do t ← as_str (at delta key); some (event t)

abbrev pub typed_delta : Value → Text → Option StreamEvent
typed_delta delta type =
    if text_eq type (text "text_delta")
    then delta_text delta (text "text") text_delta
    else if text_eq type (text "input_json_delta")
    then delta_text delta (text "partial_json") tool_input_delta
    else if text_eq type (text "thinking_delta")
    then delta_text delta (text "thinking") thinking_delta
    else none

unfoldable pub delta_of_block : Value → Option StreamEvent
unfolding at
delta_of_block v = do
  type ← as_str (at (at v (text "delta")) (text "type"))
  typed_delta (at v (text "delta")) type

unfoldable pub stop_of_block : Value → Option StreamEvent
unfolding at
stop_of_block v = do index ← as_u64 (at v (text "index")); some (content_block_stop index)

unfoldable pub reason_of : Text → StopReason
reason_of t =
    if text_eq t (text "end_turn")
    then end_turn
    else if text_eq t (text "tool_use")
    then tool_use
    else if text_eq t (text "max_tokens")
    then max_tokens
    else if text_eq t (text "stop_sequence")
    then stop_sequence
    else unknown

unfoldable pub delta_of_message : Value → StreamEvent
unfolding at reason_of
delta_of_message v =
    message_delta (unwrap_or 0 (as_u64 (at (at v (text "usage")) (text "output_tokens")))) (
      reason_of
        (unwrap_or (text "end_turn") (as_str (at (at v (text "delta")) (text "stop_reason")))))

unfoldable pub event_of : Text → Value → Option StreamEvent
unfolding start_of_message start_of_block delta_of_block stop_of_block delta_of_message
event_of type v =
    if text_eq type (text "message_start")
    then start_of_message v
    else if text_eq type (text "content_block_start")
    then start_of_block v
    else if text_eq type (text "content_block_delta")
    then delta_of_block v
    else if text_eq type (text "content_block_stop")
    then stop_of_block v
    else if text_eq type (text "message_delta")
    then some (delta_of_message v)
    else if text_eq type (text "message_stop")
    then some message_stop
    else if text_eq type (text "ping")
    then some ping
    else none

unfoldable pub parse_event : (Text → Option Value) → SseEvent → Option StreamEvent
unfolding event_of
parse_event from_str e = do type ← e.event; v ← from_str e.payload; event_of type v

-- `filter_map(parse_event)` of the events of one chunk.
abbrev pub push_some : Option StreamEvent → List StreamEvent → List StreamEvent
push_some none es = es
push_some (some e) es = e ∷ es

unfoldable pub parse_events : (Text → Option Value) → List SseEvent → List StreamEvent
unfolding parse_event
parse_events from_str [] = []
parse_events from_str (e ∷ es) = push_some (parse_event from_str e) (parse_events from_str es)
