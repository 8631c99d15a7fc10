-- ===== src/Wire/Documented.antt =====
-- The events of the Anthropic format, as its documentation describes their data. An object has the
-- named fields in any place, and may have any others.
use peko_agent.Base.{ℕ, ◌≡◌, refl, false}
use peko_agent.Text.{Text, text, text_eq}
use peko_agent.Text.Equality.{text_eq_refl}
use peko_agent.Stream.{
  StreamEvent, StopReason, end_turn, tool_use, max_tokens, stop_sequence, unknown, message_start,
  content_block_start, text_block, thinking_block, text_delta, tool_use_start, tool_input_delta,
  thinking_delta, content_block_stop, message_delta, message_stop, ping,
}
use peko_agent.Wire.Anthropic.{Value, Fields, number, string, object, field, get_field, at}

-- The first field of the name has the value.
pub data HasField (key : Text) (w : Value) : Fields → Type 0 where
  here : {fs : Fields} → HasField key w (field key w fs)
  later :
      {k : Text} {v : Value} {fs : Fields}
      → text_eq k key ≡ false
      → HasField key w fs
      → HasField key w (field k v fs)

pub data Has (key : Text) (w : Value) : Value → Type 0 where
  has : {fs : Fields} → HasField key w fs → Has key w (object fs)

abbrev pub HasText : Text → Text → Value → Type 0
HasText key t v = Has key (string t) v

abbrev pub HasNumber : Text → ℕ → Value → Type 0
HasNumber key n v = Has key (number n) v

-- What the text of a stop reason means.
pub data Means : Text → StopReason → Type 0 where
  turn_ended : Means (text "end_turn") end_turn
  tool_used : Means (text "tool_use") tool_use
  tokens_spent : Means (text "max_tokens") max_tokens
  sequence_met : Means (text "stop_sequence") stop_sequence
  another :
      {t : Text}
      → text_eq t (text "end_turn") ≡ false
      → text_eq t (text "tool_use") ≡ false
      → text_eq t (text "max_tokens") ≡ false
      → text_eq t (text "stop_sequence") ≡ false
      → Means t unknown

-- The name of an event, its data and the event it stands for.
pub data Documents : Text → Value → StreamEvent → Type 0 where
  message_starts :
      {v message usage : Value} {id : Text} {n : ℕ}
      → Has (text "message") message v
      → HasText (text "id") id message
      → Has (text "usage") usage message
      → HasNumber (text "input_tokens") n usage
      → Documents (text "message_start") v (message_start id n)
  text_starts :
      {v block : Value} {i : ℕ}
      → HasNumber (text "index") i v
      → Has (text "content_block") block v
      → HasText (text "type") (text "text") block
      → Documents (text "content_block_start") v (content_block_start i text_block)
  thinking_starts :
      {v block : Value} {i : ℕ}
      → HasNumber (text "index") i v
      → Has (text "content_block") block v
      → HasText (text "type") (text "thinking") block
      → Documents (text "content_block_start") v (content_block_start i thinking_block)
  tool_starts :
      {v block : Value} {i : ℕ} {id name : Text}
      → HasNumber (text "index") i v
      → Has (text "content_block") block v
      → HasText (text "type") (text "tool_use") block
      → HasText (text "id") id block
      → HasText (text "name") name block
      → Documents (text "content_block_start") v (tool_use_start id name)
  text_comes :
      {v delta : Value} {i : ℕ} {t : Text}
      → HasNumber (text "index") i v
      → Has (text "delta") delta v
      → HasText (text "type") (text "text_delta") delta
      → HasText (text "text") t delta
      → Documents (text "content_block_delta") v (text_delta t)
  input_comes :
      {v delta : Value} {i : ℕ} {t : Text}
      → HasNumber (text "index") i v
      → Has (text "delta") delta v
      → HasText (text "type") (text "input_json_delta") delta
      → HasText (text "partial_json") t delta
      → Documents (text "content_block_delta") v (tool_input_delta t)
  thinking_comes :
      {v delta : Value} {i : ℕ} {t : Text}
      → HasNumber (text "index") i v
      → Has (text "delta") delta v
      → HasText (text "type") (text "thinking_delta") delta
      → HasText (text "thinking") t delta
      → Documents (text "content_block_delta") v (thinking_delta t)
  block_stops :
      {v : Value} {i : ℕ}
      → HasNumber (text "index") i v
      → Documents (text "content_block_stop") v (content_block_stop i)
  message_changes :
      {v delta usage : Value} {n : ℕ} {t : Text} {reason : StopReason}
      → Has (text "delta") delta v
      → HasText (text "stop_reason") t delta
      → Means t reason
      → Has (text "usage") usage v
      → HasNumber (text "output_tokens") n usage
      → Documents (text "message_delta") v (message_delta n reason)
  message_stops : {v : Value} → Documents (text "message_stop") v message_stop
  pings : {v : Value} → Documents (text "ping") v ping

-- The events of the format that stand for nothing here: errors, and the signature of a thinking block.
pub data IsPassedOver : Text → Value → Type 0 where
  error_comes : {v error : Value} → Has (text "error") error v → IsPassedOver (text "error") v
  signature_comes :
      {v delta : Value} {i : ℕ}
      → HasNumber (text "index") i v
      → Has (text "delta") delta v
      → HasText (text "type") (text "signature_delta") delta
      → IsPassedOver (text "content_block_delta") v

get_field-HasField :
    (key : Text) (w : Value) {fs : Fields} → HasField key w fs → get_field key fs ≡ w
unfolding get_field
get_field-HasField key w here = rw (text_eq_refl key) refl
get_field-HasField key w (later e h) = rw (e) (get_field-HasField key w h)

pub at-Has : {key : Text} {w : Value} {v : Value} → Has key w v → at v key ≡ w
unfolding at
at-Has {key} {w} (has h) = get_field-HasField key w h
