-- ===== src/Runtime/Malformed.antt =====
-- What becomes of a tool call whose arguments are no JSON.
use peko_agent.Base.{◌≡◌, refl, false, some}
use peko_agent.Base.Results.{err}
use peko_agent.Text.{Text, text, is_empty}
use peko_agent.Runtime.{Json, Agent}
use peko_agent.Runtime.Calls.{parsed_input, parse_tool_input, call_result, malformed}

-- An object that `json!` makes gives its fields back.
pub record HasMarkers {V : Type 0} (json : Json V) : Type 0 where
  pub error_field :
      (e raw : Text) → json.get_str (json.parse_error e raw) (text "__parse_error") ≡ some e
  pub raw_field : (e raw : Text) → json.get_str (json.parse_error e raw) (text "__raw") ≡ some raw

module _ {V W : Type 0} (agent : Agent V W) (input session : Text) where
  parse_tool_input-malformed :
      (raw e : Text)
      → is_empty raw ≡ false
      → agent.json.from_str raw ≡ err e
      → parse_tool_input agent.json raw ≡ agent.json.parse_error e raw
  unfolding parse_tool_input parsed_input
  parse_tool_input-malformed raw e h k = rw (h, k) refl

  -- A call whose arguments are a text that is no JSON never reaches a tool: the world is as before,
  -- and the result is an error that shows the reader's message and the start of the text. The JSON
  -- object of the markers is assumed to give its two fields back.
  pub call_result-malformed :
      (id name raw e : Text) (w : W)
      → HasMarkers agent.json
      → is_empty raw ≡ false
      → agent.json.from_str raw ≡ err e
      → call_result agent input session
          (record { id = id; name = name; input = parse_tool_input agent.json raw })
          w
        ≡ (malformed agent input session name e raw, w)
  unfolding call_result
  call_result-malformed id name raw e w m h k =
      rw (parse_tool_input-malformed raw e h k, m.error_field e raw, m.raw_field e raw) refl
