-- ===== src/Wire.antt =====
-- What goes to a model's provider: crates/peko-transport/src/provider.rs,
-- `Message::to_transport_messages` of crates/peko-core/src/message.rs and
-- `OpenAICompatProvider::to_openai_message` of crates/peko-transport/src/openai_compat.rs.
--
-- A JSON message of the OpenAI format is a record of the fields that the code writes; `render` is
-- `serde_json`'s text of a call's input.
pub mod Kept
pub mod Anthropic
pub mod Documented
pub mod Read
pub mod Tests
use peko_agent.Base.{
  ℕ, Bool, true, false, Option, none, some, List, [], ◌∷◌, ◌++◌, any, if◌then◌else◌,
}
use peko_agent.Text.{Text, text, text_eq, is_empty}
use peko_agent.Message.{ToolCall, ImageData, Message, system, user, assistant, tool_result}

pub record ImageSource : Type 0 where
  pub source_type : Text
  pub media_type : Text
  pub image_data : Text

pub data ContentBlock (V : Type 0) : Type 0 where
  text_block : Text → ContentBlock V
  tool_use_block : (id name : Text) → (input : V) → ContentBlock V
  tool_result_block : (tool_use_id content : Text) → (is_error : Bool) → ContentBlock V
  image_block : ImageSource → ContentBlock V

pub data MessageContent (V : Type 0) : Type 0 where
  plain : Text → MessageContent V
  blocks : List (ContentBlock V) → MessageContent V

pub record TransportMessage (V : Type 0) : Type 0 where
  pub role : Text
  pub content : MessageContent V

-- `unwrap_or_default`
abbrev pub or_empty : Option Text → Text
or_empty none = []
or_empty (some t) = t

module _ {V : Type 0} where
  unfoldable pub text_blocks : Option Text → List (ContentBlock V)
  text_blocks none = []
  text_blocks (some t) = text_block t ∷ []

  unfoldable pub call_blocks : List (ToolCall V) → List (ContentBlock V)
  call_blocks [] = []
  call_blocks (tc ∷ tcs) = tool_use_block tc.id tc.name tc.input ∷ call_blocks tcs

  unfoldable pub image_blocks : Option ImageData → List (ContentBlock V)
  image_blocks none = []
  image_blocks (some i) =
      image_block
        (record { source_type = text "base64"; media_type = i.media_type; image_data = i.base64 })
      ∷ []

  -- An assistant's blocks, its text and its calls.
  abbrev pub assistant_content :
      List (ContentBlock V) → Option Text → List (ToolCall V) → MessageContent V
  assistant_content [] t calls = plain []
  assistant_content (b ∷ bs) t [] = plain (or_empty t)
  assistant_content (b ∷ bs) t (tc ∷ tcs) = blocks (b ∷ bs)

  unfoldable pub to_transport_messages : Message V → List (TransportMessage V)
  unfolding text_blocks call_blocks image_blocks
  to_transport_messages (system t) = []
  to_transport_messages (user t) = record { role = text "user"; content = plain t } ∷ []
  to_transport_messages (assistant t calls) =
      record {
        role = text "assistant";
        content = assistant_content (text_blocks t ++ call_blocks calls) t calls;
      }
      ∷ []
  to_transport_messages (tool_result id name content e image) =
      record {
        role = text "user";
        content = blocks (tool_result_block id content e ∷ image_blocks image);
      }
      ∷ []

-- The parts of a content array.
pub data Part : Type 0 where
  text_part image_part : Text → Part

pub data WireContent : Type 0 where
  null_content : WireContent
  text_content : Text → WireContent
  parts_content : List Part → WireContent

pub record WireCall : Type 0 where
  pub id : Text
  pub name : Text
  pub arguments : Text

-- No calls stand for a message without the field `tool_calls`.
pub record WireMessage : Type 0 where
  pub role : Text
  pub content : WireContent
  pub tool_call_id : Option Text
  pub tool_calls : List WireCall

abbrev pub simple : Text → WireContent → WireMessage
simple role content = record {
  role = role;
  content = content;
  tool_call_id = none;
  tool_calls = [];
}

unfoldable pub data_uri : ImageSource → Text
data_uri s = text "data:" ++ (s.media_type ++ (text ";base64," ++ s.image_data))

module _ {V : Type 0} (render : V → Text) where
  abbrev pub is_tool_result : ContentBlock V → Bool
  is_tool_result (tool_result_block id content e) = true
  is_tool_result (text_block t) = false
  is_tool_result (tool_use_block id name input) = false
  is_tool_result (image_block s) = false

  -- The messages of role `tool`, and the images, of a group with a tool result.
  unfoldable pub tool_messages : List (ContentBlock V) → List WireMessage
  tool_messages [] = []
  tool_messages (tool_result_block id content e ∷ bs) =
      record {
        role = text "tool";
        content = text_content content;
        tool_call_id = some id;
        tool_calls = [];
      }
      ∷ tool_messages bs
  tool_messages (text_block t ∷ bs) = tool_messages bs
  tool_messages (tool_use_block id name input ∷ bs) = tool_messages bs
  tool_messages (image_block s ∷ bs) = tool_messages bs

  unfoldable pub image_parts : List (ContentBlock V) → List Part
  image_parts [] = []
  image_parts (image_block s ∷ bs) = image_part (data_uri s) ∷ image_parts bs
  image_parts (tool_result_block id content e ∷ bs) = image_parts bs
  image_parts (text_block t ∷ bs) = image_parts bs
  image_parts (tool_use_block id name input ∷ bs) = image_parts bs

  -- The message that hands the images on.
  abbrev pub image_message : List Part → List WireMessage
  image_message [] = []
  image_message (p ∷ ps) =
      simple (text "user")
        (parts_content (text_part (text "Tool returned the attached image:") ∷ p ∷ ps))
      ∷ []

  abbrev pub or_blank : List WireMessage → List WireMessage
  or_blank [] = simple (text "user") (text_content []) ∷ []
  or_blank (m ∷ ms) = m ∷ ms

  unfoldable pub result_messages : List (ContentBlock V) → List WireMessage
  unfolding tool_messages image_parts
  result_messages bs = or_blank (tool_messages bs ++ image_message (image_parts bs))

  unfoldable pub mixed_parts : List (ContentBlock V) → List Part
  mixed_parts [] = []
  mixed_parts (text_block t ∷ bs) = text_part t ∷ mixed_parts bs
  mixed_parts (image_block s ∷ bs) = image_part (data_uri s) ∷ mixed_parts bs
  mixed_parts (tool_result_block id content e ∷ bs) = mixed_parts bs
  mixed_parts (tool_use_block id name input ∷ bs) = mixed_parts bs

  unfoldable pub joined_text : List (ContentBlock V) → Text
  joined_text [] = []
  joined_text (text_block t ∷ bs) = t ++ joined_text bs
  joined_text (image_block s ∷ bs) = joined_text bs
  joined_text (tool_result_block id content e ∷ bs) = joined_text bs
  joined_text (tool_use_block id name input ∷ bs) = joined_text bs

  unfoldable pub wire_calls : List (ContentBlock V) → List WireCall
  wire_calls [] = []
  wire_calls (tool_use_block id name input ∷ bs) =
      record { id = id; name = name; arguments = render input } ∷ wire_calls bs
  wire_calls (text_block t ∷ bs) = wire_calls bs
  wire_calls (image_block s ∷ bs) = wire_calls bs
  wire_calls (tool_result_block id content e ∷ bs) = wire_calls bs

  unfoldable pub assistant_message : List (ContentBlock V) → WireMessage
  unfolding joined_text wire_calls
  assistant_message bs = record {
    role = text "assistant";
    content = if is_empty (joined_text bs) then null_content else text_content (joined_text bs);
    tool_call_id = none;
    tool_calls = wire_calls bs;
  }

  abbrev pub from_blocks : Text → List (ContentBlock V) → List WireMessage
  from_blocks role bs =
      if text_eq role (text "user")
      then (if any is_tool_result bs
          then result_messages bs
          else simple role (parts_content (mixed_parts bs)) ∷ [])
      else if text_eq role (text "assistant")
      then assistant_message bs ∷ []
      else simple role (text_content []) ∷ []

  -- A plain text has the same fields in every role.
  abbrev pub from_content : Text → MessageContent V → List WireMessage
  from_content role (plain t) = simple role (text_content t) ∷ []
  from_content role (blocks bs) = from_blocks role bs

  unfoldable pub to_openai_message : TransportMessage V → List WireMessage
  unfolding result_messages mixed_parts assistant_message
  to_openai_message m = from_content m.role m.content

  -- The whole conversation: each message is converted, and each of its messages to the wire.
  unfoldable pub openai_messages : List (TransportMessage V) → List WireMessage
  unfolding to_openai_message
  openai_messages [] = []
  openai_messages (m ∷ ms) = to_openai_message m ++ openai_messages ms

  unfoldable pub conversation_wire : List (Message V) → List WireMessage
  unfolding openai_messages to_transport_messages
  conversation_wire [] = []
  conversation_wire (m ∷ ms) = openai_messages (to_transport_messages m) ++ conversation_wire ms

  -- The messages of a request: the system prompt goes first.
  unfoldable pub request_messages : Text → List (Message V) → List WireMessage
  unfolding conversation_wire
  request_messages prompt ms = simple (text "system") (text_content prompt) ∷ conversation_wire ms
