-- ===== src/Message.antt =====
-- crates/peko-core/src/message.rs. The JSON value of a tool call is `serde_json`'s, a type `V` with
-- its text `render`.
use peko_agent.Base.{ℕ, ◌+◌, ◌/◌, Bool, Option, none, some, List, [], ◌∷◌, map}
use peko_agent.Text.{Text, len}

pub record ToolCall (V : Type 0) : Type 0 where
  pub id : Text
  pub name : Text
  pub input : V

pub record ImageData : Type 0 where
  pub base64 : Text
  pub media_type : Text

pub data Message (V : Type 0) : Type 0 where
  system : Text → Message V
  user : Text → Message V
  assistant : Option Text → List (ToolCall V) → Message V
  tool_result : (tool_use_id name content : Text) → (is_error : Bool) → Option ImageData → Message V

abbrev pub sum : List ℕ → ℕ
sum [] = 0
sum (n ∷ ns) = n + sum ns

module _ {V : Type 0} (render : V → Text) where
  unfoldable pub call_tokens : ToolCall V → ℕ
  call_tokens tc = (len tc.name + len (render tc.input)) / 4

  -- `map(|t| t.len() / 4).unwrap_or(0)`
  unfoldable pub text_tokens : Option Text → ℕ
  text_tokens none = 0
  text_tokens (some t) = len t / 4

  unfoldable pub image_tokens : Option ImageData → ℕ
  image_tokens none = 0
  image_tokens (some i) = len i.base64 / 4

  unfoldable pub estimated_tokens : Message V → ℕ
  unfolding call_tokens text_tokens image_tokens
  estimated_tokens (system t) = len t / 4
  estimated_tokens (user t) = len t / 4
  estimated_tokens (assistant t calls) = text_tokens t + sum (map call_tokens calls)
  estimated_tokens (tool_result i n content e image) = len content / 4 + image_tokens image
