-- ===== src/Wire/Kept.antt =====
-- What of a conversation a request in the OpenAI format carries.
use peko_agent.Base.{
  ◌≡◌, refl, sym, ◌∙◌, ap, Bool, true, false, if◌then◌else◌, Option, none, some, List, [], ◌∷◌,
  ◌++◌, map,
}
use mathlib.Core.List.{append-nil, append_assoc}
use peko_agent.Text.{Text, text, text_eq, is_empty}
use peko_agent.Message.{ToolCall, ImageData, Message, system, user, assistant, tool_result}
use peko_agent.Wire.{
  WireMessage, WireCall, WireContent, null_content, text_content, parts_content, Part, text_part,
  image_part, data_uri, call_blocks, to_transport_messages, wire_calls, joined_text,
  openai_messages, conversation_wire, request_messages,
}

-- A call, a result or an image, as a model is to see it.
pub data Entry : Type 0 where
  called : WireCall → Entry
  resulted : (id content : Text) → Entry
  pictured : (uri : Text) → Entry

abbrev pub picture_of : Option ImageData → List Entry
picture_of none = []
picture_of (some i) =
    pictured (
      data_uri
        (record { source_type = text "base64"; media_type = i.media_type; image_data = i.base64 }))
    ∷ []

module _ {V : Type 0} (render : V → Text) where
  abbrev pub wire_call : ToolCall V → WireCall
  wire_call tc = record { id = tc.id; name = tc.name; arguments = render tc.input }

  -- The calls, the results and the images of a conversation, in order.
  abbrev pub entries_of : Message V → List Entry
  entries_of (system t) = []
  entries_of (user t) = []
  entries_of (assistant t calls) = map (λ tc. called (wire_call tc)) calls
  entries_of (tool_result id name content e image) = resulted id content ∷ picture_of image

  abbrev pub transcript : List (Message V) → List Entry
  transcript [] = []
  transcript (m ∷ ms) = entries_of m ++ transcript ms

-- The same, read from the messages on the wire.
abbrev pub result_in : Option Text → WireContent → List Entry
result_in (some id) (text_content t) = resulted id t ∷ []
result_in (some id) null_content = []
result_in (some id) (parts_content ps) = []
result_in none c = []

abbrev pub pictures : List Part → List Entry
pictures [] = []
pictures (text_part t ∷ ps) = pictures ps
pictures (image_part u ∷ ps) = pictured u ∷ pictures ps

abbrev pub pictures_in : WireContent → List Entry
pictures_in null_content = []
pictures_in (text_content t) = []
pictures_in (parts_content ps) = pictures ps

abbrev pub entries_in : WireMessage → List Entry
entries_in m =
    map called m.tool_calls ++ (result_in m.tool_call_id m.content ++ pictures_in m.content)

abbrev pub wire_transcript : List WireMessage → List Entry
wire_transcript [] = []
wire_transcript (m ∷ ms) = entries_in m ++ wire_transcript ms

wire_transcript-append :
    (ms ns : List WireMessage)
    → wire_transcript (ms ++ ns) ≡ wire_transcript ms ++ wire_transcript ns
wire_transcript-append [] ns = refl
wire_transcript-append (m ∷ ms) ns =
    ap (λ z. entries_in m ++ z) (wire_transcript-append ms ns)
    ∙ sym (append_assoc (entries_in m) (wire_transcript ms) (wire_transcript ns))

module _ {V : Type 0} (render : V → Text) where
  wire_calls-call_blocks :
      (tcs : List (ToolCall V))
      → map called (wire_calls render (call_blocks tcs))
        ≡ map (λ tc. called (wire_call render tc)) tcs
  unfolding wire_calls call_blocks
  wire_calls-call_blocks [] = refl
  wire_calls-call_blocks (tc ∷ tcs) =
      ap (λ z. called (wire_call render tc) ∷ z) (wire_calls-call_blocks tcs)

  -- The calls are followed by no image, whatever the text.
  calls-kept :
      (tcs : List (ToolCall V)) (b : Bool) (t : Text)
      → (map called (wire_calls render (call_blocks tcs))
            ++ pictures_in (if b then null_content else text_content t))
          ++ []
        ≡ map (λ tc. called (wire_call render tc)) tcs
  calls-kept tcs true t = append-nil _ ∙ (append-nil _ ∙ wire_calls-call_blocks tcs)
  calls-kept tcs false t = append-nil _ ∙ (append-nil _ ∙ wire_calls-call_blocks tcs)

  message-entries :
      (m : Message V)
      → wire_transcript (openai_messages render (to_transport_messages m)) ≡ entries_of render m
  unfolding openai_messages to_transport_messages text_eq
  message-entries (system t) = refl
  message-entries (user t) = refl
  message-entries (assistant none []) = refl
  message-entries (assistant (some t) []) = refl
  message-entries (assistant none (tc ∷ tcs)) =
      ap (λ z. called (wire_call render tc) ∷ z)
        (calls-kept tcs (is_empty (joined_text render (call_blocks tcs)))
          (joined_text render (call_blocks tcs)))
  message-entries (assistant (some t) (tc ∷ tcs)) =
      ap (λ z. called (wire_call render tc) ∷ z)
        (calls-kept tcs (is_empty (t ++ joined_text render (call_blocks tcs)))
          (t ++ joined_text render (call_blocks tcs)))
  message-entries (tool_result id name content e none) = refl
  message-entries (tool_result id name content e (some image)) = refl

  transcript-kept :
      (ms : List (Message V)) → wire_transcript (conversation_wire render ms) ≡ transcript render ms
  unfolding conversation_wire
  transcript-kept [] = refl
  transcript-kept (m ∷ ms) =
      wire_transcript-append (openai_messages render (to_transport_messages m)) _
      ∙ (ap (λ z. z ++ wire_transcript (conversation_wire render ms)) (message-entries m)
          ∙ ap (λ z. entries_of render m ++ z) (transcript-kept ms))

  -- The messages of a request carry exactly the tool calls, the results and the images of the
  -- conversation, in the conversation's order: each call with its id, name and arguments, each
  -- result with its id and text, each image as its data URI.
  pub request_messages-transcript :
      (prompt : Text) (ms : List (Message V))
      → wire_transcript (request_messages render prompt ms) ≡ transcript render ms
  unfolding request_messages
  request_messages-transcript prompt ms = transcript-kept ms
