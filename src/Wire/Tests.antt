-- ===== src/Wire/Tests.antt =====
-- Messages and events of crates/peko-transport on their way to and from the wire.
use peko_agent.Base.{◌≡◌, refl, false, Option, none, some, List, [], ◌∷◌, if◌then◌else◌}
use peko_agent.Text.{Text, text, text_eq}
use peko_agent.Message.{Message, user, assistant, tool_result}
use peko_agent.Sse.{SseEvent}
use peko_agent.Stream.{message_start, text_delta}
use peko_agent.Wire.{request_messages}
use peko_agent.Wire.Kept.{transcript, wire_transcript, request_messages-transcript}
use peko_agent.Wire.Anthropic.{
  Value, Fields, null, number, string, array, object, no_item, end, field, parse_events,
}
use peko_agent.Wire.Documented.{has, here, later, message_starts, text_comes, error_comes}
use peko_agent.Wire.Read.{done, then_one, then_none, parse_events-AllWrite}

-- Inputs are shown by their own text.
abbrev shown : Text → Text
shown t = t

abbrev screenshot_chat : List (Message Text)
screenshot_chat =
    user (text "what is on the screen")
    ∷ assistant none (record { id = text "1"; name = text "screenshot"; input = text "{}" } ∷ [])
    ∷ tool_result (text "1") (text "screenshot") (text "captured") false
        (some (record { base64 = text "AAAA"; media_type = text "image/png" }))
    ∷ []

request_messages-transcript_example :
    wire_transcript (request_messages shown (text "You are an agent.") screenshot_chat)
    ≡ transcript shown screenshot_chat
request_messages-transcript_example =
    request_messages-transcript shown (text "You are an agent.") screenshot_chat

abbrev message_fields : Fields
message_fields = field (text "id") (string (text "msg_1")) (
    field (text "type") (string (text "message")) (
      field (text "role") (string (text "assistant")) (
        field (text "content") (array no_item) (
          field (text "model") (string (text "claude")) (
            field (text "stop_reason") null (
              field (text "stop_sequence") null (
                field (text "usage")
                  (object (
                    field (text "output_tokens") (number 1)
                      (field (text "input_tokens") (number 25) end)))
                  end)))))))

-- The data of a message that starts, of a text that comes and of an error, with all their fields.
abbrev start_data : Value
start_data = object (
    field (text "type") (string (text "message_start"))
      (field (text "message") (object message_fields) end))

abbrev text_data : Value
text_data = object (
    field (text "type") (string (text "content_block_delta")) (
      field (text "index") (number 0) (
        field (text "delta")
          (object (
            field (text "type") (string (text "text_delta"))
              (field (text "text") (string (text "hi")) end)))
          end)))

abbrev error_data : Value
error_data = object (
    field (text "type") (string (text "error")) (
      field (text "error")
        (object (
          field (text "type") (string (text "overloaded_error"))
            (field (text "message") (string (text "Overloaded")) end)))
        end))

-- A reader that knows three texts.
abbrev reader : Text → Option Value
reader t =
    if text_eq t (text "start")
    then some start_data
    else if text_eq t (text "hi")
    then some text_data
    else if text_eq t (text "error")
    then some error_data
    else none

abbrev sent_as : Text → Text → SseEvent
sent_as name payload = record { event = some name; payload = payload; id = none }

parse_events-AllWrite_example :
    parse_events reader (
      sent_as (text "message_start") (text "start")
      ∷ sent_as (text "content_block_delta") (text "hi")
      ∷ sent_as (text "error") (text "error")
      ∷ [])
    ≡ message_start (text "msg_1") 25 ∷ text_delta (text "hi") ∷ []
unfolding text_eq
parse_events-AllWrite_example = parse_events-AllWrite reader (
    then_one (record { named = refl; valued = refl; typed = has here })
      (message_starts (has (later refl here)) (has here)
        (has (
          later refl
            (later refl (later refl (later refl (later refl (later refl (later refl here))))))))
        (has (later refl here)))
      (then_one (record { named = refl; valued = refl; typed = has here })
        (text_comes {i = 0} (has (later refl here)) (has (later refl (later refl here))) (has here)
          (has (later refl here)))
        (then_none (record { named = refl; valued = refl; typed = has here })
          (error_comes (has (later refl here))) done)))
