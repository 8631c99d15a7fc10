-- ===== src/Wire/Read.antt =====
-- The documented events of the Anthropic format against the reader of
-- crates/peko-transport/src/anthropic.rs.
use peko_agent.Base.{◌≡◌, refl, ap, ◌∙◌, Option, none, some, List, [], ◌∷◌}
use peko_agent.Text.{Text, text, text_eq}
use peko_agent.Sse.{SseEvent}
use peko_agent.Stream.{StreamEvent, StopReason}
use peko_agent.Wire.Anthropic.{Value, reason_of, event_of, parse_event, parse_events, push_some}
use peko_agent.Wire.Documented.{
  HasText, Means, turn_ended, tool_used, tokens_spent, sequence_met, another, Documents,
  message_starts, text_starts, thinking_starts, tool_starts, text_comes, input_comes,
  thinking_comes, block_stops, message_changes, message_stops, pings, IsPassedOver, error_comes,
  signature_comes, at-Has,
}

reason_of-Means : {t : Text} {reason : StopReason} → Means t reason → reason_of t ≡ reason
unfolding reason_of text_eq
reason_of-Means turn_ended = refl
reason_of-Means tool_used = refl
reason_of-Means tokens_spent = refl
reason_of-Means sequence_met = refl
reason_of-Means (another a b c d) = rw (a, b, c, d) refl

event_of-Documents :
    {name : Text} {v : Value} {e : StreamEvent} → Documents name v e → event_of name v ≡ some e
unfolding event_of text_eq
event_of-Documents (message_starts m i u n) = rw (at-Has m, at-Has i, at-Has u, at-Has n) refl
event_of-Documents (text_starts i b t) = rw (at-Has i, at-Has b, at-Has t) refl
event_of-Documents (thinking_starts i b t) = rw (at-Has i, at-Has b, at-Has t) refl
event_of-Documents (tool_starts i b t d n) =
    rw (at-Has i, at-Has b, at-Has t, at-Has d, at-Has n) refl
event_of-Documents (text_comes i d t x) = rw (at-Has d, at-Has t, at-Has x) refl
event_of-Documents (input_comes i d t x) = rw (at-Has d, at-Has t, at-Has x) refl
event_of-Documents (thinking_comes i d t x) = rw (at-Has d, at-Has t, at-Has x) refl
event_of-Documents (block_stops i) = rw (at-Has i) refl
event_of-Documents (message_changes d s r u n) =
    rw (at-Has d, at-Has s, at-Has u, at-Has n, reason_of-Means r) refl
event_of-Documents message_stops = refl
event_of-Documents pings = refl

event_of-IsPassedOver : {name : Text} {v : Value} → IsPassedOver name v → event_of name v ≡ none
unfolding event_of text_eq
event_of-IsPassedOver (error_comes e) = refl
event_of-IsPassedOver (signature_comes i d t) = rw (at-Has d, at-Has t) refl

module _ (from_str : Text → Option Value) where
  -- A server-sent event whose data is a value of the type that the event's name says.
  pub record Carries (s : SseEvent) (name : Text) (v : Value) : Type 0 where
    pub named : s.event ≡ some name
    pub valued : from_str s.payload ≡ some v
    pub typed : HasText (text "type") name v

  -- A run of server-sent events that the format documents, and the events that they stand for.
  pub data AllWrite : List SseEvent → List StreamEvent → Type 0 where
    done : AllWrite [] []
    then_one :
        {s : SseEvent} {e : StreamEvent} {ss : List SseEvent} {es : List StreamEvent} {name : Text}
        {v : Value}
        → Carries s name v
        → Documents name v e
        → AllWrite ss es
        → AllWrite (s ∷ ss) (e ∷ es)
    then_none :
        {s : SseEvent} {ss : List SseEvent} {es : List StreamEvent} {name : Text} {v : Value}
        → Carries s name v
        → IsPassedOver name v
        → AllWrite ss es
        → AllWrite (s ∷ ss) es

  parse_event-Carries :
      {s : SseEvent} {name : Text} {v : Value}
      → Carries s name v
      → parse_event from_str s ≡ event_of name v
  unfolding parse_event
  parse_event-Carries c = rw (c.named, c.valued) refl

  -- Server-sent events whose data is as the format documents it, with its fields in any order and
  -- any others beside them, are read as exactly the events that they stand for, in order; those of
  -- an error and of a signature as nothing.
  pub parse_events-AllWrite :
      {ss : List SseEvent} {es : List StreamEvent} → AllWrite ss es → parse_events from_str ss ≡ es
  unfolding parse_events
  parse_events-AllWrite done = refl
  parse_events-AllWrite (then_one {e} {ss} c d a) =
      ap (λ z. push_some z (parse_events from_str ss))
        (parse_event-Carries c ∙ event_of-Documents d)
      ∙ ap (λ z. e ∷ z) (parse_events-AllWrite a)
  parse_events-AllWrite (then_none {ss} c d a) =
      ap (λ z. push_some z (parse_events from_str ss))
        (parse_event-Carries c ∙ event_of-IsPassedOver d)
      ∙ parse_events-AllWrite a
