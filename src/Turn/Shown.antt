-- ===== src/Turn/Shown.antt =====
-- What the client of `run_turn` of crates/peko-core/src/runtime.rs sees of the model's answer.
use peko_agent.Base.{◌≡◌, refl, sym, ◌∙◌, ap, arith, List, [], ◌∷◌, ◌++◌, map}
use mathlib.Core.List.{append-nil, append_assoc}
use peko_agent.Base.Results.{Result, ok, err}
use peko_agent.Text.{Text}
use peko_agent.Stream.{
  StreamEvent, text_delta, tool_use_start, tool_input_delta, content_block_stop, message_delta,
  thinking_delta, message_start, content_block_start, message_stop, ping, Gathered, nothing_yet,
  on_event, on_events, gather, close_call,
}
use peko_agent.Runtime.{Json}
use peko_agent.Turn.{
  StreamCallback, text_sent, tool_start, tool_outcome, thinking, finish, failure, shown, turn_input,
  finalized, turn_event, stream_events, closed,
}

-- The text that was sent.
abbrev pub texts : List StreamCallback → Text
texts [] = []
texts (text_sent t ∷ cs) = t ++ texts cs
texts (tool_start n ∷ cs) = texts cs
texts (tool_outcome n c e i ∷ cs) = texts cs
texts (thinking t ∷ cs) = texts cs
texts (finish n i b ∷ cs) = texts cs
texts (failure t ∷ cs) = texts cs

texts-append : (cs ds : List StreamCallback) → texts (cs ++ ds) ≡ texts cs ++ texts ds
texts-append [] ds = refl
texts-append (text_sent t ∷ cs) ds =
    ap (λ z. t ++ z) (texts-append cs ds) ∙ sym (append_assoc t (texts cs) (texts ds))
texts-append (tool_start n ∷ cs) ds = texts-append cs ds
texts-append (tool_outcome n c e i ∷ cs) ds = texts-append cs ds
texts-append (thinking t ∷ cs) ds = texts-append cs ds
texts-append (finish n i b ∷ cs) ds = texts-append cs ds
texts-append (failure t ∷ cs) ds = texts-append cs ds

module _ {V : Type 0} (json : Json V) where
  finalized-text : (g : Gathered V) → (finalized json g).text_buffer ≡ g.text_buffer
  finalized-text g = ground arith

  turn_event-text :
      (g : Gathered V) (e : StreamEvent)
      → (turn_event json g e).text_buffer ≡ g.text_buffer ++ texts (shown e)
  unfolding turn_event shown
  turn_event-text g (text_delta t) = ap (λ z. g.text_buffer ++ z) (sym (append-nil t))
  turn_event-text g (tool_use_start id name) = sym (append-nil g.text_buffer)
  turn_event-text g (tool_input_delta t) = sym (append-nil g.text_buffer)
  turn_event-text g (content_block_stop index) = finalized-text g ∙ sym (append-nil g.text_buffer)
  turn_event-text g (message_delta n reason) =
      finalized-text (record g { stop_reason = reason }) ∙ sym (append-nil g.text_buffer)
  turn_event-text g (thinking_delta t) = sym (append-nil g.text_buffer)
  turn_event-text g (message_start id n) = sym (append-nil g.text_buffer)
  turn_event-text g (content_block_start index type) = sym (append-nil g.text_buffer)
  turn_event-text g message_stop = sym (append-nil g.text_buffer)
  turn_event-text g ping = sym (append-nil g.text_buffer)

  -- The text that is gathered is the text that is sent.
  abbrev pub InStep : Text → Gathered V × List StreamCallback → Type 0
  InStep before (g, sent) = texts sent ≡ before ++ g.text_buffer

  stream_events-InStep :
      (es : List (Result StreamEvent Text)) (before : Text) (g : Gathered V)
      (sent : List StreamCallback)
      → InStep before (g, sent)
      → InStep before (stream_events json es g sent)
  unfolding stream_events
  stream_events-InStep [] before g sent h = h
  stream_events-InStep (err e ∷ es) before g sent h =
      texts-append sent _ ∙ (append-nil (texts sent) ∙ h)
  stream_events-InStep (ok e ∷ es) before g sent h =
      stream_events-InStep es before (turn_event json g e) (sent ++ shown e) (
        texts-append sent (shown e)
        ∙ (ap (λ z. z ++ texts (shown e)) h
            ∙ (append_assoc before g.text_buffer (texts (shown e))
                ∙ ap (λ z. before ++ z) (sym (turn_event-text g e)))))

  closed-text : (g : Gathered V) → (closed json g).text_buffer ≡ g.text_buffer
  unfolding closed
  closed-text g = ground arith

  -- However the stream of an answer ends, the text that the client was sent for it is exactly the
  -- text of the answer that joins the conversation.
  pub stream_events-texts :
      (es : List (Result StreamEvent Text)) (sent : List StreamCallback)
      → let (g, after) = stream_events json es nothing_yet sent in
        texts after ≡ texts sent ++ (closed json g).text_buffer
  stream_events-texts es sent =
      let g = (stream_events json es nothing_yet sent).0 in
      stream_events-InStep es (texts sent) nothing_yet sent (sym (append-nil (texts sent)))
      ∙ ap (λ z. texts sent ++ z) (sym (closed-text g))

  -- The two loops treat an event in the same way.
  turn_event-on_event :
      (g : Gathered V) (e : StreamEvent) → turn_event json g e ≡ on_event (turn_input json) g e
  unfolding turn_event on_event close_call
  turn_event-on_event g (text_delta t) = refl
  turn_event-on_event g (tool_use_start id name) = refl
  turn_event-on_event g (tool_input_delta t) = refl
  turn_event-on_event g (content_block_stop index) = refl
  turn_event-on_event g (message_delta n reason) = refl
  turn_event-on_event g (thinking_delta t) = refl
  turn_event-on_event g (message_start id n) = refl
  turn_event-on_event g (content_block_start index type) = refl
  turn_event-on_event g message_stop = refl
  turn_event-on_event g ping = refl

  stream_events-on_events :
      (es : List StreamEvent) (g : Gathered V) (sent : List StreamCallback)
      → (stream_events json (map (λ e. ok e) es) g sent).0 ≡ on_events (turn_input json) g es
  unfolding stream_events on_events
  stream_events-on_events [] g sent = refl
  stream_events-on_events (e ∷ es) g sent =
      stream_events-on_events es (turn_event json g e) (sent ++ shown e)
      ∙ ap (λ z. on_events (turn_input json) z es) (turn_event-on_event g e)

  -- A stream without errors is gathered into the same text and calls by this loop as by that of
  -- `run_task`, when the texts of the inputs are read in the same way.
  pub stream_events-gather :
      (es : List StreamEvent) (sent : List StreamCallback)
      → closed json (stream_events json (map (λ e. ok e) es) nothing_yet sent).0
        ≡ gather (turn_input json) es
  unfolding closed gather
  stream_events-gather es sent =
      ap (λ g. closed json g) (stream_events-on_events es nothing_yet sent)
