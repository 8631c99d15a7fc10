-- ===== src/Turn/Answered.antt =====
-- The results of the tool calls in `run_turn` of crates/peko-core/src/runtime.rs.
use peko_agent.Base.{
  ◌≡◌, refl, sym, ◌∙◌, ap, subst, if◌then◌else◌, Bool, Option, none, some, List, [], ◌∷◌, ◌++◌, map,
}
use mathlib.Core.List.{append-nil, append_assoc}
use peko_agent.Base.Results.{ok}
use peko_agent.Text.{Text}
use peko_agent.Message.{ToolCall, Message, system, user, assistant, tool_result}
use peko_agent.Tools.{ToolResult}
use peko_agent.Tools
use peko_agent.Runtime.{Done, continue_with-eq-ok, Agent}
use peko_agent.Runtime.Calls.{settled, result_message}
use peko_agent.Turn.{
  StreamCallback, text_sent, tool_start, tool_outcome, thinking, finish, failure, Turning, kept,
  saved, store, with_result, turn_call, turn_calls,
}

-- A tool's result, in the conversation and at the client.
pub record Shown : Type 0 where
  pub name : Text
  pub content : Text
  pub is_error : Bool

abbrev pub in_conversation : {V : Type 0} → Message V → Option (Text × Shown)
in_conversation (tool_result id name content e image) =
    some (id, record { name = name; content = content; is_error = e })
in_conversation (system t) = none
in_conversation (user t) = none
in_conversation (assistant t calls) = none

abbrev pub at_client : StreamCallback → Option Shown
at_client (tool_outcome name content e image) =
    some (record { name = name; content = content; is_error = e })
at_client (text_sent t) = none
at_client (tool_start n) = none
at_client (thinking t) = none
at_client (finish n i b) = none
at_client (failure t) = none

-- The conversation and the client got one result for each of the ids, in order, and the same.
pub record AreAnswered {V : Type 0} (s t : Turning V) (ids : List Text) : Type 0 where
  pub results : List (Text × Shown)
  pub added : List (Message V)
  pub events : List StreamCallback
  pub grows : t.conversation ≡ s.conversation ++ added
  pub sends : t.sent ≡ s.sent ++ events
  pub messages : map in_conversation added ≡ map (λ r. some r) results
  pub shown : map at_client events ≡ map (λ r. some r.1) results
  pub in_order : map (λ r. r.0) results ≡ ids

AreAnswered-refl : {V : Type 0} (s : Turning V) → AreAnswered s s []
AreAnswered-refl s = record {
  results = [];
  added = [];
  events = [];
  grows = sym (append-nil s.conversation);
  sends = sym (append-nil s.sent);
  messages = refl;
  shown = refl;
  in_order = refl;
}

AreAnswered-cons :
    {V : Type 0} {s t u : Turning V} {ids : List Text} (id : Text) (r : Shown) (m : Message V)
    (c : StreamCallback)
    → t.conversation ≡ s.conversation ++ (m ∷ [])
    → t.sent ≡ s.sent ++ (c ∷ [])
    → in_conversation m ≡ some (id, r)
    → at_client c ≡ some r
    → AreAnswered t u ids
    → AreAnswered s u (id ∷ ids)
AreAnswered-cons {s = s} id r m c e f p q a = record {
  results = (id, r) ∷ a.results;
  added = m ∷ a.added;
  events = c ∷ a.events;
  grows = a.grows ∙ (ap (λ z. z ++ a.added) e ∙ append_assoc s.conversation (m ∷ []) a.added);
  sends = a.sends ∙ (ap (λ z. z ++ a.events) f ∙ append_assoc s.sent (c ∷ []) a.events);
  messages = rw (p, a.messages) refl;
  shown = rw (q, a.shown) refl;
  in_order = ap (λ z. id ∷ z) a.in_order;
}

module _ {V W : Type 0} (agent : Agent V W) (input session : Text) where
  kept-state :
      {S A : Type 0} (s : S) (r : A × W) {a : A} {t : S} {v : W} → kept s r ≡ (a, (t, v)) → t ≡ s
  kept-state s (r, w) h = cc

  -- If the calls of an answer are carried out without an error of the session, then each call adds
  -- exactly one result with its id to the conversation, in order, and the client is sent exactly
  -- these results, in the same order.
  pub turn_calls-AreAnswered :
      (tcs : List (ToolCall V)) (s t : Turning V) (w v : W) (d : Done)
      → turn_calls agent input session tcs (s, w) ≡ (ok d, (t, v))
      → AreAnswered s t (map (λ tc. tc.id) tcs)
  unfolding turn_calls turn_call result_message
  turn_calls-AreAnswered [] s t w v d h =
      let q : s ≡ t = cc in subst (λ z. AreAnswered s z []) q (AreAnswered-refl s)
  turn_calls-AreAnswered (tc ∷ tcs) s t w v d h =
      let (a, (u, w1), p, k) =
        continue_with-eq-ok (turn_call agent input session tc (s, w))
          (λ _. turn_calls agent input session tcs) h in
      let (r, w2) = settled agent input session (Tools.execute agent.tools tc.name tc.input w) in
      let (url, w3) =
        saved agent input session r.image
          (if r.is_error then w2 else agent.record_tool_use tc.name w2) in
      let q : u ≡ with_result agent input session tc r url s =
        kept-state (with_result agent input session tc r url s)
          (store agent input session tc r url r.image w3) p in
      AreAnswered-cons tc.id (record { name = tc.name; content = r.content; is_error = r.is_error })
        (result_message agent input session tc r) (tool_outcome tc.name r.content r.is_error url)
        (ap (λ z. z.conversation) q) (ap (λ z. z.sent) q) refl refl
        (turn_calls-AreAnswered tcs u t w1 v d k)
