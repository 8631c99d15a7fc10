-- ===== src/Turn/Errors.antt =====
-- Where the errors of `run_turn` of crates/peko-core/src/runtime.rs come from: the calls of the session.
use peko_agent.Base.{ℕ, ◌+◌, ◌≡◌, refl, Bool, true, false, Option, none, some, List, [], ◌∷◌}
use peko_agent.Base.Results.{Result, ok, err}
use peko_agent.Text.{Text}
use peko_agent.Budget.{IterationBudget, BudgetExhausted, decrement}
use peko_agent.Message.{ToolCall, Message, ImageData}
use peko_agent.Tools.{ToolResult}
use peko_agent.Brain.{BrainChoice}
use peko_agent.Stream.{StreamEvent, Gathered, nothing_yet, answer}
use peko_agent.Runtime.{Agent, continue_with}
use peko_agent.Runtime.Rounds.{is_final}
use peko_agent.Turn.{Turning, address, store, stream_events, closed, turn_call, turn_calls}
use peko_agent.Turn.Rounds.{
  Provider, spent, end_round, decided, act, heard, receive, replied, ask, unless_stopped, round,
}

module _ {V W : Type 0} (agent : Agent V W) (session : Text) where
  -- A call of the session, in some world, returned the error.
  pub data IsSessionError (e : Text) : Type 0 where
    appending :
        (m : Message V) (w : W) → (agent.append_message session m w).0 ≡ err e → IsSessionError e
    storing :
        (id name content : Text) (is_error : Bool) (url : Option Text) (w : W)
        → (agent.append_tool_result session id name content is_error url w).0 ≡ err e
        → IsSessionError e
    updating :
        (status : Text) (iterations : ℕ) (w : W)
        → (agent.update_status session status iterations w).0 ≡ err e
        → IsSessionError e

  -- The result is no error, or one of the session.
  abbrev pub OnlySession : {A : Type 0} → Result A Text → Type 0
  OnlySession (ok a) = Unit {0}
  OnlySession (err e) = IsSessionError e

  from_errors :
      {A : Type 0} (r : Result A Text) → ((e : Text) → r ≡ err e → IsSessionError e) → OnlySession r
  from_errors (ok a) f = tt
  from_errors (err e) f = f e refl

  pub append_message-OnlySession :
      (m : Message V) (w : W) → OnlySession (agent.append_message session m w).0
  append_message-OnlySession m w = from_errors _ (λ e h. appending m w h)

  pub update_status-OnlySession :
      (status : Text) (n : ℕ) (w : W) → OnlySession (agent.update_status session status n w).0
  update_status-OnlySession status n w = from_errors _ (λ e h. updating status n w h)

  continue_with-OnlySession :
      {A B S : Type 0} (r : Result A Text × S) (f : A → S → Result B Text × S)
      → OnlySession r.0
      → ((a : A) (s : S) → OnlySession (f a s).0)
      → OnlySession (continue_with r f).0
  continue_with-OnlySession (ok a, s) f p q = q a s
  continue_with-OnlySession (err e, s) f p q = p

  module _ (input : Text) where
    store-OnlySession :
        (tc : ToolCall V) (r : ToolResult) (url : Option (Text × Text)) (o : Option ImageData)
        (w : W)
        → OnlySession (store agent input session tc r url o w).0
    store-OnlySession tc r url none w = append_message-OnlySession _ w
    store-OnlySession tc r url (some image) w =
        from_errors _
          (λ e h. storing tc.id tc.name r.content r.is_error (address agent input session url) w h)

    turn_calls-OnlySession :
        (tcs : List (ToolCall V)) (s : Turning V) (w : W)
        → OnlySession (turn_calls agent input session tcs (s, w)).0
    unfolding turn_calls turn_call
    turn_calls-OnlySession [] s w = tt
    turn_calls-OnlySession (tc ∷ tcs) s w =
        continue_with-OnlySession (turn_call agent input session tc (s, w))
          (λ _. turn_calls agent input session tcs) (store-OnlySession tc _ _ _ _)
          (λ _ t. turn_calls-OnlySession tcs t.0 t.1)

    module _ (stream : Provider V W) (active : Option BrainChoice) where
      spent-OnlySession :
          (s : Turning V) (r : IterationBudget × Result ℕ BudgetExhausted) (w : W)
          → OnlySession (spent s r w).0
      spent-OnlySession s (b, ok n) w = tt
      spent-OnlySession s (b, err x) w = tt

      end_round-OnlySession :
          (s : Turning V) (w : W)
          → OnlySession (end_round agent stream active input session (s, w)).0
      unfolding end_round
      end_round-OnlySession s w =
          let t : Turning V = record s { total_iterations = s.total_iterations + 1 } in
          spent-OnlySession t (decrement t.budget) w

      decided-OnlySession :
          (final : Bool) (g : Gathered V) (s : Turning V) (w : W)
          → OnlySession (decided agent stream active input session final g (s, w)).0
      decided-OnlySession true g s w = tt
      decided-OnlySession false g s w =
          continue_with-OnlySession (turn_calls agent input session g.tool_calls (s, w))
            (λ _. end_round agent stream active input session)
            (turn_calls-OnlySession g.tool_calls s w) (λ _ t. end_round-OnlySession t.0 t.1)

      replied-OnlySession :
          (r : Result (List (Result StreamEvent Text)) Text) (s : Turning V) (w : W)
          → OnlySession (replied agent stream active input session (r, (s, w))).0
      unfolding receive act
      replied-OnlySession (ok events) s w =
          let g = stream_events agent.json events nothing_yet s.sent in
          let m = answer (closed agent.json g.0) in
          continue_with-OnlySession
            (
              (agent.append_message session m w).0,
              (heard agent stream active input session g s, (agent.append_message session m w).1),
            )
            (λ _. act agent stream active input session (closed agent.json g.0))
            (append_message-OnlySession m w)
            (λ _ t.
              decided-OnlySession (is_final (closed agent.json g.0)) (closed agent.json g.0) t.0
                t.1)
      replied-OnlySession (err e) s w = tt

      unless_stopped-OnlySession :
          (b : Bool) (s : Turning V) (w : W)
          → OnlySession (unless_stopped agent stream active input session b (s, w)).0
      unfolding ask
      unless_stopped-OnlySession true s w = tt
      unless_stopped-OnlySession false s w = replied-OnlySession _ _ _

      pub round-OnlySession :
          (s : Turning V) (w : W) → OnlySession (round agent stream active input session (s, w)).0
      unfolding round
      round-OnlySession s w = unless_stopped-OnlySession _ _ _
