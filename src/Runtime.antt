-- ===== src/Runtime.antt =====
-- crates/peko-core/src/runtime.rs: the agent's loop `run_task`.
--
-- Everything outside the loop is the world `W`: the session database, the clock, the tools' effects
-- and the tasks that run beside this one. A call that may change it and may fail is a `Run`. The
-- record `Agent` holds the runtime's fields and, as functions, the calls of other components.
pub mod Prompt
pub mod Calls
pub mod Rounds
pub mod Progress
pub mod Limits
pub mod Termination
pub mod Ends
pub mod Answers
pub mod Malformed
pub mod Handover
pub mod Tests
use peko_agent.Base.{
  ℕ, ◌≡◌, refl, Bool, true, false, Option, none, some, List, [], ◌∷◌, if◌then◌else◌,
}
use peko_agent.Base.Results.{Result, ok, err}
use peko_agent.Text.{Text, text}
use peko_agent.Budget.{IterationBudget, interrupt}
use peko_agent.Message.{ToolCall, ImageData, Message}
use peko_agent.Compressor.{ContextCompressor}
use peko_agent.Stream.{StreamEvent}
use peko_agent.Brain.{BrainChoice, DualBrain, SkillUse}
use peko_agent.Tools.{Registry}

abbrev pub Run : Type 0 → Type 0 → Type 0
Run W A = W → Result A Text × W

-- The unit of a call that returns nothing.
abbrev pub Done : Type 0
Done = Unit {0}

module _ {W : Type 0} where
  abbrev pub return : {A : Type 0} → A → Run W A
  return a w = (ok a, w)

  abbrev pub continue_with : {A B : Type 0} → Result A Text × W → (A → Run W B) → Result B Text × W
  continue_with (ok a, w) f = f a w
  continue_with (err e, w) f = (err e, w)

  -- `?`
  infixl 5 ◌>>=◌
  abbrev pub ◌>>=◌ : {A B : Type 0} → Run W A → (A → Run W B) → Run W B
  (m >>= f) w = continue_with (m w) f

  pub continue_with-eq-ok :
      {A B : Type 0} (r : Result A Text × W) (f : A → Run W B) {b : B} {w : W}
      → continue_with r f ≡ (ok b, w)
      → (a : A) × (v : W) × (r ≡ (ok a, v)) × (f a v ≡ (ok b, w))
  continue_with-eq-ok (ok a, v) f h = (a, v, refl, h)
  continue_with-eq-ok (err e, v) f h = cc

-- What the loop uses of `serde_json`. The text of `get_str` is the field's name.
pub record Json (V : Type 0) : Type 0 where
  pub empty_object : V
  pub from_str : Text → Result V Text
  pub parse_error : (error raw : Text) → V
  pub get_str : V → Text → Option Text

pub record Agent (V W : Type 0) : Type 0 where
  pub json : Json V
  pub render : V → Text
  pub lower : Text → Text
  pub tools : Registry V W
  pub compressor : ContextCompressor
  pub brain : Option DualBrain
  pub local_model_name : Text
  pub nudge_interval : ℕ
  pub search : W → Text → List SkillUse
  pub is_good_rate : ℕ → ℕ → Bool
  -- Whether `try_lock` got a skill store.
  pub skills_free : W → Bool
  pub system_prompt : W → Text
  -- What the stores add to the prompt of a first iteration. The outer option is whether there is a
  -- store, the inner one whether its lock was got.
  pub memory : Option (Text → W → Option Text)
  pub skills : Option (Text → W → Option Text)
  pub user_model : Option (W → Option Text)
  pub stream_completion :
      Option BrainChoice
      → (prompt : Text) → List (Message V)
      → (offer_escalation : Bool) → Run W (List StreamEvent)
  pub create_session : Text → Run W Text
  pub append_message : (session : Text) → Message V → Run W Done
  pub save_image : ImageData → W → Option Text × W
  pub append_tool_result :
      (session id name content : Text) (is_error : Bool) (image : Option Text) → Run W Done
  pub update_status : (session status : Text) (iterations : ℕ) → Run W Done
  pub record_tool_use : Text → W → W
  pub record_task : Text → ℕ → W → W
  pub iteration_hook : List (Message V) → ℕ → Text → W → W
  -- Whether another task has called `interrupt` since the last look.
  pub take_signal : W → Bool × W

-- The loop's variables, and the runtime's fields that it changes.
pub record Running (V : Type 0) : Type 0 where
  pub budget : IterationBudget
  pub active_brain : Option BrainChoice
  pub conversation : List (Message V)
  pub total_iterations : ℕ
  pub final_text : Text
  pub escalation_count : ℕ

pub record AgentResponse : Type 0 where
  pub response_text : Text
  pub iterations : ℕ
  pub session_id : Text

abbrev pub max_escalations : ℕ
max_escalations = 1

-- The flag is set by another task while this one waits.
abbrev pub signalled : {V W : Type 0} → Running V → Bool × W → Running V × W
signalled s (b, w) = (record s { budget = if b then interrupt s.budget else s.budget }, w)

unfoldable pub poll : {V W : Type 0} → Agent V W → Running V → W → Running V × W
poll agent s w = signalled s (agent.take_signal w)
