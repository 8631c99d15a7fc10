-- ===== src/Brain.antt =====
-- crates/peko-core/src/brain.rs: which of the two models a task goes to.
--
-- `lower` is the standard library's `to_lowercase`, which follows Unicode's tables; `search` is the
-- skill store's search, and `is_good_rate` its comparison of a success rate, an `f32`, with the
-- threshold.
pub mod Routing
use peko_agent.Base.{
  ℕ, ◌+◌, Bool, true, false, ◌&&◌, ◌||◌, not, Option, none, some, List, [], ◌∷◌, ◌++◌, ltb, leb,
  any, if◌then◌else◌,
}
use mathlib.Core.Option
use peko_agent.Text.{Text, text, len, starts_with, contains, slice_to, is_empty}

pub data BrainChoice : Type 0 where
  local cloud : BrainChoice

pub data BrainMode : Type 0 where
  dual local_only cloud_only : BrainMode

unfoldable pub supports_escalation : BrainMode → Bool
supports_escalation dual = true
supports_escalation local_only = false
supports_escalation cloud_only = false

pub record DualBrain : Type 0 where
  pub mode : BrainMode
  pub simple_max_len : ℕ

-- What the search tells of a skill.
pub record SkillUse : Type 0 where
  pub success_count : ℕ
  pub fail_count : ℕ

abbrev pub simple_prefixes : List Text
simple_prefixes =
    text "open "
    ∷ text "launch "
    ∷ text "close "
    ∷ text "stop "
    ∷ text "tap "
    ∷ text "click "
    ∷ text "press "
    ∷ text "swipe "
    ∷ text "go to "
    ∷ text "navigate to "
    ∷ text "type "
    ∷ text "enter "
    ∷ text "input "
    ∷ text "take a screenshot"
    ∷ text "screenshot"
    ∷ text "what time"
    ∷ text "what day"
    ∷ text "what date"
    ∷ text "show "
    ∷ text "list "
    ∷ text "check "
    ∷ text "turn on "
    ∷ text "turn off "
    ∷ text "enable "
    ∷ text "disable "
    ∷ text "set "
    ∷ text "change "
    ∷ text "switch "
    ∷ text "install "
    ∷ text "uninstall "
    ∷ text "update "
    ∷ text "call "
    ∷ text "send sms"
    ∷ text "send message"
    ∷ text "play "
    ∷ text "pause "
    ∷ text "next "
    ∷ text "previous "
    ∷ text "volume up"
    ∷ text "volume down"
    ∷ text "mute"
    ∷ text "go back"
    ∷ text "go home"
    ∷ text "recent apps"
    ∷ text "scroll up"
    ∷ text "scroll down"
    ∷ text "wifi "
    ∷ text "bluetooth "
    ∷ text "brightness "
    ∷ []

abbrev pub complex_markers : List Text
complex_markers =
    text "explain"
    ∷ text "analyze"
    ∷ text "compare"
    ∷ text "debug"
    ∷ text "investigate"
    ∷ text "write a"
    ∷ text "create a"
    ∷ text "build a"
    ∷ text "design"
    ∷ text "how do"
    ∷ text "how can"
    ∷ text "how should"
    ∷ text "why does"
    ∷ text "why is"
    ∷ text "what if"
    ∷ text "what would"
    ∷ text "step by step"
    ∷ text "in detail"
    ∷ text "multiple"
    ∷ text "several"
    ∷ text "all the"
    ∷ text "and then"
    ∷ text "after that"
    ∷ text "finally"
    ∷ []

-- The task as the log line of `classify` shows it. `none` is the panic of a slice inside a character.
unfoldable pub truncate : Text → ℕ → Option Text
truncate s max =
    if leb (len s) max then some s else Option.map (λ t. t ++ text "...") (slice_to max s)

module _ (lower : Text → Text) (search : Text → List SkillUse) (is_good_rate : ℕ → ℕ → Bool) where
  unfoldable pub is_simple_task : DualBrain → Text → Bool
  is_simple_task b input =
      if ltb b.simple_max_len (len input)
      then false
      else if any (λ p. starts_with p (lower input)) simple_prefixes
      then true
      else ltb (len input) 50 && not (any (λ m. contains m (lower input)) complex_markers)

  unfoldable pub has_good_skill : Text → Bool
  has_good_skill input =
      any (λ s. leb 2 (s.success_count + s.fail_count) && is_good_rate s.success_count s.fail_count)
        (search input)

  -- The choice, before its log line. `with_skills` tells whether a skill store was passed.
  unfoldable pub route : DualBrain → Bool → Text → BrainChoice
  route b with_skills input = elim b.mode [
    | local_only ↦ local
    | cloud_only ↦ cloud
    | dual ↦
        if with_skills && has_good_skill input
        then local
        else if is_simple_task b input
        then local
        else cloud
  ]

  -- Each return of `classify` logs the truncated task first.
  unfoldable pub classify : DualBrain → Bool → Text → Option BrainChoice
  classify b with_skills input = Option.map (λ _. route b with_skills input) (truncate input 60)

-- `build_escalation_context`
unfoldable pub build_escalation_context : Text → Text → Option Text → Text → Text
build_escalation_context original_input reason analysis local_model =
    text "[Escalated from local model ("
    ++ (local_model
        ++ (text ")]\nReason: "
            ++ (reason
                ++ (text "\nOriginal task: "
                    ++ (original_input
                        ++ (elim analysis [
                          | none ↦ []
                          | some a ↦
                              if is_empty a then [] else text "\n\nLocal model's analysis:\n" ++ a
                        ]
                            ++ text
                                "\n\nPlease complete this task. The local model's analysis above may be helpful context."))))))
