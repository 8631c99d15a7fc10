-- ===== src/Runtime/Prompt.antt =====
-- The system prompt that the loop builds for one iteration.
use peko_agent.Base.{
  ℕ, ◌%◌, Bool, true, false, ◌&&◌, Option, none, some, [], ◌++◌, ltb, ◌==◌, if◌then◌else◌,
}
use peko_agent.Text.{Text, text, is_empty}
use peko_agent.Runtime.{Agent}

abbrev pub memory_nudge : Text
memory_nudge =
    text
      "\n\n[Memory Nudge] Consider:\n1. Should anything from this conversation be remembered? Use the memory tool.\n2. Did you complete a multi-step task? Save it as a skill for next time.\n3. Did a skill's steps fail? Improve it with the correct approach."

abbrev pub memory_notice : Text
memory_notice =
    text
      "\n\n[notice: memory context unavailable this turn — the user's prior preferences/facts could not be loaded]"

abbrev pub skills_notice : Text
skills_notice = text "\n\n[notice: skill catalogue unavailable this turn]"

-- What a store adds: its context, or the notice that its lock was not got.
unfoldable pub injected : Text → Option Text → Text
injected notice none = notice
injected notice (some context) = if is_empty context then [] else text "\n\n" ++ context

module _ {V W : Type 0} (agent : Agent V W) (input : Text) where
  unfoldable pub store_context : (Option (Text → W → Option Text)) → Text → W → Text
  store_context none notice w = []
  store_context (some f) notice w = injected notice (f input w)

  unfoldable pub user_context : Option (W → Option Text) → W → Text
  user_context none w = []
  user_context (some f) w = injected [] (f w)

  -- The three injections of a first iteration.
  unfoldable pub injections : W → Text
  injections w =
      store_context agent.memory memory_notice w
      ++ (store_context agent.skills skills_notice w ++ user_context agent.user_model w)

  -- `self.memory.is_some()`
  abbrev pub has_memory : Option (Text → W → Option Text) → Bool
  has_memory none = false
  has_memory (some f) = true

  unfoldable pub nudge_due : ℕ → Bool
  nudge_due n =
      has_memory agent.memory
      && (ltb 0 agent.nudge_interval && (ltb 0 n && (n % agent.nudge_interval) == 0))

  unfoldable pub build_prompt : ℕ → W → Text
  build_prompt n w =
      agent.system_prompt w
      ++ ((if n == 0 then injections w else []) ++ (if nudge_due n then memory_nudge else []))
