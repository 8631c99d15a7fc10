-- ===== src/Life/Curiosity.antt =====
-- crates/peko-core/src/curiosity.rs, and the part of crates/peko-core/src/user_model.rs that it reads.
-- The clock's texts are what `format` gives; a time in milliseconds before 1970 does not occur.
use peko_agent.Base.{
  ℕ, ◌-◌, ◌*◌, Bool, false, not, ◌&&◌, Option, none, some, List, [], ◌∷◌, ◌++◌, any, leb,
  if◌then◌else◌,
}
use peko_agent.Text.{Text, text, text_eq, contains}

-- What was used when, and the hours of activity.
pub record UserPatterns : Type 0 where
  pub tools_used : List (Text × ℕ)
  pub active_hours : Option Text

abbrev pub last_use : Text → List (Text × ℕ) → Option ℕ
last_use name [] = none
last_use name ((k, t) ∷ us) = if text_eq k name then some t else last_use name us

abbrev pub is_since : ℕ → Option ℕ → Bool
is_since cutoff none = false
is_since cutoff (some t) = leb cutoff t

unfoldable pub tool_used_recently : ℕ → UserPatterns → Text → ℕ → Bool
tool_used_recently now_ms user name hours =
    is_since (now_ms - hours * 3600000) (last_use name user.tools_used)

abbrev pub tool_use_window_hours : ℕ
tool_use_window_hours = 24

abbrev pub safe_explore : List Text
safe_explore = text "screenshot" ∷ text "ui_inspect" ∷ text "memory" ∷ text "skills" ∷ []

unfoldable pub tool_prompt : Text → Text
tool_prompt name =
    text "I've noticed I haven't used the `"
    ++ (name
        ++ text "` tool yet. Please use it briefly to see what it shows on the current device.")

unfoldable pub hour_prompt : Text → Text
hour_prompt time =
    text "It's "
    ++ (time
        ++ text
            " — an unusual hour for you. Take a screenshot to observe what's on screen right now; this may help build context for future tasks.")

-- `unwrap_or("")`
abbrev pub hours_text : Option Text → Text
hours_text none = []
hours_text (some t) = t

-- The clock as it is read: milliseconds, the hour and the time.
pub record Reading : Type 0 where
  pub now_ms : ℕ
  pub hour : Text
  pub time : Text

unfoldable pub tool_candidates : Reading → UserPatterns → List Text → List Text → List Text
unfolding tool_used_recently
tool_candidates clock user registered [] = []
tool_candidates clock user registered (name ∷ names) =
    let rest = tool_candidates clock user registered names in
    if any (text_eq name) registered
      && not (tool_used_recently clock.now_ms user name tool_use_window_hours)
    then tool_prompt name ∷ rest
    else rest

unfoldable pub candidates : Reading → UserPatterns → List Text → List Text
unfolding tool_candidates
candidates clock user registered =
    tool_candidates clock user registered safe_explore
    ++ (if contains clock.hour (hours_text user.active_hours)
        then []
        else hour_prompt clock.time ∷ [])

-- `find(|c| !recent_prompts.iter().any(|p| p == c))`
unfoldable pub first_new : List Text → List Text → Option Text
first_new recent [] = none
first_new recent (c ∷ cs) =
    let rest = first_new recent cs in if any (λ p. text_eq p c) recent then rest else some c

unfoldable pub next : Reading → UserPatterns → List Text → List Text → Option Text
unfolding candidates first_new
next clock user registered recent = first_new recent (candidates clock user registered)
