-- ===== src/Plan/Words.antt =====
-- `body_mentions_unsafe_tool` of crates/peko-tools-android/src/plan_tool.rs.
use peko_agent.Base.{ℕ, Bool, not, ◌&&◌, List, [], ◌∷◌, ◌++◌, any, map, ◌==◌, if◌then◌else◌}
use peko_agent.Text.{Text, text, text_eq}
use peko_agent.Text.Split.{cons_first}
use peko_agent.Notebook.Slug.{Unicode, is_alphanumeric, to_lowercase}

unfoldable pub contains_text : List Text → Text → Bool
contains_text ts t = any (λ s. text_eq s t) ts

-- `str::to_lowercase`, up to the form of a final sigma.
unfoldable pub lowercased : Unicode → Text → Text
unfolding to_lowercase
lowercased u [] = []
lowercased u (c ∷ s) = to_lowercase u c ++ lowercased u s

abbrev pub is_break : Unicode → ℕ → Bool
is_break u c = not (is_alphanumeric u c) && not (c == 95)

-- `split` at the characters that are part of no name.
unfoldable pub words : Unicode → Text → List Text
unfolding is_alphanumeric
words u [] = [] ∷ []
words u (c ∷ s) = if is_break u c then [] ∷ words u s else cons_first c (words u s)

abbrev pub unsafe_tools : List Text
unsafe_tools =
    text "shell"
    ∷ text "package_manager"
    ∷ text "sms"
    ∷ text "call"
    ∷ text "telephony"
    ∷ text "touch"
    ∷ text "key_event"
    ∷ text "text_input"
    ∷ text "unlock_device"
    ∷ text "audio_pcm"
    ∷ text "camera"
    ∷ text "gps"
    ∷ text "delegate"
    ∷ text "bg"
    ∷ []

-- A tool that the plan declares is no concern of this test.
unfoldable pub mentions : Unicode → Text → List Text → Bool
unfolding contains_text lowercased words
mentions u body declared =
    any
      (λ t.
        not (contains_text (map (lowercased u) declared) t)
        && contains_text (words u (lowercased u body)) t)
      unsafe_tools
