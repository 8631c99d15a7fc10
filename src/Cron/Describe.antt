-- ===== src/Cron/Describe.antt =====
-- `is_step`, `format_list` and the sentences of `CronExpr::describe`.
use peko_agent.Base.{ℕ, ◌-◌, Bool, true, false, ◌&&◌, List, [], ◌∷◌, ◌==◌, map}
use peko_agent.Text.{Text, text, join}
use peko_agent.Text.Number.{to_string}

-- `windows(2).all(|w| w[1] - w[0] == step)`
unfoldable pub gaps_are : ℕ → List ℕ → Bool
gaps_are step [] = true
gaps_are step (v ∷ []) = true
gaps_are step (v ∷ w ∷ vs) = w - v == step && gaps_are step (w ∷ vs)

unfoldable pub is_step : List ℕ → Bool
unfolding gaps_are
is_step [] = false
is_step (v ∷ []) = false
is_step (v ∷ w ∷ vs) = gaps_are (w - v) (v ∷ w ∷ vs)

unfoldable pub format_list : List ℕ → Text
format_list values = join (text ", ") (map to_string values)
