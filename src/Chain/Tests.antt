-- ===== src/Chain/Tests.antt =====
-- Runs of a chain of crates/peko-transport/src/chain.rs.
use peko_agent.Base.{ℕ, ◌+◌, ◌≡◌, refl, [], ◌∷◌}
use peko_agent.Base.Results.{ok, err}
use peko_agent.Text.{Text, text, text_eq, len, len_utf8, is_empty}
use peko_agent.Chain.{Provider, is_retryable, stream_completion}
use peko_agent.Chain.Fallback.{Decides, stream_completion-Decides}

-- The first provider is overloaded, the second answers with the count of calls.
abbrev overloaded : Provider ℕ ℕ
overloaded w = (err (text "status 503"), w + 1)

abbrev counting : Provider ℕ ℕ
counting w = (ok w, w + 1)

-- The second provider decides.
stream_completion-Decides_example :
    Decides
      (overloaded ∷ counting ∷ [])
      0
      (stream_completion (overloaded ∷ counting ∷ []) 0).0
      (stream_completion (overloaded ∷ counting ∷ []) 0).1
stream_completion-Decides_example = stream_completion-Decides overloaded (counting ∷ []) 0

second_answers : stream_completion (overloaded ∷ counting ∷ []) 0 ≡ (ok 1, 2)
unfolding stream_completion is_retryable peko_agent.Text.contains
second_answers = refl
