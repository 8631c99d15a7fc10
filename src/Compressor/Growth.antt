-- ===== src/Compressor/Growth.antt =====
-- Short conversations in crates/peko-core/src/compressor.rs.
use peko_agent.Base.{◌+◌, ◌<◌, ◌≡◌, List, [], ◌∷◌, length, arith, true, refl}
use peko_agent.Text.{Text, len, join}
use peko_agent.Text.Number.{to_string}
use peko_agent.Message.{Message, user, estimated_tokens}
use peko_agent.Compressor.{ContextCompressor, total_tokens, summary, check_and_compress}
use peko_agent.Compressor.Shape.{check_and_compress_shape}

summary_costs :
    {V : Type 0} (render : V → Text) (m : Message V) (tail : List (Message V))
    → total_tokens render (m ∷ user (summary render [] 0) ∷ tail)
      ≡ 12 + total_tokens render (m ∷ tail)
unfolding total_tokens estimated_tokens summary to_string join len
summary_costs render m tail = omega arith

-- With exactly five messages over the budget, compression removes none, adds a summary and makes
-- the conversation larger.
pub check_and_compress_grows :
    {V : Type 0} (render : V → Text) (c : ContextCompressor) (m : Message V)
    (tail : List (Message V))
    → length tail ≡ 4
    → c.history_share c.max_context_tokens < total_tokens render (m ∷ tail)
    → let r = check_and_compress render c (m ∷ tail) in
      (r.1.compressed ≡ true)
      × (r.1.messages_removed ≡ 0)
      × (length r.0 ≡ 6)
      × (total_tokens render (m ∷ tail) < r.1.compressed_tokens)
check_and_compress_grows render c m tail h k =
    rw (check_and_compress_shape render c m [] tail h k)
      (refl, refl, omega arith, omega (arith, summary_costs render m tail))
