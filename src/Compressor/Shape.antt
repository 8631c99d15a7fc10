-- ===== src/Compressor/Shape.antt =====
-- The conversation that crates/peko-core/src/compressor.rs leaves.
use peko_agent.Base.{
  ℕ, suc, ◌-◌, ◌≤◌, ◌<◌, ◌≡◌, refl, true, false, List, [], ◌∷◌, ◌++◌, length, take, drop, min,
  arith, length-append, ap, ◌⊎◌,
}
use peko_agent.Text.{Text}
use peko_agent.Message.{Message, user}
use peko_agent.Compressor.{ContextCompressor, summary, total_tokens, compress, check_and_compress}

module _ {ℓ} {A : Type ℓ} where
  take-append : (xs ys : List A) → take (length xs) (xs ++ ys) ≡ xs
  take-append [] ys = refl
  take-append (x ∷ xs) ys = ap (λ r. x ∷ r) (take-append xs ys)

  drop-append : (xs ys : List A) → drop (length xs) (xs ++ ys) ≡ ys
  drop-append [] ys = refl
  drop-append (x ∷ xs) ys = drop-append xs ys

  -- The last four of at least five elements are cut off behind the others.
  cut :
      (x : A) (xs ys : List A)
      → length ys ≡ 4
      → let n = length (x ∷ xs ++ ys) in n - min 4 (n - 1) ≡ suc (length xs)
  cut x xs ys h = omega (arith, length-append xs ys)

module _ {V : Type 0} (render : V → Text) (c : ContextCompressor) where
  -- A conversation within the token budget, or of at most four messages, is left as it is, and
  -- reported so.
  pub check_and_compress_small :
      (conversation : List (Message V))
      → (total_tokens render conversation ≤ c.history_share c.max_context_tokens)
        ⊎ (length conversation ≤ 4)
      → check_and_compress render c conversation ≡ (
        conversation,
        record {
          compressed = false;
          original_tokens = total_tokens render conversation;
          compressed_tokens = total_tokens render conversation;
          messages_removed = 0;
        },
      )
  unfolding check_and_compress
  check_and_compress_small conversation h = ground arith

  -- The conversation and the report of `compress`.
  compress_shape :
      (m : Message V) (middle tail : List (Message V)) (tokens : ℕ)
      → length tail ≡ 4
      → let shorter = m ∷ user (summary render middle (length middle)) ∷ tail in
        compress render (m ∷ middle ++ tail) tokens ≡ (
          shorter,
          record {
            compressed = true;
            original_tokens = tokens;
            compressed_tokens = total_tokens render shorter;
            messages_removed = length middle;
          },
        )
  unfolding compress
  compress_shape m middle tail tokens h =
      let one : suc (length middle) - 1 ≡ length middle = omega arith in
      rw (cut m middle tail h, one, take-append middle tail, drop-append middle tail)

  -- A conversation over its budget, of a first message, a middle and a tail of four, keeps the
  -- first message and the tail, and has one summary of the middle between them; the result counts
  -- the messages and the tokens.
  pub check_and_compress_shape :
      (m : Message V) (middle tail : List (Message V))
      → length tail ≡ 4
      → c.history_share c.max_context_tokens < total_tokens render (m ∷ middle ++ tail)
      → let shorter = m ∷ user (summary render middle (length middle)) ∷ tail in
        check_and_compress render c (m ∷ middle ++ tail) ≡ (
          shorter,
          record {
            compressed = true;
            original_tokens = total_tokens render (m ∷ middle ++ tail);
            compressed_tokens = total_tokens render shorter;
            messages_removed = length middle;
          },
        )
  unfolding check_and_compress
  check_and_compress_shape m middle tail h k = ground (
    arith,
    compress_shape m middle tail (total_tokens render (m ∷ middle ++ tail)) h,
    length-append middle tail,
  )
