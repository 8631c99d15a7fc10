-- ===== src/Compressor.antt =====
-- crates/peko-core/src/compressor.rs: the compression of a long conversation. The token budget is a
-- product of `f32` values in the source; here `history_share` is the function from the context size
-- to that product, cut to a whole number.
pub mod Shape
pub mod Growth
use peko_agent.Base.{
  ℕ, ◌+◌, ◌-◌, Bool, true, false, ◌||◌, Option, some, none, List, [], ◌∷◌, ◌++◌, map, ltb, leb,
  length, take, drop, min, if◌then◌else◌,
}
use peko_agent.Text.{Text, text, join}
use peko_agent.Text.Number.{to_string}
use peko_agent.Message.{
  ToolCall, Message, system, user, assistant, tool_result, sum, estimated_tokens,
}

pub record ContextCompressor : Type 0 where
  pub max_context_tokens : ℕ
  pub history_share : ℕ → ℕ

pub record CompressionResult : Type 0 where
  pub compressed : Bool
  pub original_tokens : ℕ
  pub compressed_tokens : ℕ
  pub messages_removed : ℕ

-- `&xs[a..b]`
abbrev pub slice {ℓ} : {A : Type ℓ} → ℕ → ℕ → List A → List A
slice a b xs = take (b - a) (drop a xs)

-- The head of a non-empty conversation, as a list of one message.
abbrev pub first {ℓ} : {A : Type ℓ} → List A → List A
first xs = take 1 xs

-- Characters, not bytes, are counted.
unfoldable pub truncated : Text → Text
truncated content = if ltb 200 (length content) then take 200 content ++ text "..." else content

module _ {V : Type 0} (render : V → Text) where
  unfoldable pub call_summary : ToolCall V → Text
  call_summary tc = text "Called tool '" ++ (tc.name ++ (text "' with args: " ++ render tc.input))

  -- What one message adds to the summary.
  unfoldable pub summary_parts : Message V → List Text
  unfolding call_summary truncated
  summary_parts (assistant t calls) = map call_summary calls
  summary_parts (tool_result i name content is_error image) =
      (text "Tool '"
        ++ (name
            ++ (text "' ["
                ++ ((if is_error then text "ERROR" else text "OK")
                    ++ (text "]: " ++ truncated content)))))
      ∷ []
  summary_parts (system t) = []
  summary_parts (user t) = []

  unfoldable pub all_parts : List (Message V) → List Text
  unfolding summary_parts
  all_parts [] = []
  all_parts (m ∷ ms) = summary_parts m ++ all_parts ms

  unfoldable pub summary : List (Message V) → ℕ → Text
  unfolding all_parts
  summary removed n =
      text "[Compressed history — "
      ++ (to_string n ++ (text " previous interactions]\n" ++ join (text "\n") (all_parts removed)))

  unfoldable pub total_tokens : List (Message V) → ℕ
  total_tokens conversation = sum (map (estimated_tokens render) conversation)

  abbrev unchanged : List (Message V) → ℕ → List (Message V) × CompressionResult
  unchanged conversation tokens = (
    conversation,
    record {
      compressed = false;
      original_tokens = tokens;
      compressed_tokens = tokens;
      messages_removed = 0;
    },
  )

  -- The part behind the guard.
  unfoldable pub compress : List (Message V) → ℕ → List (Message V) × CompressionResult
  compress conversation tokens =
      let keep_tail = min 4 (length conversation - 1) in
      let remove_end = length conversation - keep_tail in
      let removed = slice 1 remove_end conversation in
      let shorter =
        first conversation
        ++ (user (summary removed (remove_end - 1)) ∷ drop remove_end conversation) in
      (
        shorter,
        record {
          compressed = true;
          original_tokens = tokens;
          compressed_tokens = total_tokens shorter;
          messages_removed = remove_end - 1;
        },
      )

  unfoldable pub check_and_compress :
      ContextCompressor → List (Message V) → List (Message V) × CompressionResult
  check_and_compress c conversation =
      let tokens = total_tokens conversation in
      if leb tokens (c.history_share c.max_context_tokens) || leb (length conversation) 4
      then unchanged conversation tokens
      else compress conversation tokens
