-- ===== src/Tests.antt =====
-- Runs of the smaller components of crates/peko-core and crates/peko-transport: the budget, the
-- compressor, the streams, the choice of a model and the tools.
use peko_agent.Base.{
  ℕ, ◌+◌, ◌-◌, ◌≡◌, refl, arith, min, Bool, true, false, none, some, List, [], ◌∷◌, ◌++◌, length,
  map,
}
use peko_agent.Base.Results.{ok}
use peko_agent.Text.{Text, text, len, is_empty}
use peko_agent.Message.{ToolCall, ImageData, Message, user}
use peko_agent.Budget.{new}
use peko_agent.Budget.Spending.{decrements, successes, successes-decrements}
use peko_agent.Compressor.{ContextCompressor, check_and_compress, total_tokens, summary}
use peko_agent.Compressor.Shape.{check_and_compress_shape}
use peko_agent.Stream.{tool_use, message_delta, message_stop, gather}
use peko_agent.Stream.Blocks.{Block, said, call, blocks_events, texts, calls, gather-blocks}
use peko_agent.Stream.Deltas.{parse_openai_delta, whole, gather-parallel}
use peko_agent.Brain.{dual, DualBrain, SkillUse}
use peko_agent.Tools.{Tool, Registry}

successes-decrements_example :
    (successes (decrements 5 (new 3)).1 ≡ min 5 3) × ((decrements 5 (new 3)).0.remaining ≡ 3 - 5)
unfolding new
successes-decrements_example =
    successes-decrements 5 (new 3) (record { within = omega arith; word = omega arith })

abbrev render : ℕ → Text
render v = text "{}"

-- A budget of one token.
abbrev tight : ContextCompressor
tight = record { max_context_tokens = 1; history_share = λ n. n }

abbrev says : Text → Message ℕ
says t = user t

abbrev four_messages : List (Message ℕ)
four_messages =
    says (text "some more")
    ∷ says (text "some more")
    ∷ says (text "some more")
    ∷ says (text "some more")
    ∷ []

abbrev middle : List (Message ℕ)
middle = says (text "aside") ∷ says (text "another") ∷ []

check_and_compress_shape_example :
    let shorter =
      says (text "the task") ∷ user (summary render middle (length middle)) ∷ four_messages in
    check_and_compress render tight (says (text "the task") ∷ middle ++ four_messages) ≡ (
      shorter,
      record {
        compressed = true;
        original_tokens = total_tokens render (says (text "the task") ∷ middle ++ four_messages);
        compressed_tokens = total_tokens render shorter;
        messages_removed = length middle;
      },
    )
unfolding total_tokens peko_agent.Message.estimated_tokens len
check_and_compress_shape_example =
    check_and_compress_shape render tight (says (text "the task")) middle four_messages refl
      (omega arith)

abbrev input_of : Text → ℕ
input_of raw = length raw

abbrev blocks : List Block
blocks =
    said (text "Look" ∷ text "ing." ∷ [])
    ∷ call (text "1") (text "screen") (text "{" ∷ text "}" ∷ [])
    ∷ call (text "2") (text "tap") []
    ∷ []

gather-blocks_example :
    let g =
      gather input_of (blocks_events 0 blocks ++ (message_delta 9 tool_use ∷ message_stop ∷ [])) in
    (g.text_buffer ≡ texts blocks)
    × (g.tool_calls ≡ calls input_of blocks)
    × (g.stop_reason ≡ tool_use)
unfolding is_empty
gather-blocks_example = gather-blocks input_of 0 9 tool_use blocks (tt, (refl, (refl, tt)))

gather-parallel_example :
    (gather input_of (
      parse_openai_delta (record {
        content = none;
        tool_calls =
            map whole ((text "1", text "screen", text "{}") ∷ [])
            ++ (whole (text "2", text "tap", text "{}") ∷ []);
        finish_reason = some (text "tool_calls");
        completion_tokens = 9;
      }))).tool_calls
    ≡ record { id = text "2"; name = text "tap"; input = input_of (text "{}") } ∷ []
unfolding is_empty
gather-parallel_example =
    gather-parallel input_of ((text "1", text "screen", text "{}") ∷ []) (text "2") (text "tap")
      (text "{}") 9 refl

abbrev lower : Text → Text
lower t = t

abbrev search : Text → List SkillUse
search t = []

abbrev is_good_rate : ℕ → ℕ → Bool
is_good_rate a b = false

abbrev brain : DualBrain
brain = record { mode = dual; simple_max_len = 200 }

-- Fifty-nine letters in front of a character of three bytes.
abbrev before : Text
before = text "please summarise everything that we have talked about today"

abbrev tool_named : Text → Tool ℕ ℕ
tool_named name = record {
  name = name;
  is_available = true;
  is_dangerous = false;
  run = λ args w. (ok (record { content = name; is_error = false; image = none }), w + 1);
}

abbrev registry : Registry ℕ ℕ
registry =
    (text "screen", tool_named (text "screen")) ∷ (text "shell", tool_named (text "shell")) ∷ []
