-- ===== src/Sse.antt =====
-- crates/peko-transport/src/sse.rs: the parser of server-sent events. `decode` stands for
-- `String::from_utf8_lossy` of a chunk. A line ends at a line feed, and a carriage return in front of
-- it is dropped; one at the end of the text is not.
pub mod Chunks
pub mod Tests
use peko_agent.Base.{
  ℕ, zero, suc, ◌+◌, Bool, true, false, Option, none, some, List, [], ◌∷◌, ◌++◌, drop, length, ◌==◌,
  ◌&&◌, if◌then◌else◌,
}
use mathlib.Core.Option
use peko_agent.Text.{Text, text, text_eq, trim, trim_start, starts_with, join, is_empty}
use peko_agent.Text.Split.{split}

pub record SseEvent : Type 0 where
  pub event : Option Text
  pub payload : Text
  pub id : Option Text

-- `lines()`: a last piece that is empty is no line, and no line feed ends it.
unfoldable pub without_return : Text → Text
without_return [] = []
without_return (c ∷ []) = if c == 13 then [] else c ∷ []
without_return (c ∷ d ∷ s) = c ∷ without_return (d ∷ s)

unfoldable pub lines_of : List Text → List Text
unfolding without_return
lines_of [] = []
lines_of (t ∷ []) = if is_empty t then [] else t ∷ []
lines_of (t ∷ u ∷ ts) = without_return t ∷ lines_of (u ∷ ts)

unfoldable pub lines : Text → List Text
unfolding lines_of
lines block = lines_of (split 10 block)

-- The variables of `parse_block`.
pub record Block : Type 0 where
  pub event_type : Option Text
  pub data_lines : List Text
  pub block_id : Option Text

abbrev pub no_block : Block
no_block = record { event_type = none; data_lines = []; block_id = none }

-- One line; `none` is the early return at the end marker of the stream.
unfoldable pub on_line : Block → Text → Option Block
on_line b line =
    if starts_with (text "event:") line
    then some (record b { event_type = some (trim (drop 6 line)) })
    else if starts_with (text "data:") line
    then (if text_eq (trim_start (drop 5 line)) (text "[DONE]")
        then none
        else some (record b { data_lines = b.data_lines ++ (trim_start (drop 5 line) ∷ []) }))
    else if starts_with (text "id:") line
    then some (record b { block_id = some (trim (drop 3 line)) })
    else some b

unfoldable pub on_lines : Block → List Text → Option Block
unfolding on_line
on_lines b [] = some b
on_lines b (l ∷ ls) = Option.bind (on_line b l) (λ c. on_lines c ls)

abbrev pub with_data : Block → List Text → Option SseEvent
with_data b [] = none
with_data b (d ∷ ds) =
    some (record { event = b.event_type; payload = join (text "\n") (d ∷ ds); id = b.block_id })

abbrev pub finished : Block → Option SseEvent
finished b = with_data b b.data_lines

unfoldable pub parse_block : Text → Option SseEvent
unfolding lines on_lines
parse_block block = Option.bind (on_lines no_block (lines block)) finished

abbrev pub pick : Bool → ℕ → Text → Option (Text × Text) → Option (Text × Text)
pick true a s rest = some ([], s)
pick false a s rest = Option.map (λ (x, y). (a ∷ x, y)) rest

-- The text in front of the first blank line, and the text behind it.
unfoldable pub cut : Text → Option (Text × Text)
cut (a ∷ b ∷ s) = pick (a == 10 && b == 10) a s (cut (b ∷ s))
cut s = none

abbrev pub with_event : Option SseEvent → List SseEvent × Text → List SseEvent × Text
with_event none r = r
with_event (some e) (es, buffer) = (e ∷ es, buffer)

-- The loop of `feed`: the events, and what stays in the buffer.
abbrev pub on_cut :
    (Text → List SseEvent × Text) → Text → Option (Text × Text) → List SseEvent × Text
on_cut rest buffer none = ([], buffer)
on_cut rest buffer (some (block, after)) = with_event (parse_block block) (rest after)

unfoldable pub drain : ℕ → Text → List SseEvent × Text
unfolding cut
drain zero buffer = ([], buffer)
drain (suc fuel) buffer = on_cut (drain fuel) buffer (cut buffer)

-- The buffer is the parser's state.
unfoldable pub feed : (decode : List ℕ → Text) → Text → List ℕ → List SseEvent × Text
unfolding drain
feed decode buffer chunk = let whole = buffer ++ decode chunk in drain (length whole + 1) whole
