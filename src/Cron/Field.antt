-- ===== src/Cron/Field.antt =====
-- `parse_field` and `parse_range` of crates/peko-core/src/cron.rs, with their errors. The texts of
-- the error details are the constructors of `Detail`, one for each message, with its arguments.
use peko_agent.Base.{ℕ, ◌+◌, ◌||◌, none, some, List, [], ◌∷◌, ◌++◌, ltb, ◌==◌, if◌then◌else◌}
use peko_agent.Base.Results.{Result, ok, err, ◌>>=◌, ok_or}
use peko_agent.Text.{Text, text, text_eq, trim, strip_prefix, contains_char}
use peko_agent.Text.Number.{parse_u32}
use peko_agent.Text.Split.{split}
use peko_agent.Cron.Values.{range, steps, every, sort, dedup}

pub data Detail : Type 0 where
  invalid_step : Text → Detail
  step_zero : Detail
  invalid_range_step : Text → Detail
  invalid_number : Text → Detail
  out_of_range : ℕ → ℕ → ℕ → Detail
  invalid_range : Text → Detail
  invalid_range_start : Text → Detail
  invalid_range_end : Text → Detail
  range_out_of_bounds : ℕ → ℕ → ℕ → ℕ → Detail
  no_values : Detail

pub data CronError : Type 0 where
  invalid_format : ℕ → CronError
  invalid_value : (field : Text) → Detail → CronError

module _ (min max : ℕ) (name : Text) where
  abbrev invalid {ℓ} : {A : Type ℓ} → Detail → Result A CronError
  invalid d = err (invalid_value name d)

  unfoldable pub check_range : ℕ → ℕ → Result (List ℕ) CronError
  check_range start end =
      if ltb start min || ltb max end || ltb end start
      then invalid (range_out_of_bounds start end min max)
      else ok (range start end)

  unfoldable pub range_of_pieces : Text → List Text → Result (List ℕ) CronError
  unfolding check_range
  range_of_pieces s (a ∷ b ∷ []) = do
    start ← ok_or (parse_u32 a) (invalid_value name (invalid_range_start a))
    end ← ok_or (parse_u32 b) (invalid_value name (invalid_range_end b))
    check_range start end
  range_of_pieces s _ = invalid (invalid_range s)

  unfoldable pub parse_range : Text → Result (List ℕ) CronError
  unfolding range_of_pieces
  parse_range s = range_of_pieces s (split b'-' s)

  -- The branch `*/step`.
  unfoldable pub parse_step : Text → Result (List ℕ) CronError
  parse_step step_str = do
    step ← ok_or (parse_u32 step_str) (invalid_value name (invalid_step step_str))
    if step == 0 then invalid step_zero else ok (steps max step (max + 2) min).0

  -- The branch `range/step`.
  unfoldable pub range_step_of_pieces : Text → List Text → Result (List ℕ) CronError
  range_step_of_pieces part (a ∷ b ∷ []) = do
    values ← parse_range a
    step ← ok_or (parse_u32 b) (invalid_value name (invalid_step b))
    if step == 0 then invalid step_zero else ok (every step 0 values)
  range_step_of_pieces part _ = invalid (invalid_range_step part)

  -- The branch of one number.
  unfoldable pub parse_single : Text → Result (List ℕ) CronError
  parse_single part = do
    v ← ok_or (parse_u32 part) (invalid_value name (invalid_number part))
    if ltb v min || ltb max v then invalid (out_of_range v min max) else ok (v ∷ [])

  -- A part that is neither `*` nor `*/…`.
  unfoldable pub parse_plain : Text → Result (List ℕ) CronError
  unfolding range_step_of_pieces parse_single
  parse_plain part =
      if contains_char b'/' part
      then range_step_of_pieces part (split b'/' part)
      else if contains_char b'-' part
      then parse_range part
      else parse_single part

  -- One part of a field: the values that the loop body pushes.
  unfoldable pub parse_part : Text → Result (List ℕ) CronError
  parse_part part =
      if text_eq part (text "*")
      then ok (range min max)
      else (elim (strip_prefix (text "*/") part) [
        | some step_str ↦ parse_step step_str
        | none ↦ parse_plain part
      ])

  -- The loop over the parts, with the values pushed before them.
  unfoldable pub parse_parts : List ℕ → List Text → Result (List ℕ) CronError
  parse_parts values [] = ok values
  parse_parts values (part ∷ parts) = do
    pushed ← parse_part (trim part)
    parse_parts (values ++ pushed) parts

  unfoldable pub check_values : List ℕ → Result (List ℕ) CronError
  check_values [] = invalid no_values
  check_values (v ∷ vs) = ok (v ∷ vs)

  unfoldable pub parse_field : Text → Result (List ℕ) CronError
  unfolding check_values
  parse_field field = do
    values ← parse_parts [] (split b',' field)
    check_values (dedup (sort values))
