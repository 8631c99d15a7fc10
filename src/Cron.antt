-- ===== src/Cron.antt =====
-- crates/peko-core/src/cron.rs: the cron expressions of the scheduler. Numbers are `u32`; the
-- addition of a step wraps, as it does in the release build.
pub mod Values
pub mod Range
pub mod Describe
pub mod Field
pub mod Parts
pub mod Bounds
pub mod Lists
pub mod Print
pub mod Members
pub mod Matching
pub mod Sentence
pub mod Expression
pub mod Misdescribed
pub mod Tests
use peko_agent.Base.{ℕ, Bool, ◌&&◌, List, [], ◌∷◌, length}
use peko_agent.Base.Results.{Result, ok, err, ◌>>=◌}
use peko_agent.Text.{Text, text, trim, text_eq, is_empty, join}
use peko_agent.Text.Split.{split_whitespace}
use Values.{has}
use Field.{CronError, invalid_format, parse_field}

pub record CronExpr : Type 0 where
  pub raw : Text
  pub minutes : List ℕ
  pub hours : List ℕ
  pub days_of_month : List ℕ
  pub months : List ℕ
  pub days_of_week : List ℕ

-- The five fields, in the order in which they are parsed.
unfoldable pub parse_pieces : Text → List Text → Result CronExpr CronError
parse_pieces expr (m ∷ h ∷ d ∷ mo ∷ w ∷ []) = do
  minutes ← parse_field 0 59 (text "minute") m
  hours ← parse_field 0 23 (text "hour") h
  days_of_month ← parse_field 1 31 (text "day_of_month") d
  months ← parse_field 1 12 (text "month") mo
  days_of_week ← parse_field 0 6 (text "day_of_week") w
  ok (record {
    raw = expr;
    minutes = minutes;
    hours = hours;
    days_of_month = days_of_month;
    months = months;
    days_of_week = days_of_week;
  })
parse_pieces expr parts = err (invalid_format (length parts))

unfoldable pub parse : Text → Result CronExpr CronError
unfolding parse_pieces
parse expr = parse_pieces expr (split_whitespace (trim expr))

-- The components of a point in time, as `chrono` gives them.
pub record Time : Type 0 where
  pub minute : ℕ
  pub hour : ℕ
  pub day : ℕ
  pub month : ℕ
  pub weekday : ℕ

unfoldable pub matches_time : CronExpr → Time → Bool
matches_time c t =
    has t.minute c.minutes
    && has t.hour c.hours
    && has t.day c.days_of_month
    && has t.month c.months
    && has t.weekday c.days_of_week
