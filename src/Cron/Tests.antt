-- ===== src/Cron/Tests.antt =====
-- Runs of crates/peko-core/src/cron.rs on concrete expressions.
use peko_agent.Base.{ℕ, ◌≤◌, ◌≡◌, ◌≢◌, ◌++◌, ◌||◌, refl, arith, List, [], ◌∷◌, All}
use peko_agent.Base.Results.{ok}
use peko_agent.Text.{Text, text, text_eq}
use peko_agent.Text.Number.{to_string}
use peko_agent.Cron.{CronExpr, Time, parse, matches_time}
use peko_agent.Cron.Values.{has, range, every, steps}
use peko_agent.Cron.Field.{parse_field}
use peko_agent.Cron.Lists.{IsAscending}
use peko_agent.Cron.Bounds.{parse_field-IsAscending}
use peko_agent.Cron.Describe.{format_list}
use peko_agent.Cron.Members.{parse_field-comma}
use peko_agent.Cron.Matching.{IsValid, expr_of, parse-IsValid}
use peko_agent.Cron.Sentence.{describe}
use peko_agent.Cron.Expression.{expression, parse-expression}
use peko_agent.Cron.Misdescribed.{describe_omits_minutes}

-- Every hour at minutes 5, 17 and 20.
abbrev hourly : CronExpr
hourly = record {
  raw = text "5,17,20 * * * *";
  minutes = 5 ∷ 17 ∷ 20 ∷ [];
  hours = range 0 23;
  days_of_month = range 1 31;
  months = range 1 12;
  days_of_week = range 0 6;
}

abbrev noon : CronExpr
noon = expr_of (text "0,30 12 1 1 0") (0 ∷ 30 ∷ []) (12 ∷ []) (1 ∷ []) (1 ∷ []) (0 ∷ [])

abbrev noon_time : Time
noon_time = record { minute = 30; hour = 12; day = 1; month = 1; weekday = 0 }

abbrev three_hours : List ℕ
three_hours = 3 ∷ 4 ∷ 9 ∷ []

parse_field-IsAscending_example :
    (three_hours ≢ []) × IsAscending three_hours × All (λ v. v ≤ 23) three_hours
unfolding parse_field peko_agent.Cron.Field.parse_parts peko_agent.Text.Split.split
    peko_agent.Cron.Field.parse_part peko_agent.Text.text_eq peko_agent.Text.trim
    peko_agent.Text.strip_prefix peko_agent.Cron.Field.parse_plain peko_agent.Text.contains_char
    peko_agent.Text.Number.parse_u32 peko_agent.Cron.Field.parse_range peko_agent.Cron.Values.dedup
    peko_agent.Cron.Values.sort range
parse_field-IsAscending_example =
    parse_field-IsAscending 0 23 (text "hour") (text "9,3-4") three_hours (omega arith) refl

parse-IsValid_example : IsValid noon
unfolding parse peko_agent.Text.Split.split_whitespace peko_agent.Text.trim parse_field
    peko_agent.Cron.Field.parse_parts peko_agent.Text.Split.split peko_agent.Cron.Field.parse_part
    peko_agent.Text.text_eq peko_agent.Text.strip_prefix peko_agent.Cron.Field.parse_plain
    peko_agent.Text.contains_char peko_agent.Text.Number.parse_u32 peko_agent.Cron.Values.dedup
    peko_agent.Cron.Values.sort
parse-IsValid_example = parse-IsValid (text "0,30 12 1 1 0") noon refl

abbrev four_times : Text
four_times = expression (0 ∷ 30 ∷ []) (6 ∷ 18 ∷ []) (1 ∷ []) (2 ∷ []) (3 ∷ [])

parse-expression_example :
    parse four_times
    ≡ ok (expr_of four_times (0 ∷ 30 ∷ []) (6 ∷ 18 ∷ []) (1 ∷ []) (2 ∷ []) (3 ∷ []))
parse-expression_example =
    parse-expression (0 ∷ 30 ∷ []) (6 ∷ 18 ∷ []) (1 ∷ []) (2 ∷ []) (3 ∷ [])
      (
        ((omega arith, tt), (tt, tt)),
        ((omega arith, omega arith), ((omega arith, omega arith), tt)),
      )
      (
        ((omega arith, tt), (tt, tt)),
        ((omega arith, omega arith), ((omega arith, omega arith), tt)),
      )
      ((tt, tt), ((omega arith, omega arith), tt)) ((tt, tt), ((omega arith, omega arith), tt))
      ((tt, tt), ((omega arith, omega arith), tt))

describe_omits_minutes_example : describe hourly ≡ text "every minute"
unfolding range peko_agent.Cron.Describe.is_step
describe_omits_minutes_example =
    describe_omits_minutes hourly (omega arith) refl (refl, refl, refl, refl)

abbrev twice_hourly : CronExpr
twice_hourly = record hourly { raw = text "0,5 * * * *"; minutes = 0 ∷ 5 ∷ [] }

parse_field-comma_example :
    (vs : List ℕ) × (parse_field 0 59 (text "minute") (text "1-3" ++ (b',' ∷ text "*/20")) ≡ ok vs)
    × ((x : ℕ) → has x vs ≡ (has x (1 ∷ 2 ∷ 3 ∷ []) || has x (0 ∷ 20 ∷ 40 ∷ [])))
unfolding parse_field text_eq has peko_agent.Cron.Field.parse_parts peko_agent.Text.Split.split
    peko_agent.Cron.Field.parse_part peko_agent.Text.trim peko_agent.Text.strip_prefix
    peko_agent.Cron.Field.parse_plain peko_agent.Text.contains_char
    peko_agent.Cron.Field.parse_range peko_agent.Text.Number.parse_u32 peko_agent.Cron.Values.dedup
    peko_agent.Cron.Values.sort range peko_agent.Cron.Field.parse_step steps
parse_field-comma_example =
    parse_field-comma 0 59 (text "minute") (text "1-3") (text "*/20") (1 ∷ 2 ∷ 3 ∷ [])
      (0 ∷ 20 ∷ 40 ∷ []) (refl, (refl, (refl, tt))) refl refl
