-- ===== src/Cron/Sentence.antt =====
-- `CronExpr::describe`.
use peko_agent.Base.{
  ℕ, ◌-◌, List, [], ◌∷◌, ◌++◌, none, some, ltb, ◌==◌, length, get_elem?, if◌then◌else◌,
}
use peko_agent.Text.{Text, text, text_eq, join}
use peko_agent.Text.Number.{to_string}
use peko_agent.Cron.Describe.{is_step, format_list}
use peko_agent.Cron.{CronExpr}

-- `values[1] - values[0]`, `values[0]`: the callers have at least two values, or one.
unfoldable pub first_gap : List ℕ → ℕ
first_gap (v ∷ w ∷ vs) = w - v
first_gap vs = 0

unfoldable pub first : List ℕ → ℕ
first [] = 0
first (v ∷ vs) = v

-- `{:02}`
unfoldable pub two_digits : ℕ → Text
two_digits n = if ltb n 10 then b'0' ∷ to_string n else to_string n

unfoldable pub describe_minutes : List ℕ → List Text
unfolding first_gap first
describe_minutes ms =
    if length ms == 60
    then []
    else if length ms == 1
    then (text "at minute " ++ to_string (first ms)) ∷ []
    else if is_step ms
    then (text "every " ++ (to_string (first_gap ms) ++ text " minutes")) ∷ []
    else []

unfoldable pub describe_hours : List ℕ → List Text
unfolding first_gap first two_digits
describe_hours hs =
    if length hs == 24
    then []
    else if length hs == 1
    then (text "at " ++ (two_digits (first hs) ++ text ":00")) ∷ []
    else if is_step hs
    then (text "every " ++ (to_string (first_gap hs) ++ text " hours")) ∷ []
    else (text "at hours " ++ format_list hs) ∷ []

unfoldable pub describe_days : List ℕ → List Text
describe_days ds = if ltb (length ds) 31 then (text "on day " ++ format_list ds) ∷ [] else []

abbrev pub month_names : List Text
month_names =
    text ""
    ∷ text "Jan"
    ∷ text "Feb"
    ∷ text "Mar"
    ∷ text "Apr"
    ∷ text "May"
    ∷ text "Jun"
    ∷ text "Jul"
    ∷ text "Aug"
    ∷ text "Sep"
    ∷ text "Oct"
    ∷ text "Nov"
    ∷ text "Dec"
    ∷ []

abbrev pub day_names : List Text
day_names =
    text "Sun" ∷ text "Mon" ∷ text "Tue" ∷ text "Wed" ∷ text "Thu" ∷ text "Fri" ∷ text "Sat" ∷ []

-- `filter_map(|v| names.get(v))`
unfoldable pub named : List Text → List ℕ → List Text
named names [] = []
named names (v ∷ vs) =
    let rest = named names vs in elim (get_elem? names v) [ some n ↦ n ∷ rest | none ↦ rest ]

unfoldable pub describe_months : List ℕ → List Text
unfolding named
describe_months ms =
    if ltb (length ms) 12 then (text "in " ++ join (text ", ") (named month_names ms)) ∷ [] else []

unfoldable pub describe_weekdays : List ℕ → List Text
unfolding named
describe_weekdays ws =
    if ltb (length ws) 7 then (text "on " ++ join (text ", ") (named day_names ws)) ∷ [] else []

unfoldable pub sentence : List Text → Text
sentence [] = text "every minute"
sentence (p ∷ ps) = join (text ", ") (p ∷ ps)

unfoldable pub describe : CronExpr → Text
unfolding describe_minutes describe_hours describe_days describe_months describe_weekdays sentence
describe c =
    if text_eq c.raw (text "* * * * *")
    then text "every minute"
    else sentence (
        describe_minutes c.minutes
        ++ (describe_hours c.hours
            ++ (describe_days c.days_of_month
                ++ (describe_months c.months ++ describe_weekdays c.days_of_week))))
