-- ===== src/Cron/Matching.antt =====
-- When a parsed expression matches a time.
use peko_agent.Base.{ℕ, ◌≤◌, ◌≡◌, ◌≢◌, refl, true, List, [], ◌∷◌, All, arith, length, subst}
use peko_agent.Base.Results.{ok, err, >>=-eq-ok}
use peko_agent.Text.{Text, text, trim}
use peko_agent.Text.Split.{split_whitespace}
use peko_agent.Cron.Values.{has}
use peko_agent.Cron.Lists.{IsAscending}
use peko_agent.Cron.Field.{invalid_format, parse_field}
use peko_agent.Cron.Bounds.{parse_field-IsAscending}
use peko_agent.Cron.{CronExpr, Time, parse_pieces, parse, matches_time}

-- A list of values that a field may hold: not empty, ascending, and none above the maximum.
abbrev pub IsField : ℕ → List ℕ → Type 0
IsField max vs = (vs ≢ []) × IsAscending vs × All (λ v. v ≤ max) vs

pub record IsValid (c : CronExpr) : Type 0 where
  pub minutes : IsField 59 c.minutes
  pub hours : IsField 23 c.hours
  pub days_of_month : IsField 31 c.days_of_month
  pub months : IsField 12 c.months
  pub days_of_week : IsField 6 c.days_of_week

abbrev pub expr_of : Text → List ℕ → List ℕ → List ℕ → List ℕ → List ℕ → CronExpr
expr_of expr ms hs ds mos ws = record {
  raw = expr;
  minutes = ms;
  hours = hs;
  days_of_month = ds;
  months = mos;
  days_of_week = ws;
}

parse_pieces-IsValid :
    (expr : Text) (ps : List Text) (c : CronExpr) → parse_pieces expr ps ≡ ok c → IsValid c
unfolding parse_pieces
parse_pieces-IsValid expr (m ∷ h ∷ d ∷ mo ∷ w ∷ []) c e =
    let (ms, e₁, r₁) = >>=-eq-ok (parse_field 0 59 (text "minute") m) _ e in
    let (hs, e₂, r₂) = >>=-eq-ok (parse_field 0 23 (text "hour") h) _ r₁ in
    let (ds, e₃, r₃) = >>=-eq-ok (parse_field 1 31 (text "day_of_month") d) _ r₂ in
    let (mos, e₄, r₄) = >>=-eq-ok (parse_field 1 12 (text "month") mo) _ r₃ in
    let (ws, e₅, r₅) = >>=-eq-ok (parse_field 0 6 (text "day_of_week") w) _ r₄ in
    let made : expr_of expr ms hs ds mos ws ≡ c = cc in
    subst IsValid made (record {
      minutes = parse_field-IsAscending 0 59 _ m ms (omega arith) e₁;
      hours = parse_field-IsAscending 0 23 _ h hs (omega arith) e₂;
      days_of_month = parse_field-IsAscending 1 31 _ d ds (omega arith) e₃;
      months = parse_field-IsAscending 1 12 _ mo mos (omega arith) e₄;
      days_of_week = parse_field-IsAscending 0 6 _ w ws (omega arith) e₅;
    })
parse_pieces-IsValid expr _ c e = cc

-- Each field of an expression that was accepted is not empty, strictly ascending and at most the
-- maximum of the field.
pub parse-IsValid : (expr : Text) (c : CronExpr) → parse expr ≡ ok c → IsValid c
unfolding parse
parse-IsValid expr c e = parse_pieces-IsValid expr (split_whitespace (trim expr)) c e

has-All : (x max : ℕ) (vs : List ℕ) → All (λ v. v ≤ max) vs → has x vs ≡ true → x ≤ max
unfolding has
has-All x max [] h e = cc
has-All x max (v ∷ vs) h e = ground (arith, has-All x max vs h.1)

-- A time at which an accepted expression matches has components at most 59, 23, 31, 12 and 6.
pub matches_time-IsTime :
    (expr : Text) (c : CronExpr) (t : Time)
    → parse expr ≡ ok c
    → matches_time c t ≡ true
    → (t.minute ≤ 59) × (t.hour ≤ 23) × (t.day ≤ 31) × (t.month ≤ 12) × (t.weekday ≤ 6)
unfolding matches_time
matches_time-IsTime expr c t e h =
    let v = parse-IsValid expr c e in
    (
      has-All t.minute 59 c.minutes v.minutes.2 (ground arith),
      has-All t.hour 23 c.hours v.hours.2 (ground arith),
      has-All t.day 31 c.days_of_month v.days_of_month.2 (ground arith),
      has-All t.month 12 c.months v.months.2 (ground arith),
      has-All t.weekday 6 c.days_of_week v.days_of_week.2 (ground arith),
    )

parse_pieces_count :
    (expr : Text) (ps : List Text)
    → length ps ≢ 5
    → parse_pieces expr ps ≡ err (invalid_format (length ps))
unfolding parse_pieces
parse_pieces_count expr (m ∷ h ∷ d ∷ mo ∷ w ∷ []) n = absurd (n refl)
parse_pieces_count expr _ n = refl

-- An expression with other than five fields is an error that tells their number.
pub parse_count :
    (expr : Text)
    → length (split_whitespace (trim expr)) ≢ 5
    → parse expr ≡ err (invalid_format (length (split_whitespace (trim expr))))
unfolding parse
parse_count expr n = parse_pieces_count expr (split_whitespace (trim expr)) n
