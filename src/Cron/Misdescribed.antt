-- ===== src/Cron/Misdescribed.antt =====
-- `describe` of crates/peko-core/src/cron.rs on lists of minutes, and `parse_field` on the largest
-- step.
use peko_agent.Base.{
  ℕ, suc, ◌+◌, ◌-◌, ◌%◌, ◌≤◌, ◌<◌, ◌≡◌, ◌≢◌, true, false, List, [], ◌∷◌, ◌++◌, length, arith, ap,
  sym, ◌∙◌, le→leb, ==_refl,
}
use peko_agent.Base.Results.{ok, ok-injective}
use peko_agent.Text.{Text, text, text_eq, join, trim, is_whitespace, strip_prefix}
use peko_agent.Text.Number.{u32_mod, to_string, parse_u32}
use peko_agent.Cron.Values.{has, steps}
use peko_agent.Cron.Describe.{is_step}
use peko_agent.Cron.Sentence.{describe}
use peko_agent.Cron.Field.{parse_step, parse_part, parse_parts, parse_field}
use peko_agent.Cron.Bounds.{parse_field-eq-ok}
use peko_agent.Cron.Members.{has-dedup-sort}
use peko_agent.Text.Split.{split}
use peko_agent.Cron.{CronExpr}

-- All fields but the minutes are complete.
abbrev pub IsEveryHour : CronExpr → Type 0
IsEveryHour c =
    (length c.hours ≡ 24)
    × (length c.days_of_month ≡ 31)
    × (length c.months ≡ 12)
    × (length c.days_of_week ≡ 7)

-- Minutes that are neither one value nor evenly spaced are left out: whatever they are, an
-- expression whose other fields are complete is described as running every minute.
pub describe_omits_minutes :
    (c : CronExpr)
    → length c.minutes ≢ 1
    → is_step c.minutes ≡ false
    → IsEveryHour c
    → describe c ≡ text "every minute"
unfolding describe
describe_omits_minutes c one gaps h = ground arith

-- An expression with two minutes in every hour, other than `* * * * *`, is described as one that
-- runs at every difference of the two.
pub describe_two_minutes :
    (c : CronExpr) (a b : ℕ)
    → c.minutes ≡ a ∷ b ∷ []
    → text_eq c.raw (text "* * * * *") ≡ false
    → IsEveryHour c
    → describe c ≡ text "every " ++ (to_string (b - a) ++ text " minutes")
unfolding describe is_step join
describe_two_minutes c a b e raw h = ground (arith, ==_refl (b - a))

abbrev last_step : ℕ
last_step = 4294967295

steps_wrap :
    (f min max : ℕ)
    → 1 ≤ min
    → min ≤ max
    → max < u32_mod
    → has (min - 1) (steps max last_step (suc (suc f)) min).0 ≡ true
unfolding has steps
steps_wrap f min max h k b =
    let w : (min + last_step) % u32_mod ≡ min - 1 = omega arith in
    let fits : (min + last_step) % u32_mod ≤ max = omega (arith, w) in
    rw (le→leb min max k, steps) (rw (le→leb _ max fits, steps) (ground (arith, w)))

-- In a field whose minimum is positive, the largest step wraps: if it is accepted, the value below
-- the minimum is among the values.
pub parse_step_wraps :
    (min max : ℕ) (name : Text) (vs : List ℕ)
    → 1 ≤ min
    → min ≤ max
    → max < u32_mod
    → parse_field min max name (text "*/4294967295") ≡ ok vs
    → has (min - 1) vs ≡ true
unfolding parse_parts parse_part parse_step split trim is_whitespace text_eq strip_prefix parse_u32
parse_step_wraps min max name vs h k b e =
    let (us, e₁, r, _) = parse_field-eq-ok min max name (text "*/4294967295") vs e in
    let pushed : (steps max last_step (max + 2) min).0 ≡ us = ok-injective e₁ in
    let two : max + 2 ≡ suc (suc max) = omega arith in
    ap (has (min - 1)) (sym r)
    ∙ has-dedup-sort (min - 1) us
    ∙ ap (has (min - 1)) (sym pushed)
    ∙ ap (λ f. has (min - 1) (steps max last_step f min).0) two
    ∙ steps_wrap max min max h k b
