-- ===== src/Cron/Expression.antt =====
-- Whole expressions of crates/peko-core/src/cron.rs, written from five lists of values.
use peko_agent.Base.{ℕ, ◌≤◌, ◌≡◌, ◌≢◌, refl, List, [], ◌∷◌, All, All-append, arith, map}
use peko_agent.Base.Results.{ok}
use peko_agent.Text.{Text, text, join, is_whitespace}
use peko_agent.Text.Number.{to_string, to_string-IsNumeral, to_string-nonempty}
use peko_agent.Text.Split.{IsSolid}
use peko_agent.Text.Words.{IsWord, split_whitespace-join, append-nonempty}
use peko_agent.Cron.Lists.{IsAscending}
use peko_agent.Cron.Field
use peko_agent.Cron.Print.{numeral-IsSolid, parse_field-join}
use peko_agent.Cron.{parse_pieces, parse}
use peko_agent.Cron.Matching.{expr_of}

-- Not empty, strictly ascending, and between the bounds of the field.
abbrev pub IsFull : ℕ → ℕ → List ℕ → Type 0
IsFull min max [] = ⊥
IsFull min max (v ∷ vs) = IsAscending (v ∷ vs) × All (λ w. (min ≤ w) × (w ≤ max)) (v ∷ vs)

-- A field written with commas.
abbrev pub written : List ℕ → Text
written vs = join (b',' ∷ []) (map to_string vs)

-- Five fields with single spaces between them.
abbrev pub expression : List ℕ → List ℕ → List ℕ → List ℕ → List ℕ → Text
expression ms hs ds mos ws =
    join (32 ∷ []) (written ms ∷ written hs ∷ written ds ∷ written mos ∷ written ws ∷ [])

written-IsSolid : (vs : List ℕ) → IsSolid (written vs)
unfolding join is_whitespace
written-IsSolid [] = tt
written-IsSolid (v ∷ []) = numeral-IsSolid (to_string v) (to_string-IsNumeral v)
written-IsSolid (v ∷ w ∷ vs) =
    All-append _ (to_string v) _ (numeral-IsSolid (to_string v) (to_string-IsNumeral v))
      (refl, written-IsSolid (w ∷ vs))

written-IsWord : (min max : ℕ) (vs : List ℕ) → IsFull min max vs → IsWord (written vs)
unfolding join
written-IsWord min max vs h = (nonempty vs h, written-IsSolid vs)
  where
    nonempty : (vs : List ℕ) → IsFull min max vs → written vs ≢ []
    nonempty [] f = absurd f
    nonempty (v ∷ []) f = to_string-nonempty v
    nonempty (v ∷ w ∷ vs) f = append-nonempty (to_string v) _ (ground arith)

parse_field-written :
    (min max : ℕ) (name : Text) (vs : List ℕ)
    → max ≤ 59
    → IsFull min max vs
    → Field.parse_field min max name (written vs) ≡ ok vs
parse_field-written min max name [] k h = absurd h
parse_field-written min max name (v ∷ vs) k h =
    parse_field-join min max name (omega arith) v vs h.0 h.1

-- For any five lists of values in range and in strict order, none of them empty, the expression
-- that lists them is accepted and holds exactly them.
pub parse-expression :
    (ms hs ds mos ws : List ℕ)
    → IsFull 0 59 ms
    → IsFull 0 23 hs
    → IsFull 1 31 ds
    → IsFull 1 12 mos
    → IsFull 0 6 ws
    → parse (expression ms hs ds mos ws) ≡ ok (expr_of (expression ms hs ds mos ws) ms hs ds mos ws)
unfolding parse parse_pieces
parse-expression ms hs ds mos ws m h d mo w = rw (
  split_whitespace-join (written ms) (written hs ∷ written ds ∷ written mos ∷ written ws ∷ []) (
    written-IsWord 0 59 ms m,
    (
      written-IsWord 0 23 hs h,
      (written-IsWord 1 31 ds d, (written-IsWord 1 12 mos mo, (written-IsWord 0 6 ws w, tt))),
    ),
  ),
  parse_field-written 0 59 (text "minute") ms (omega arith) m,
  parse_field-written 0 23 (text "hour") hs (omega arith) h,
  parse_field-written 1 31 (text "day_of_month") ds (omega arith) d,
  parse_field-written 1 12 (text "month") mos (omega arith) mo,
  parse_field-written 0 6 (text "day_of_week") ws (omega arith) w,
)
