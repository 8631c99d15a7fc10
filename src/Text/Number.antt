-- ===== src/Text/Number.antt =====
-- Decimal numbers: `u32::from_str` and `u32::to_string`.
use peko_agent.Base.{
  ℕ, zero, suc, ◌+◌, ◌-◌, ◌*◌, ◌/◌, ◌%◌, ◌^◌, ◌≤◌, ◌<◌, ◌≡◌, refl, Bool, true, false, ◌&&◌, Option,
  none, some, [], ◌∷◌, ltb, leb, ◌==◌, if◌then◌else◌, All, arith, Bool-cases, inl, inr, ltb→lt,
  lt→ltb, ap, ◌∙◌, ◌≢◌,
}
use peko_agent.Text.{Text}

abbrev pub u32_mod : ℕ
u32_mod = 2 ^ 32

unfoldable pub is_digit : ℕ → Bool
is_digit c = leb 48 c && leb c 57

-- Each digit is taken with an overflow check; any other character is an error.
unfoldable pub parse_digits : ℕ → Text → Option ℕ
unfolding is_digit
parse_digits n [] = some n
parse_digits n (c ∷ s) =
    let rest = parse_digits (10 * n + (c - 48)) s in
    if is_digit c && ltb (10 * n + (c - 48)) u32_mod then rest else none

-- The digits after an optional `+`. No digit at all is an error.
unfoldable pub parse_u32 : Text → Option ℕ
unfolding parse_digits
parse_u32 [] = none
parse_u32 (c ∷ []) = parse_digits 0 (c ∷ [])
parse_u32 (c ∷ d ∷ s) = parse_digits 0 (if c == b'+' then d ∷ s else c ∷ d ∷ s)

-- `n` on fuel, in front of digits that are written already.
unfoldable pub digits_before : ℕ → ℕ → Text → Text
digits_before zero n s = (48 + n % 10) ∷ s
digits_before (suc f) n s = elim (ltb n 10) [
  | true ↦ (48 + n) ∷ s
  | false ↦ digits_before f (n / 10) ((48 + n % 10) ∷ s)
]

unfoldable pub to_string : ℕ → Text
unfolding digits_before
to_string n = digits_before n n []

-- A text of digits only.
abbrev pub IsNumeral : Text → Type 0
IsNumeral = All (λ c. is_digit c ≡ true)

is_digit_code : (d : ℕ) → d < 10 → is_digit (48 + d) ≡ true
unfolding is_digit
is_digit_code d h = ground arith

digits_before-IsNumeral : (f n : ℕ) (s : Text) → IsNumeral s → IsNumeral (digits_before f n s)
unfolding digits_before
digits_before-IsNumeral zero n s h = (is_digit_code (n % 10) (omega arith), h)
digits_before-IsNumeral (suc f) n s h = elim (Bool-cases (ltb n 10)) [
  | inl e ↦ rw (e, digits_before) (is_digit_code n (ltb→lt n 10 e), h)
  | inr e ↦
      rw (e, digits_before)
        (digits_before-IsNumeral f (n / 10) ((48 + n % 10) ∷ s)
          (is_digit_code (n % 10) (omega arith), h))
]

pub to_string-IsNumeral : (n : ℕ) → IsNumeral (to_string n)
unfolding to_string
to_string-IsNumeral n = digits_before-IsNumeral n n [] tt

digits_before-nonempty : (f n : ℕ) (s : Text) → digits_before f n s ≢ []
unfolding digits_before
digits_before-nonempty zero n s = ground arith
digits_before-nonempty (suc f) n s =
    ground (arith, digits_before-nonempty f (n / 10) ((48 + n % 10) ∷ s))

pub to_string-nonempty : (n : ℕ) → to_string n ≢ []
unfolding to_string
to_string-nonempty n = digits_before-nonempty n n []

parse_digits_code :
    (n d : ℕ) (s : Text)
    → d < 10
    → 10 * n + d < u32_mod
    → parse_digits n ((48 + d) ∷ s) ≡ parse_digits (10 * n + d) s
unfolding parse_digits
parse_digits_code n d s h k =
    let e : 48 + d - 48 ≡ d = omega arith in
    rw (e, is_digit_code d h, lt→ltb (10 * n + d) u32_mod k)

parse_digits-digits_before :
    (f n : ℕ) (s : Text)
    → n ≤ f
    → n < u32_mod
    → parse_digits 0 (digits_before f n s) ≡ parse_digits n s
unfolding digits_before
parse_digits-digits_before zero n s h k =
    let e : n ≡ 0 = omega arith in rw e (parse_digits_code 0 0 s (omega arith) (omega arith))
parse_digits-digits_before (suc f) n s h k = elim (Bool-cases (ltb n 10)) [
  | inl e ↦ rw (e, digits_before) (small (ltb→lt n 10 e))
  | inr e ↦
      rw (e, digits_before)
        (parse_digits-digits_before f (n / 10) ((48 + n % 10) ∷ s) (large e) (omega arith) ∙ last)
]
  where
    small : n < 10 → parse_digits 0 ((48 + n) ∷ s) ≡ parse_digits n s
    small lt =
        let e : 10 * 0 + n ≡ n = omega arith in
        parse_digits_code 0 n s lt (omega arith) ∙ ap (λ m. parse_digits m s) e

    large : ltb n 10 ≡ false → n / 10 ≤ f
    large e = ground arith

    last : parse_digits (n / 10) ((48 + n % 10) ∷ s) ≡ parse_digits n s
    last =
        let e : 10 * (n / 10) + n % 10 ≡ n = omega arith in
        parse_digits_code (n / 10) (n % 10) s (omega arith) (omega arith)
        ∙ ap (λ m. parse_digits m s) e

-- A numeral never starts with a sign, so nothing is dropped in front of its digits.
parse_u32_numeral : (s : Text) → IsNumeral s → s ≢ [] → parse_u32 s ≡ parse_digits 0 s
unfolding parse_u32
parse_u32_numeral [] h ne = absurd (ne refl)
parse_u32_numeral (c ∷ []) h ne = refl
parse_u32_numeral (c ∷ d ∷ s) h ne = rw (not_plus c h.0)
  where
    not_plus : (c : ℕ) → is_digit c ≡ true → (c == b'+') ≡ false
    not_plus c e = ground arith

-- Printing a 32-bit number and reading it back gives the number.
pub parse_u32-to_string : (n : ℕ) → n < u32_mod → parse_u32 (to_string n) ≡ some n
unfolding to_string parse_digits
parse_u32-to_string n h =
    parse_u32_numeral (to_string n) (to_string-IsNumeral n) (to_string-nonempty n)
    ∙ parse_digits-digits_before n n [] (omega arith) h

parse_digits-lt : (n : ℕ) (s : Text) (m : ℕ) → n < u32_mod → parse_digits n s ≡ some m → m < u32_mod
unfolding parse_digits
parse_digits-lt n [] m h e = ground arith
parse_digits-lt n (c ∷ s) m h e = ground (arith, parse_digits-lt (10 * n + (c - 48)) s m)

-- What is read fits in 32 bits.
pub parse_u32-lt : (s : Text) {m : ℕ} → parse_u32 s ≡ some m → m < u32_mod
unfolding parse_u32
parse_u32-lt [] e = cc
parse_u32-lt (c ∷ []) {m} e = parse_digits-lt 0 (c ∷ []) m (omega arith) e
parse_u32-lt (c ∷ d ∷ s) {m} e =
    parse_digits-lt 0 (if c == b'+' then d ∷ s else c ∷ d ∷ s) m (omega arith) e
