-- ===== src/Cron/Members.antt =====
-- Which values the forms of a field stand for: `*`, `*/n`, `a-b/n` and lists with commas.
use mathlib.Core.List.{append_assoc, append-nil}
use peko_agent.Base.{
  ℕ, ◌+◌, ◌-◌, ◌%◌, ◌≤◌, ◌<◌, ◌≡◌, ◌≢◌, refl, true, ◌&&◌, ◌||◌, List, [], ◌∷◌, ◌++◌, leb, ◌==◌,
  arith, ap, sym, ◌∙◌, subst,
}
use peko_agent.Base.Results.{ok, ◌>>=◌, >>=-eq-ok}
use peko_agent.Text.{Text, text, text_eq, trim, strip_prefix, is_whitespace}
use peko_agent.Text.Number.{to_string, to_string-IsNumeral, parse_u32-to_string, u32_mod, is_digit}
use peko_agent.Text.Split.{split, IsFree, IsSolid, split-free, split-free-append, trim-solid}
use peko_agent.Cron.Values.{has, steps, range, sort, dedup}
use peko_agent.Cron.Lists.{has-sort, has-dedup, has-append}
use peko_agent.Cron.Range.{has-steps, has-range}
use peko_agent.Cron.Print.{numeral-IsFree, numeral-IsSolid}
use peko_agent.Cron.Field.{parse_step, parse_part, parse_parts, check_values, parse_field}
use peko_agent.Cron.Bounds.{parse_field-eq-ok}

pub has-dedup-sort : (x : ℕ) (us : List ℕ) → has x (dedup (sort us)) ≡ has x us
has-dedup-sort x us = has-dedup x (sort us) ∙ has-sort x us

some_member : (us : List ℕ) → us ≢ [] → (x : ℕ) × (has x us ≡ true)
unfolding has
some_member [] h = absurd (h refl)
some_member (u ∷ us) h = (u, ground arith)

module _ (min max : ℕ) (name : Text) where
  at_min : (n : ℕ) → min ≤ max → (leb min min && leb min max && (min - min) % n == 0) ≡ true
  at_min n h =
      let e : min - min ≡ 0 = omega arith in
      let z : 0 % n ≡ 0 = omega arith in rw (e, z) (ground arith)

  check_values-has : (x : ℕ) (us : List ℕ) → has x us ≡ true → check_values min max name us ≡ ok us
  unfolding check_values has
  check_values-has x [] h = cc
  check_values-has x (u ∷ us) h = refl

  -- A field of one part is accepted as soon as the part pushes something.
  parse_field_single :
      (part : Text) (us : List ℕ) (x : ℕ)
      → IsFree b',' part
      → IsSolid part
      → parse_part min max name part ≡ ok us
      → has x us ≡ true
      → parse_field min max name part ≡ ok (dedup (sort us))
  unfolding parse_field parse_parts
  parse_field_single part us x free solid e h =
      rw (split-free b',' part free, trim-solid part solid, e)
        (check_values-has x (dedup (sort us)) (has-dedup-sort x us ∙ h))

  -- A field `*` is accepted and holds exactly the values of the field.
  pub parse_field-star :
      min ≤ max
      → (vs : List ℕ) × (parse_field min max name (text "*") ≡ ok vs)
        × ((x : ℕ) → has x vs ≡ (leb min x && leb x max))
  unfolding parse_part text_eq is_whitespace
  parse_field-star h = (
    dedup (sort (range min max)),
    parse_field_single (text "*") (range min max) min (refl, tt) (refl, tt) refl
        (has-range min min max h ∙ ground arith),
    λ x. has-dedup-sort x (range min max) ∙ has-range x min max h,
  )

  parse_part-step :
      (n : ℕ)
      → 0 < n
      → n < u32_mod
      → parse_part min max name (text "*/" ++ to_string n) ≡ ok (steps max n (max + 2) min).0
  unfolding parse_part text_eq strip_prefix parse_step
  parse_part-step n p q = rw (parse_u32-to_string n q) (ground arith)

  -- A field `*/n`, with n positive and too small for the addition to wrap, is accepted and holds
  -- exactly the values of the field that are a multiple of n above its minimum.
  pub parse_field-step :
      (n : ℕ)
      → min ≤ max
      → 0 < n
      → max + n < u32_mod
      → (vs : List ℕ) × (parse_field min max name (text "*/" ++ to_string n) ≡ ok vs)
        × ((x : ℕ) → has x vs ≡ (leb min x && leb x max && (x - min) % n == 0))
  unfolding is_whitespace is_digit
  parse_field-step n h p k =
      let pushed = (steps max n (max + 2) min).0 in
      let members = λ (x : ℕ). has-steps max n x (max + 2) min p k (omega arith) in
      let num = to_string-IsNumeral n in
      (
        dedup (sort pushed),
        parse_field_single (text "*/" ++ to_string n) pushed min
            (refl, (refl, numeral-IsFree b',' (to_string n) refl num))
            (refl, (refl, numeral-IsSolid (to_string n) num)) (parse_part-step n p (omega arith))
            (members min ∙ at_min n h),
        λ x. has-dedup-sort x pushed ∙ members x,
      )

  parse_parts-from :
      (acc us ws : List ℕ) (parts : List Text)
      → parse_parts min max name us parts ≡ ok ws
      → parse_parts min max name (acc ++ us) parts ≡ ok (acc ++ ws)
  unfolding parse_parts
  parse_parts-from acc us ws [] e = let r : us ≡ ws = cc in ap (λ l. ok (acc ++ l)) r
  parse_parts-from acc us ws (p ∷ ps) e =
      let (pushed, e₁, e₂) = >>=-eq-ok (parse_part min max name (trim p)) _ e in
      rw (e₁, append_assoc acc us pushed) (parse_parts-from acc (us ++ pushed) ws ps e₂)

  from_start :
      (acc ws : List ℕ) (parts : List Text)
      → parse_parts min max name [] parts ≡ ok ws
      → parse_parts min max name acc parts ≡ ok (acc ++ ws)
  from_start acc ws parts e =
      subst (λ l. parse_parts min max name l parts ≡ ok (acc ++ ws)) (append-nil acc)
        (parse_parts-from acc [] ws parts e)

  parse_parts_single :
      (part : Text) (us : List ℕ)
      → parse_parts min max name [] (part ∷ []) ≡ ok us
      → parse_part min max name (trim part) ≡ ok us
  unfolding parse_parts
  parse_parts_single part us e =
      let (pushed, e₁, e₂) = >>=-eq-ok (parse_part min max name (trim part)) _ e in
      let same : pushed ≡ us = cc in e₁ ∙ ap ok same

  two_parts :
      (part rest : Text) (us ws : List ℕ) (x : ℕ)
      → IsFree b',' part
      → parse_part min max name (trim part) ≡ ok us
      → parse_parts min max name [] (split b',' rest) ≡ ok ws
      → has x (us ++ ws) ≡ true
      → parse_field min max name (part ++ (b',' ∷ rest)) ≡ ok (dedup (sort (us ++ ws)))
  unfolding parse_field parse_parts
  two_parts part rest us ws x free e₁ e₂ h =
      rw (split-free-append b',' part rest free, e₁)
        (ap (λ r. r >>= λ vs. check_values min max name (dedup (sort vs)))
            (from_start us ws (split b',' rest) e₂)
          ∙ check_values-has x (dedup (sort (us ++ ws))) (has-dedup-sort x (us ++ ws) ∙ h))

  -- If two fields are accepted and the first has no comma, then the field that joins them with a
  -- comma is accepted and holds exactly the values of both.
  pub parse_field-comma :
      (part rest : Text) (us ws : List ℕ)
      → IsFree b',' part
      → parse_field min max name part ≡ ok us
      → parse_field min max name rest ≡ ok ws
      → (vs : List ℕ) × (parse_field min max name (part ++ (b',' ∷ rest)) ≡ ok vs)
        × ((x : ℕ) → has x vs ≡ (has x us || has x ws))
  parse_field-comma part rest us ws free e₁ e₂ =
      let (ls, a₁, a₂, a₃) = parse_field-eq-ok min max name part us e₁ in
      let (rs, b₁, b₂, b₃) = parse_field-eq-ok min max name rest ws e₂ in
      let first = parse_parts_single part ls (rw (split-free b',' part free) at a₁) in
      let (x, member) = some_member us a₃ in
      let found : has x (ls ++ rs) ≡ true =
        ground (arith, has-append x ls rs, has-dedup-sort x ls, ap (has x) a₂) in
      (
        dedup (sort (ls ++ rs)),
        two_parts part rest ls rs x free first b₁ found,
        λ y.
            (has-dedup-sort y (ls ++ rs)
              ∙ has-append y ls rs
              ∙ ap (λ b. b || has y rs) (sym (has-dedup-sort y ls) ∙ ap (has y) a₂)
              ∙ ap (λ b. has y us || b) (sym (has-dedup-sort y rs) ∙ ap (has y) b₂)),
      )
