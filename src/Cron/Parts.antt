-- ===== src/Cron/Parts.antt =====
-- The parts of a cron field in crates/peko-core/src/cron.rs: the bounds of the values that they
-- push.
use peko_agent.Base.{
  ℕ, ◌+◌, ◌%◌, ◌≤◌, ◌<◌, ◌≡◌, ◌||◌, List, [], ◌∷◌, ltb, ◌==◌, All, arith, Bool-cases, inl, inr,
  some, subst,
}
use peko_agent.Base.Results.{ok, >>=-eq-ok, ok_or, guard-eq-ok, ok_or-eq-ok}
use peko_agent.Text.{Text, text, strip_prefix, contains_char}
use peko_agent.Text.Number.{parse_u32, u32_mod}
use peko_agent.Text.Split.{split}
use peko_agent.Cron.Values.{range, steps, every}
use peko_agent.Cron.Range.{range-All, steps-le, steps-InRange}
use peko_agent.Cron.Field.{
  check_range, range_of_pieces, parse_range, parse_step, range_step_of_pieces, parse_single,
  parse_plain,
}

every-All : (P : ℕ → Type 0) (step i : ℕ) (vs : List ℕ) → All P vs → All P (every step i vs)
unfolding every
every-All P step i [] h = tt
every-All P step i (v ∷ vs) h = elim (Bool-cases (i % step == 0)) [
  | inl e ↦ rw (e, every, All) (h.0, every-All P step (i + 1) vs h.1)
  | inr e ↦ rw (e, every) (every-All P step (i + 1) vs h.1)
]

-- The step of a part `*/step` leaves room below 2 ^ 32, so adding it to a value never wraps.
abbrev pub StepFits : ℕ → Text → Type 0
StepFits max part =
    (s : Text) (step : ℕ)
    → strip_prefix (text "*/") part ≡ some s
    → parse_u32 s ≡ some step
    → max + step < u32_mod

module _ (min max : ℕ) (name : Text) where
  abbrev pub InRange : List ℕ → Type 0
  InRange = All (λ v. (min ≤ v) × (v ≤ max))

  check_range-eq-ok :
      (a b : ℕ) (vs : List ℕ)
      → check_range min max name a b ≡ ok vs
      → (min ≤ a) × (b ≤ max) × (a ≤ b) × (range a b ≡ vs)
  unfolding check_range
  check_range-eq-ok a b vs e = ground arith

  check_range-InRange : (a b : ℕ) (vs : List ℕ) → check_range min max name a b ≡ ok vs → InRange vs
  check_range-InRange a b vs e =
      let (lo, hi, le, r) = check_range-eq-ok a b vs e in
      subst InRange r (range-All a b min max lo hi le)

  range_of_pieces-InRange :
      (s : Text) (ps : List Text) (vs : List ℕ)
      → range_of_pieces min max name s ps ≡ ok vs
      → InRange vs
  unfolding range_of_pieces
  range_of_pieces-InRange s (a ∷ b ∷ []) vs e =
      let (start, _, e₁) = >>=-eq-ok (ok_or (parse_u32 a) _) _ e in
      let (end, _, e₂) = >>=-eq-ok (ok_or (parse_u32 b) _) _ e₁ in
      check_range-InRange start end vs e₂
  range_of_pieces-InRange s _ vs e = cc

  pub parse_range-InRange :
      (s : Text) (vs : List ℕ) → parse_range min max name s ≡ ok vs → InRange vs
  unfolding parse_range
  parse_range-InRange s vs e = range_of_pieces-InRange s (split b'-' s) vs e

  pub range_step_of_pieces-InRange :
      (s : Text) (ps : List Text) (vs : List ℕ)
      → range_step_of_pieces min max name s ps ≡ ok vs
      → InRange vs
  unfolding range_step_of_pieces
  range_step_of_pieces-InRange s (a ∷ b ∷ []) vs e =
      let (us, r, e₁) = >>=-eq-ok (parse_range min max name a) _ e in
      let (step, _, e₂) = >>=-eq-ok (ok_or (parse_u32 b) _) _ e₁ in
      let (_, e₃) = guard-eq-ok (step == 0) _ _ e₂ in
      let pushed : every step 0 us ≡ vs = cc in
      subst InRange pushed (every-All _ step 0 us (parse_range-InRange a us r))
  range_step_of_pieces-InRange s _ vs e = cc

  pub parse_single-InRange :
      (s : Text) (vs : List ℕ) → parse_single min max name s ≡ ok vs → InRange vs
  unfolding parse_single
  parse_single-InRange s vs e =
      let (v, _, e₁) = >>=-eq-ok (ok_or (parse_u32 s) _) _ e in
      let (inside, e₂) = guard-eq-ok (ltb v min || ltb max v) _ _ e₁ in
      let one : v ∷ [] ≡ vs = cc in subst InRange one (ground arith)

  pub parse_plain-InRange :
      (s : Text) (vs : List ℕ) → parse_plain min max name s ≡ ok vs → InRange vs
  unfolding parse_plain
  parse_plain-InRange s vs e = elim (Bool-cases (contains_char b'/' s)) [
    | inl slash ↦ range_step_of_pieces-InRange s (split b'/' s) vs (rw (slash, parse_plain) at e)
    | inr no_slash ↦ elim (Bool-cases (contains_char b'-' s)) [
      | inl dash ↦ parse_range-InRange s vs (rw (no_slash, dash, parse_plain) at e)
      | inr no_dash ↦ parse_single-InRange s vs (rw (no_slash, no_dash, parse_plain) at e)
    ]
  ]

  pub parse_step-le :
      (s : Text) (vs : List ℕ) → parse_step min max name s ≡ ok vs → All (λ v. v ≤ max) vs
  unfolding parse_step
  parse_step-le s vs e =
      let (step, _, e₁) = >>=-eq-ok (ok_or (parse_u32 s) _) _ e in
      let (_, e₂) = guard-eq-ok (step == 0) _ _ e₁ in
      let pushed : (steps max step (max + 2) min).0 ≡ vs = cc in
      subst (All (λ v. v ≤ max)) pushed (steps-le max step (max + 2) min)

  pub parse_step-InRange :
      (s : Text) (vs : List ℕ)
      → ((step : ℕ) → parse_u32 s ≡ some step → max + step < u32_mod)
      → parse_step min max name s ≡ ok vs
      → InRange vs
  unfolding parse_step
  parse_step-InRange s vs fits e =
      let (step, r, e₁) = >>=-eq-ok (ok_or (parse_u32 s) _) _ e in
      let (_, e₂) = guard-eq-ok (step == 0) _ _ e₁ in
      let pushed : (steps max step (max + 2) min).0 ≡ vs = cc in
      subst InRange pushed (
        steps-InRange max step min (max + 2) min (omega arith)
          (fits step (ok_or-eq-ok (parse_u32 s) _ r)))
