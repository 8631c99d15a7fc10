-- ===== src/Cron/Bounds.antt =====
-- The values that `parse_field` of crates/peko-core/src/cron.rs returns: their order and bounds.
use peko_agent.Base.{
  ℕ, ◌≤◌, ◌≡◌, ◌≢◌, List, [], ◌∷◌, ◌++◌, All, All-append, All-map, arith, Bool-cases, inl, inr,
  Option-cases, subst,
}
use peko_agent.Base.Results.{ok, >>=-eq-ok}
use peko_agent.Text.{Text, text, text_eq, trim, strip_prefix}
use peko_agent.Text.Split.{split}
use peko_agent.Cron.Values.{range, sort, dedup}
use peko_agent.Cron.Lists.{IsAscending, sort-IsSorted, dedup-IsAscending, All-sort, All-dedup}
use peko_agent.Cron.Range.{range-All}
use peko_agent.Cron.Field.{parse_part, parse_parts, check_values, parse_field}
use peko_agent.Cron.Parts.{
  StepFits, InRange, parse_plain-InRange, parse_step-le, parse_step-InRange,
}

module _ (min max : ℕ) (name : Text) where
  parse_part-le :
      (part : Text) (vs : List ℕ)
      → min ≤ max
      → parse_part min max name part ≡ ok vs
      → All (λ v. v ≤ max) vs
  unfolding parse_part
  parse_part-le part vs h e = elim (Bool-cases (text_eq part (text "*"))) [
    | inl star ↦
        let r : range min max ≡ vs = cc (rw (star, parse_part) at e) in
        subst (All (λ v. v ≤ max)) r (
          All-map (λ v. (min ≤ v) × (v ≤ max)) (λ v. v ≤ max) _ (λ x k. k.1)
            (range-All min max min max (omega arith) (omega arith) h))
    | inr no_star ↦ elim (Option-cases (strip_prefix (text "*/") part)) [
      | inl plain ↦
          All-map (λ v. (min ≤ v) × (v ≤ max)) (λ v. v ≤ max) _ (λ x k. k.1)
            (parse_plain-InRange min max name part vs (rw (no_star, plain, parse_part) at e))
      | inr (s, every_step) ↦
          parse_step-le min max name s vs (rw (no_star, every_step, parse_part) at e)
    ]
  ]

  parse_part-InRange :
      (part : Text) (vs : List ℕ)
      → min ≤ max
      → StepFits max part
      → parse_part min max name part ≡ ok vs
      → InRange min max name vs
  unfolding parse_part
  parse_part-InRange part vs h fits e = elim (Bool-cases (text_eq part (text "*"))) [
    | inl star ↦
        let r : range min max ≡ vs = cc (rw (star, parse_part) at e) in
        subst (InRange min max name) r (range-All min max min max (omega arith) (omega arith) h)
    | inr no_star ↦ elim (Option-cases (strip_prefix (text "*/") part)) [
      | inl plain ↦ parse_plain-InRange min max name part vs (rw (no_star, plain, parse_part) at e)
      | inr (s, every_step) ↦
          parse_step-InRange min max name s vs (λ step r. fits s step every_step r)
            (rw (no_star, every_step, parse_part) at e)
    ]
  ]

  -- What holds of the values of each part holds of the values of all.
  parse_parts-All :
      (P : ℕ → Type 0) (Q : Text → Type 0)
      → ((part : Text) (vs : List ℕ) → Q part → parse_part min max name part ≡ ok vs → All P vs)
      → (parts : List Text) (us vs : List ℕ) → All (λ p. Q (trim p)) parts
      → All P us
      → parse_parts min max name us parts ≡ ok vs
      → All P vs
  unfolding parse_parts
  parse_parts-All P Q each [] us vs q h e = let r : us ≡ vs = cc in subst (All P) r h
  parse_parts-All P Q each (p ∷ ps) us vs q h e =
      let (pushed, e₁, e₂) = >>=-eq-ok (parse_part min max name (trim p)) _ e in
      parse_parts-All P Q each ps (us ++ pushed) vs q.1
        (All-append P us pushed h (each (trim p) pushed q.0 e₁)) e₂

  check_values-eq-ok :
      (us vs : List ℕ) → check_values min max name us ≡ ok vs → (us ≡ vs) × (vs ≢ [])
  unfolding check_values
  check_values-eq-ok [] vs e = cc
  check_values-eq-ok (u ∷ us) vs e = (cc, ground arith)

  -- A field that is accepted: the sorted values of its parts, without doubles, at least one.
  pub parse_field-eq-ok :
      (field : Text) (vs : List ℕ)
      → parse_field min max name field ≡ ok vs
      → (us : List ℕ) × (parse_parts min max name [] (split b',' field) ≡ ok us)
        × (dedup (sort us) ≡ vs)
        × (vs ≢ [])
  unfolding parse_field
  parse_field-eq-ok field vs e =
      let (us, e₁, e₂) = >>=-eq-ok (parse_parts min max name [] (split b',' field)) _ e in
      let (r, ne) = check_values-eq-ok (dedup (sort us)) vs e₂ in (us, e₁, r, ne)

  -- An accepted field has at least one value, its values are strictly ascending, and none is above
  -- the maximum.
  pub parse_field-IsAscending :
      (field : Text) (vs : List ℕ)
      → min ≤ max
      → parse_field min max name field ≡ ok vs
      → (vs ≢ []) × IsAscending vs × All (λ v. v ≤ max) vs
  parse_field-IsAscending field vs h e =
      let (us, e₁, r, ne) = parse_field-eq-ok field vs e in
      (
        ne,
        subst IsAscending r (dedup-IsAscending (sort us) (sort-IsSorted us)),
        subst (All (λ v. v ≤ max)) r (
            All-dedup _ (sort us) (
              All-sort _ us (
                parse_parts-All (λ v. v ≤ max) (λ _. Unit) (λ p ws _. parse_part-le p ws h)
                  (split b',' field) [] us (anything (split b',' field)) tt e₁))),
      )
    where
      anything : (parts : List Text) → All (λ _. Unit {0}) parts
      anything [] = tt
      anything (p ∷ ps) = (tt, anything ps)

  -- Unless a step wraps at 2 ^ 32, every value of an accepted field lies between its minimum and
  -- its maximum.
  pub parse_field-InRange :
      (field : Text) (vs : List ℕ)
      → min ≤ max
      → All (λ p. StepFits max (trim p)) (split b',' field)
      → parse_field min max name field ≡ ok vs
      → All (λ v. (min ≤ v) × (v ≤ max)) vs
  parse_field-InRange field vs h fits e =
      let (us, e₁, r, _) = parse_field-eq-ok field vs e in
      subst (InRange min max name) r (
        All-dedup _ (sort us) (
          All-sort _ us (
            parse_parts-All (λ v. (min ≤ v) × (v ≤ max)) (StepFits max)
              (λ p ws fits. parse_part-InRange p ws h fits) (split b',' field) [] us fits tt e₁)))
