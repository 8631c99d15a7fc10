-- ===== src/Cron/Range.antt =====
-- What the loops of `parse_field` and `parse_range` push: bounds, members, and the loop's end.
use native.Mathlib.Nat.{mod-eq_of_lt, mod-eq-sub-mod}
use native.Mathlib.Decide.{dec_lt}
use peko_agent.Base.{
  ℕ, zero, suc, ◌+◌, ◌-◌, ◌%◌, ◌^◌, ◌≤◌, ◌<◌, ◌≡◌, refl, ◌&&◌, ltb, leb, ◌==◌, All, arith,
  Bool-cases, inl, inr, leb→le, ◌∙◌, ap,
}
use peko_agent.Text.Number.{u32_mod}
use peko_agent.Cron.Values.{has, range_from, range, steps, every}

range_from-All :
    (n a lo hi : ℕ) → lo ≤ a → a + n ≤ hi + 1 → All (λ v. (lo ≤ v) × (v ≤ hi)) (range_from n a)
unfolding range_from
range_from-All zero a lo hi h k = tt
range_from-All (suc n) a lo hi h k =
    ((h, omega arith), range_from-All n (a + 1) lo hi (omega arith) (omega arith))

pub range-All :
    (a b lo hi : ℕ) → lo ≤ a → b ≤ hi → a ≤ b → All (λ v. (lo ≤ v) × (v ≤ hi)) (range a b)
unfolding range
range-All a b lo hi h k le = range_from-All (b + 1 - a) a lo hi h (omega arith)

mod_same : (m n step : ℕ) → m ≡ n → m % step ≡ n % step
mod_same m n step e = ap (λ k. k % step) e

-- Every `step`-th number of a range, from the count `i` on.
every-range_from :
    (x step n a i : ℕ)
    → has x (every step i (range_from n a))
      ≡ (leb a x && ltb x (a + n) && (i + (x - a)) % step == 0)
unfolding has every range_from
every-range_from x step zero a i = ground arith
every-range_from x step (suc n) a i = ground (
  arith,
  every-range_from x step n (a + 1) (i + 1),
  mod_same (i + 1 + (x - (a + 1))) (i + (x - a)) step,
  mod_same i (i + (x - a)) step,
)

-- Of a range that is not reversed, the values that every step keeps are those whose distance from
-- the start is a multiple of the step.
pub has-every-range :
    (x step a b : ℕ)
    → a ≤ b
    → has x (every step 0 (range a b)) ≡ (leb a x && leb x b && (x - a) % step == 0)
unfolding range
has-every-range x step a b h = every-range_from x step (b + 1 - a) a 0 ∙ last
  where
    last :
        (leb a x && ltb x (a + (b + 1 - a)) && (0 + (x - a)) % step == 0)
        ≡ (leb a x && leb x b && (x - a) % step == 0)
    last = ground (arith, mod_same (0 + (x - a)) (x - a) step)

-- One step further the residue is the same; within one step it is the distance.
residue :
    (x v step : ℕ)
    → 0 < step
    → (v + step ≤ x → (x - v) % step ≡ (x - (v + step)) % step)
      × (v ≤ x → x < v + step → (x - v) % step ≡ x - v)
residue x v step p = (further, λ h k. mod-eq_of_lt (omega arith))
  where
    further : v + step ≤ x → (x - v) % step ≡ (x - (v + step)) % step
    further h =
        let e : x - v - step ≡ x - (v + step) = omega arith in
        mod-eq-sub-mod (omega arith) ∙ mod_same _ _ step e

has-range_from : (x n a : ℕ) → has x (range_from n a) ≡ (leb a x && ltb x (a + n))
unfolding has range_from
has-range_from x zero a = ground arith
has-range_from x (suc n) a = ground (arith, has-range_from x n (a + 1))

pub has-range : (x a b : ℕ) → a ≤ b → has x (range a b) ≡ (leb a x && leb x b)
unfolding range
has-range x a b h = has-range_from x (b + 1 - a) a ∙ ground arith

module _ (max step : ℕ) where
  pub steps-le : (f v : ℕ) → All (λ w. w ≤ max) (steps max step f v).0
  unfolding steps
  steps-le zero v = tt
  steps-le (suc f) v = elim (Bool-cases (leb v max)) [
    | inl e ↦ rw (e, steps, All) (leb→le v max e, steps-le f ((v + step) % u32_mod))
    | inr e ↦ rw (e, steps, All) tt
  ]

  -- With room for one more step below 2 ^ 32 nothing wraps: the loop visits `v`, `v + step`, … up to
  -- `max`, and no other number.
  pub has-steps :
      (x f v : ℕ)
      → 0 < step
      → max + step < u32_mod
      → max < v + f
      → has x (steps max step f v).0 ≡ (leb v x && leb x max && (x - v) % step == 0)
  unfolding steps has
  has-steps x zero v p h k = ground arith
  has-steps x (suc f) v p h k = elim (Bool-cases (leb v max)) [
    | inl e ↦
        let le : v ≤ max = leb→le v max e in
        let w : (v + step) % u32_mod ≡ v + step = mod-eq_of_lt (omega arith) in
        rw (e, steps, w)
          (ground (arith, residue x v step p, has-steps x f (v + step) p h (omega arith)))
    | inr e ↦ rw (e, steps) (ground arith)
  ]

  -- A small step only climbs.
  steps_climb :
      (f v : ℕ) → 0 < step → max + step < u32_mod → max < v + f → max < (steps max step f v).1
  unfolding steps
  steps_climb zero v p h k = omega arith
  steps_climb (suc f) v p h k = elim (Bool-cases (leb v max)) [
    | inl e ↦
        let le : v ≤ max = leb→le v max e in
        let w : (v + step) % u32_mod ≡ v + step = mod-eq_of_lt (omega arith) in
        rw (e, steps, w) (steps_climb f (v + step) p h (omega arith))
    | inr e ↦ rw (e, steps) (ground arith)
  ]

  steps_beyond : (f v : ℕ) → max < v → (steps max step f v).1 ≡ v
  unfolding steps
  steps_beyond zero v h = refl
  steps_beyond (suc f) v h = ground arith

  -- A step past half the word wraps, and goes down until it jumps over `max`.
  steps_fall :
      (f v : ℕ)
      → v < u32_mod
      → step < u32_mod
      → max < step
      → v + 1 < f
      → max < (steps max step f v).1
  unfolding steps
  steps_fall zero v b p h k = absurd (omega arith)
  steps_fall (suc f) v b p h k = elim (Bool-cases (leb v max)) [
    | inl e ↦
        rw (e, steps)
          (elim (dec_lt (v + step) u32_mod) [
            | yes over ↦
                let w : (v + step) % u32_mod ≡ v + step = mod-eq_of_lt over in
                rw (w, steps_beyond f (v + step) (omega arith)) (omega arith)
            | no wraps ↦
                let w : (v + step) % u32_mod ≡ v + step - u32_mod = omega arith in
                rw w (steps_fall f (v + step - u32_mod) (omega arith) p h (omega arith))
          ])
    | inr e ↦ rw (e, steps) (ground arith)
  ]

  -- The loop of a step field ends: for a field whose maximum is below 2^31 and a positive step, the
  -- value is past the maximum after at most two rounds more than the maximum, even where the
  -- addition wraps.
  pub steps_end :
      (v : ℕ)
      → 0 < step
      → step < u32_mod
      → v ≤ max
      → max < 2 ^ 31
      → max < (steps max step (max + 2) v).1
  steps_end v p q h b = elim (dec_lt (max + step) u32_mod) [
    | yes fits ↦ steps_climb (max + 2) v p fits (omega arith)
    | no wraps ↦ steps_fall (max + 2) v (omega arith) q (omega arith) (omega arith)
  ]

  pub steps-InRange :
      (lo f v : ℕ)
      → lo ≤ v
      → max + step < u32_mod
      → All (λ w. (lo ≤ w) × (w ≤ max)) (steps max step f v).0
  unfolding steps
  steps-InRange lo zero v h k = tt
  steps-InRange lo (suc f) v h k = elim (Bool-cases (leb v max)) [
    | inl e ↦
        let le : v ≤ max = leb→le v max e in
        let w : (v + step) % u32_mod ≡ v + step = mod-eq_of_lt (omega arith) in
        rw (e, steps, All, w) ((h, le), steps-InRange lo f (v + step) (omega arith) k)
    | inr e ↦ rw (e, steps, All) tt
  ]
