-- ===== src/Brain/Routing.antt =====
-- The choice of a model in crates/peko-core/src/brain.rs by mode, skills and simplicity, and its
-- log line.

use peko_agent.Base.{
  ℕ, ◌+◌, ◌-◌, ◌≤◌, ◌<◌, ◌≡◌, Bool, true, false, none, some, List, ◌∷◌, ◌++◌, leb, arith, ◌↔◌, ◌⊎◌,
  inl, inr, Bool-cases,
}
use peko_agent.Text.{Text, len, len_utf8, slice_to}
use peko_agent.Text.Bytes.{IsAscii, slice_to-ascii, slice_to_inside, len-append}
use peko_agent.Brain.{
  local, dual, local_only, DualBrain, SkillUse, truncate, is_simple_task, has_good_skill, route,
  classify,
}

module _ (lower : Text → Text) (search : Text → List SkillUse) (is_good_rate : ℕ → ℕ → Bool) where
  -- A task goes to the local model exactly if the mode is local only, or the mode is dual and a
  -- known skill is good or the task is simple.
  pub route_iff :
      (b : DualBrain) (with_skills : Bool) (input : Text)
      → (route lower search is_good_rate b with_skills input ≡ local) ↔ (
          (b.mode ≡ local_only)
          ⊎ (b.mode ≡ dual)
            × (((with_skills ≡ true) × (has_good_skill lower search is_good_rate input ≡ true))
                ⊎ (is_simple_task lower search is_good_rate b input ≡ true)))
  unfolding route
  route_iff b with_skills input = (λ e. ground arith, λ e. ground arith)

  -- The choice of a model does not panic for a task in ASCII or of at most 60 bytes, and is the
  -- choice by mode, skills and simplicity.
  pub classify_total :
      (b : DualBrain) (with_skills : Bool) (input : Text)
      → IsAscii input ⊎ (len input ≤ 60)
      → classify lower search is_good_rate b with_skills input
        ≡ some (route lower search is_good_rate b with_skills input)
  unfolding classify truncate
  classify_total b with_skills input h = elim (Bool-cases (leb (len input) 60)) [
    | inl short ↦ rw short
    | inr long ↦ elim h [
      | inl ascii ↦ rw (long, slice_to-ascii 60 input ascii (ground arith))
      | inr short ↦ absurd (ground arith)
    ]
  ]

  -- The log line panics whenever byte 60 of the task lies inside a character, so in every mode such
  -- a task ends the program.
  pub classify_panics :
      (b : DualBrain) (with_skills : Bool) (before after : Text) (c : ℕ)
      → len before < 60
      → 60 < len before + len_utf8 c
      → classify lower search is_good_rate b with_skills (before ++ (c ∷ after)) ≡ none
  unfolding classify truncate len
  classify_panics b with_skills before after c h k =
      let l = len-append before (c ∷ after) in
      let inside = slice_to_inside before c after (60 - len before) (omega arith) (omega arith) in
      let at : len before + (60 - len before) ≡ 60 = omega arith in
      let cut : slice_to 60 (before ++ (c ∷ after)) ≡ none = rw at at inside in
      let long : leb (len (before ++ (c ∷ after))) 60 ≡ false = ground (arith, l) in rw (long, cut)
