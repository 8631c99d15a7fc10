-- ===== src/Runtime/Limits.antt =====
-- The counters of a task, and what is left of its budget and its handover after a round.
use peko_agent.Base.{ℕ, ◌+◌, ◌≤◌, ◌<◌, ◌≡◌, refl, sym, ◌∙◌, arith, if◌then◌else◌, ◌==◌}
use peko_agent.Budget.{usize_mod, decrement}
use peko_agent.Budget.Spending.{decrement_pos}
use peko_agent.Runtime.{Running}
use peko_agent.Runtime.Rounds.{Step, stop, again, spent}
use peko_agent.Runtime.Progress.{SamePace, IsHandover}

pub record IsWithin (max limit : ℕ) {V : Type 0} (s : Running V) : Type 0 where
  pub budget_max : s.budget.max ≡ max
  pub word : max < usize_mod
  pub remaining : s.budget.remaining ≤ max
  pub escalations : s.escalation_count ≤ 1
  pub total : s.total_iterations + s.budget.remaining ≤ limit
  pub room : max ≤ limit

-- The rounds that are left: a handover may still give a full budget.
unfoldable pub left : {V : Type 0} → ℕ → Running V → ℕ
left max s = (if s.escalation_count == 0 then max + 1 else 0) + s.budget.remaining

-- What a round that started with `s` may lead to.
unfoldable pub StepWithin : {V : Type 0} → ℕ → ℕ → Running V → Step V → Type 0
StepWithin max limit s (stop t) = t.total_iterations ≤ limit
StepWithin max limit s (again t) = IsWithin max limit t × (left max t < left max s)

module _ (max limit : ℕ) {V : Type 0} where
  pub SamePace-IsWithin :
      {s t : Running V} → SamePace s t → IsWithin max limit s → IsWithin max limit t
  SamePace-IsWithin {s} {t} p i = record {
    budget_max = p.max ∙ i.budget_max;
    word = i.word;
    remaining = omega (arith, p.remaining, i.remaining);
    escalations = omega (arith, p.escalations, i.escalations);
    total = omega (arith, p.remaining, p.total, i.total);
    room = i.room;
  }

  pub SamePace-left : {s t : Running V} → SamePace s t → left max t ≡ left max s
  unfolding left
  SamePace-left p = rw (p.remaining, p.escalations) refl

  pub StepWithin-pace :
      {s t : Running V} (st : Step V)
      → SamePace s t
      → StepWithin max limit t st
      → StepWithin max limit s st
  unfolding StepWithin
  StepWithin-pace (stop u) p h = h
  StepWithin-pace (again u) p (i, h) = (i, rw (sym (SamePace-left p)) h)

  -- A handover leaves fewer rounds, since it is the last one.
  pub IsHandover-Within :
      (s t : Running V)
      → IsWithin max limit s
      → 0 < s.budget.remaining
      → IsHandover s t
      → StepWithin max limit s (again t)
  unfolding StepWithin left
  IsHandover-Within s t i h p = (
    record {
      budget_max = p.max ∙ i.budget_max;
      word = i.word;
      remaining = omega (arith, p.remaining, i.budget_max);
      escalations = omega (arith, p.once);
      total = omega (arith, p.remaining, i.budget_max, p.total, i.room);
      room = i.room;
    },
    rw (p.once, p.first) (omega (arith, p.remaining, i.budget_max)),
  )

  -- A round without a handover takes one iteration from the budget and counts it.
  pub spent-Within :
      (s t : Running V)
      → IsWithin max limit s
      → 0 < s.budget.remaining
      → SamePace s t
      → StepWithin max limit s
          (spent (record t { total_iterations = t.total_iterations + 1 }) (decrement t.budget))
  unfolding StepWithin left
  spent-Within s t i h p =
      rw
        (decrement_pos t.budget
          (record {
            within = omega (arith, p.remaining, p.max, i.budget_max, i.remaining);
            word = omega (arith, p.max, i.budget_max, i.word);
          })
          (omega (arith, p.remaining)))
        (
          record {
            budget_max = p.max ∙ i.budget_max;
            word = i.word;
            remaining = omega (arith, p.remaining, i.remaining);
            escalations = omega (arith, p.escalations, i.escalations);
            total = omega (arith, p.remaining, p.total, i.total);
            room = i.room;
          },
          rw (p.escalations) (omega (arith, p.remaining)),
        )
