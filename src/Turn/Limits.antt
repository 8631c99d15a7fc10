-- ===== src/Turn/Limits.antt =====
-- What a round of `run_turn` of crates/peko-core/src/runtime.rs leaves of the budget.
use peko_agent.Base.{
  ℕ, ◌+◌, ◌-◌, ◌≤◌, ◌<◌, ◌≡◌, refl, sym, ◌∙◌, subst, arith, Bool, true, false, Option, List, [],
  ◌∷◌, Bool-cases, inl, inr,
}
use peko_agent.Base.Results.{Result, ok, err}
use peko_agent.Text.{Text}
use peko_agent.Budget.{usize_mod, IterationBudget, interrupt, should_stop}
use peko_agent.Budget.Spending.{decrement_pos}
use peko_agent.Message.{ToolCall}
use peko_agent.Compressor.{check_and_compress}
use peko_agent.Stream.{StreamEvent, Gathered, nothing_yet, answer}
use peko_agent.Brain.{BrainChoice}
use peko_agent.Runtime.{Done, continue_with-eq-ok, Agent}
use peko_agent.Runtime.Rounds.{is_final, offers_escalation, provider_of}
use peko_agent.Turn.{
  Turning, kept, outside, stream_events, closed, turn_call, turn_calls, turn_prompt,
}
use peko_agent.Turn.Rounds.{
  Next, stop, again, Provider, poll, end_round, decided, act, heard, receive, replied, ask,
  unless_stopped, round,
}

-- The two variables that a round counts with are as before.
pub record SamePace {V : Type 0} (s t : Turning V) : Type 0 where
  pub remaining : t.budget.remaining ≡ s.budget.remaining
  pub max : t.budget.max ≡ s.budget.max
  pub total : t.total_iterations ≡ s.total_iterations

SamePace-refl : {V : Type 0} (s : Turning V) → SamePace s s
SamePace-refl s = record { remaining = refl; max = refl; total = refl }

SamePace-trans : {V : Type 0} {s t u : Turning V} → SamePace s t → SamePace t u → SamePace s u
SamePace-trans p q = record {
  remaining = q.remaining ∙ p.remaining;
  max = q.max ∙ p.max;
  total = q.total ∙ p.total;
}

-- The iterations and what is left of the budget stay within the budget.
pub record IsWithin (max : ℕ) {V : Type 0} (s : Turning V) : Type 0 where
  pub word : max < usize_mod
  pub budget_max : s.budget.max ≡ max
  pub total : s.total_iterations + s.budget.remaining ≤ max

-- What a round that started with `s` may lead to.
abbrev pub NextWithin : {V : Type 0} → ℕ → Turning V → Next → Turning V → Type 0
NextWithin max s stop t = t.total_iterations ≤ max
NextWithin max s again t = IsWithin max t × (t.budget.remaining < s.budget.remaining)

module _ (max : ℕ) {V : Type 0} where
  pub SamePace-IsWithin : {s t : Turning V} → SamePace s t → IsWithin max s → IsWithin max t
  SamePace-IsWithin p i = record {
    word = i.word;
    budget_max = p.max ∙ i.budget_max;
    total = omega (arith, p.remaining, p.total, i.total);
  }

  NextWithin-pace :
      (n : Next) {s t : Turning V} (u : Turning V)
      → SamePace s t
      → NextWithin max t n u
      → NextWithin max s n u
  NextWithin-pace stop u p h = h
  NextWithin-pace again u p (i, h) = (i, omega (arith, p.remaining, h))

  -- The two ways of writing how a round ended.
  NextWithin-eq :
      {W : Type 0} {n m : Next} (s : Turning V) {t u : Turning V} {w v : W}
      → ◌≡◌ {A = Result Next Text × (Turning V × W)} (ok n, (t, w)) (ok m, (u, v))
      → NextWithin max s n t
      → NextWithin max s m u
  NextWithin-eq {n = n} {m} s {t} {u} e h =
      let p : n ≡ m = cc in
      let q : t ≡ u = cc in
      subst (λ z. NextWithin max s z u) p (subst (λ z. NextWithin max s n z) q h)

module _ {V W : Type 0} (agent : Agent V W) (stream : Provider V W) (active : Option BrainChoice)
    (max : ℕ) (input session : Text) where
  kept-eq :
      {S A : Type 0} (s : S) (r : A × W) {a : A} {t : S} {v : W} → kept s r ≡ (a, (t, v)) → t ≡ s
  kept-eq s (r, w) h = cc

  pub poll-SamePace :
      (s : Turning V) (w : W) → SamePace s (poll agent stream active input session s w).0
  unfolding poll interrupt
  poll-SamePace s w = elim (Bool-cases (agent.take_signal w).0) [
    | inl e ↦ rw (e) (record { remaining = refl; max = refl; total = refl })
    | inr e ↦ rw (e) (record { remaining = refl; max = refl; total = refl })
  ]

  turn_calls-SamePace :
      (tcs : List (ToolCall V)) (s t : Turning V) (w v : W) {d : Done}
      → turn_calls agent input session tcs (s, w) ≡ (ok d, (t, v))
      → SamePace s t
  unfolding turn_calls turn_call
  turn_calls-SamePace [] s t w v h = let q : s ≡ t = cc in subst (SamePace s) q (SamePace-refl s)
  turn_calls-SamePace (tc ∷ tcs) s t w v h =
      let (a, (u, w1), p, k) =
        continue_with-eq-ok (turn_call agent input session tc (s, w))
          (λ _. turn_calls agent input session tcs) h in
      let q = kept-eq _ _ p in
      SamePace-trans
        (subst (SamePace s) (sym q) (record { remaining = refl; max = refl; total = refl }))
        (turn_calls-SamePace tcs u t w1 v k)

  end_round-Within :
      (s t : Turning V) (w v : W) {n : Next}
      → IsWithin max s
      → 0 < s.budget.remaining
      → end_round agent stream active input session (s, w) ≡ (ok n, (t, v))
      → NextWithin max s n t
  unfolding end_round
  end_round-Within s t w v {n} i h e =
      let d : IterationBudget = record s.budget { remaining = s.budget.remaining - 1 } in
      let r : Turning V = record s { total_iterations = s.total_iterations + 1; budget = d } in
      let q : end_round agent stream active input session (s, w) ≡ (ok again, (r, w)) =
        rw
          (decrement_pos s.budget
            (record {
              within = omega (arith, i.total, i.budget_max);
              word = omega (arith, i.word, i.budget_max);
            })
            h)
          refl in
      NextWithin-eq max s (sym q ∙ e) (
        record { word = i.word; budget_max = i.budget_max; total = omega (arith, i.total, h) },
        omega (arith, h),
      )

  decided-Within :
      (final : Bool) (g : Gathered V) (s t : Turning V) (w v : W) {n : Next}
      → IsWithin max s
      → 0 < s.budget.remaining
      → decided agent stream active input session final g (s, w) ≡ (ok n, (t, v))
      → NextWithin max s n t
  decided-Within true g s t w v i h e = NextWithin-eq max s e (omega (arith, i.total, h))
  decided-Within false g s t w v {n} i h e =
      let (a, (u, w1), p, k) =
        continue_with-eq-ok (turn_calls agent input session g.tool_calls (s, w))
          (λ _. end_round agent stream active input session) e in
      let q = turn_calls-SamePace g.tool_calls s u w w1 p in
      NextWithin-pace max n t q
        (end_round-Within u t w1 v (SamePace-IsWithin max q i) (omega (arith, h, q.remaining)) k)

  receive-Within :
      (events : List (Result StreamEvent Text)) (s t : Turning V) (w v : W) {n : Next}
      → IsWithin max s
      → 0 < s.budget.remaining
      → receive agent stream active input session events (s, w) ≡ (ok n, (t, v))
      → NextWithin max s n t
  unfolding receive act
  receive-Within events s t w v {n} i h e =
      let g = stream_events agent.json events nothing_yet s.sent in
      let u = heard agent stream active input session g s in
      let (_, (x, w1), p, k) =
        continue_with-eq-ok
          (outside (agent.append_message session (answer (closed agent.json g.0))) (u, w))
          (λ _. act agent stream active input session (closed agent.json g.0)) e in
      let q : SamePace s x =
        subst (SamePace s) (sym (kept-eq u _ p))
          (record { remaining = refl; max = refl; total = refl }) in
      NextWithin-pace max n t q (
        decided-Within (is_final (closed agent.json g.0)) (closed agent.json g.0) x t w1 v
          (SamePace-IsWithin max q i) (omega (arith, h, q.remaining)) k)

  replied-Within :
      (r : Result (List (Result StreamEvent Text)) Text) (s t : Turning V) (w v : W) {n : Next}
      → IsWithin max s
      → 0 < s.budget.remaining
      → replied agent stream active input session (r, (s, w)) ≡ (ok n, (t, v))
      → NextWithin max s n t
  replied-Within (ok events) s t w v i h e = receive-Within events s t w v i h e
  replied-Within (err m) s t w v i h e = NextWithin-eq max s e (omega (arith, i.total))

  ask-Within :
      (s t : Turning V) (w v : W) {n : Next}
      → IsWithin max s
      → 0 < s.budget.remaining
      → ask agent stream active input session (s, w) ≡ (ok n, (t, v))
      → NextWithin max s n t
  unfolding ask
  ask-Within s t w v {n} i h e =
      let shorter = (check_and_compress agent.render agent.compressor s.conversation).0 in
      let u : Turning V = record s { conversation = shorter } in
      let (r, w1) =
        stream (provider_of agent.brain active)
          (turn_prompt agent input session active s.total_iterations w) shorter
          (offers_escalation agent.brain active) w in
      let q : SamePace s u = record { remaining = refl; max = refl; total = refl } in
      NextWithin-pace max n t q (replied-Within r u t w1 v (SamePace-IsWithin max q i) h e)

  unless_stopped-Within :
      (b : Bool) (s t : Turning V) (w v : W) {n : Next}
      → IsWithin max s
      → should_stop s.budget ≡ b
      → unless_stopped agent stream active input session b (s, w) ≡ (ok n, (t, v))
      → NextWithin max s n t
  unfolding should_stop
  unless_stopped-Within true s t w v i q e = NextWithin-eq max s e (omega (arith, i.total))
  unless_stopped-Within false s t w v i q e = ask-Within s t w v i (ground arith) e

  pub round-Within :
      (s t : Turning V) (w v : W) {n : Next}
      → IsWithin max s
      → round agent stream active input session (s, w) ≡ (ok n, (t, v))
      → NextWithin max s n t
  unfolding round
  round-Within s t w v {n} i e =
      let p = poll-SamePace s w in
      let (u, w1) = poll agent stream active input session s w in
      NextWithin-pace max n t p
        (unless_stopped-Within (should_stop u.budget) u t w1 v (SamePace-IsWithin max p i) refl e)
