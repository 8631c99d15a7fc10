-- ===== src/Turn/Ends.antt =====
-- The outcomes of `run_turn` of crates/peko-core/src/runtime.rs, and its fuel.
use peko_agent.Base.{ℕ, zero, suc, ◌+◌, ◌≤◌, ◌<◌, ◌≡◌, refl, arith, Option, List, [], ◌∷◌, ◌++◌}
use peko_agent.Base.Results.{Result, ok, err}
use peko_agent.Text.{Text}
use peko_agent.Budget.{usize_mod, IterationBudget, reset}
use peko_agent.Message.{Message}
use peko_agent.Brain.{BrainChoice}
use peko_agent.Runtime.{Done, Agent}
use peko_agent.Turn.{StreamCallback, finish, Turning}
use peko_agent.Turn.Rounds.{
  Next, stop, again, Outcome, ended, panicked, out_of_fuel, Provider, poll, round, label, status,
  responded, respond, after_round, rounds, begun, turn_on,
}
use peko_agent.Turn.Errors.{
  IsSessionError, OnlySession, append_message-OnlySession, update_status-OnlySession,
  round-OnlySession,
}
use peko_agent.Turn.Limits.{IsWithin, NextWithin, poll-SamePace, round-Within}

-- A turn that is neither cut off by the fuel nor ended by a panic: a response reports at most `max`
-- iterations, and the last event that the client is sent is the end of the turn, with the same number;
-- an error is one that a call of the session returned.
unfoldable pub EndsWithin :
    {V W : Type 0} → Agent V W → ℕ → Text → Option Text → Outcome V W → Type 0
EndsWithin agent max session brain (ended (ok r) s w) =
    (r.iterations ≤ max)
    × (before : List StreamCallback) × (s.sent ≡ before ++ (finish r.iterations session brain ∷ []))
EndsWithin agent max session brain (ended (err e) s w) = IsSessionError agent session e
EndsWithin agent max session brain panicked = ⊥
EndsWithin agent max session brain out_of_fuel = ⊥

module _ {V W : Type 0} (agent : Agent V W) (stream : Provider V W) (active : Option BrainChoice)
    (max : ℕ) (input session : Text) where
  abbrev pub brain : Option Text
  brain = label agent stream active input session active

  responded-EndsWithin :
      (s : Turning V) (r : Result Done Text × W)
      → s.total_iterations ≤ max
      → OnlySession agent session r.0
      → EndsWithin agent max session brain (responded agent stream active input session s r)
  unfolding EndsWithin
  responded-EndsWithin s (ok d, w) h p = (h, s.sent, refl)
  responded-EndsWithin s (err e, w) h p = p

  respond-EndsWithin :
      (s : Turning V) (w : W)
      → s.total_iterations ≤ max
      → EndsWithin agent max session brain (respond agent stream active input session s w)
  unfolding respond
  respond-EndsWithin s w h =
      let p = poll-SamePace agent stream active max input session s w in
      let (u, v) = poll agent stream active input session s w in
      responded-EndsWithin u
        (agent.update_status session (status agent stream active input session u) u.total_iterations
          v)
        (omega (arith, h, p.total)) (update_status-OnlySession agent session _ _ v)

  after_round-EndsWithin :
      (s : Turning V) (rest : Turning V → W → Outcome V W) (r : Result Next Text × (Turning V × W))
      → ((n : Next) (t : Turning V) (v : W) → r ≡ (ok n, (t, v)) → NextWithin max s n t)
      → ((t : Turning V) (v : W)
          → IsWithin max t
          → t.budget.remaining < s.budget.remaining
          → EndsWithin agent max session brain (rest t v))
      → OnlySession agent session r.0
      → EndsWithin agent max session brain (after_round agent stream active input session rest r)
  unfolding EndsWithin
  after_round-EndsWithin s rest (ok stop, (t, w)) f g p = respond-EndsWithin t w (f stop t w refl)
  after_round-EndsWithin s rest (ok again, (t, w)) f g p =
      let (i, h) = f again t w refl in g t w i h
  after_round-EndsWithin s rest (err e, (t, w)) f g p = p

  rounds-EndsWithin :
      (fuel : ℕ) (s : Turning V) (w : W)
      → IsWithin max s
      → s.budget.remaining < fuel
      → EndsWithin agent max session brain (rounds agent stream active input session fuel s w)
  unfolding rounds
  rounds-EndsWithin zero s w i h = absurd (omega arith)
  rounds-EndsWithin (suc fuel) s w i h =
      after_round-EndsWithin s (rounds agent stream active input session fuel)
        (round agent stream active input session (s, w))
        (λ n t v. round-Within agent stream active max input session s t w v i)
        (λ t v j k. rounds-EndsWithin fuel t v j (omega arith))
        (round-OnlySession agent session input stream active s w)

  begun-EndsWithin :
      (fuel : ℕ) (s : Turning V) (r : Result Done Text × W)
      → IsWithin max s
      → s.budget.remaining < fuel
      → OnlySession agent session r.0
      → EndsWithin agent max session brain (begun agent stream active input session fuel s r)
  unfolding EndsWithin
  begun-EndsWithin fuel s (ok d, w) i h p = rounds-EndsWithin fuel s w i h
  begun-EndsWithin fuel s (err e, w) i h p = p

  -- For every model, tool set and store, a turn on a budget of fewer than 2^64 iterations ends
  -- within the fuel of one round for each iteration and one more, by a response or by an error that
  -- a call of the session returned; with a response, the iterations it reports are within the
  -- budget, and the last event that the client is sent is the end of the turn, with the same number
  -- and the name of the chosen model.
  pub turn_on-EndsWithin :
      (budget : IterationBudget) (conversation : List (Message V)) (w : W)
      → budget.max ≡ max
      → max < usize_mod
      → EndsWithin agent max session brain
          (turn_on agent stream active input session budget conversation w)
  unfolding turn_on reset
  turn_on-EndsWithin budget conversation w e h =
      begun-EndsWithin (budget.max + 1) _ _
        (record { word = h; budget_max = e; total = omega (arith, e) }) (omega arith)
        (append_message-OnlySession agent session _ w)
