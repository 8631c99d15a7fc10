-- ===== src/Life/Tests.antt =====
-- Attempts at the limiter, ticks and approvals of crates/peko-core/src/life_loop.rs and
-- src/web/api.rs. The drives of these runs are whole hundredths.
use peko_agent.Base.{
  ℕ, ◌+◌, ◌-◌, ◌*◌, ◌/◌, ◌≡◌, refl, arith, min, true, false, none, some, [], ◌∷◌, ◌++◌, map, ltb,
  leb, inr,
}
use peko_agent.Text.{Text, text, text_eq}
use peko_agent.Motivation.{Float, default}
use peko_agent.Queue
use peko_agent.Life
use peko_agent.Life.{attempts}
use peko_agent.Life.Curiosity.{Reading, UserPatterns, candidates, next, tool_prompt}
use peko_agent.Life.Proposals.{
  Proposal, pending, executed, Operation, pause, set_status, recent_prompts, get_proposal,
}
use peko_agent.Life.Tick.{Surroundings, Loop, tick, ticks}
use peko_agent.Life.Charges.{IsPaced}
use peko_agent.Life.Ticks.{ticks-IsPaced}
use peko_agent.Life.Actions.{Outcome, tick-outcome}
use peko_agent.Life.Fresh.{IsFirst, IsIdea, is_recent, Avoids, next-Avoids}
use peko_agent.Life.Approval.{looking, race, approved_task}
use peko_agent.Life.Approval.Twice.{both_look_first, race-twice}

abbrev whole_float : Float ℕ
whole_float = record {
  hundredths = λ n. n;
  minus_hundredths = λ n. 0;
  of_seconds = λ n. n * 100;
  add = λ a b. a + b;
  sub = λ a b. a - b;
  mul = λ a b. a * b / 100;
  div = λ a b. a / b;
  at_most = min;
  clamp = min 100;
  lt = ltb;
  le = leb;
}

abbrev idea : Proposal
idea = record {
  id = text "p_1";
  action = text "explore";
  task_prompt = text "look around";
  reasoning = text "curious";
  created_at = 1000;
  status = pending;
}

-- A curious agent on a fresh window, with one idea that waits for an answer.
abbrev curious : Loop ℕ
curious = record {
  shared = record {
    paused = false;
    drives = record (default whole_float 1000) { curiosity_level = 90 };
    proposals = idea ∷ [];
    limiter = Life.new 4 20;
    tokens = record { daily_tokens = 50000; spent = [] };
  };
  stale_ticks = 2;
  submitted = [];
}

abbrev morning : Reading
morning = record { now_ms = 1000000; hour = text "09"; time = text "09:30" }

abbrev new_user : UserPatterns
new_user = record { tools_used = []; active_hours = some (text "09") }

-- A tick at one instant, with no handler at work.
abbrev quiet : ℕ → Surroundings
quiet t = record {
  moment = λ n. record { others = []; now = t; utc = t };
  queue = Queue.new;
  reading = morning;
  user = new_user;
  registered = text "shell" ∷ text "memory" ∷ [];
  goal = none;
  proposal_id = text "2";
}

-- The tick adds its own proposal.
curious_proposes :
    map (λ p. p.id) (tick whole_float true (quiet 1000) curious).shared.proposals
    ≡ text "p_1" ∷ text "p_2" ∷ []
unfolding tick Queue.new Queue.is_idle Life.new default peko_agent.Life.Proposals.apply_all
    Life.has_budget peko_agent.Motivation.suggest_action peko_agent.Motivation.decay next text_eq
    recent_prompts peko_agent.Life.Proposals.expire_before tool_prompt Life.has_tokens
    Life.estimate_prompt_tokens peko_agent.Text.len
curious_proposes = refl

ticks-IsPaced_example :
    IsPaced 20 50000
      (ticks whole_float false (quiet 1000 ∷ quiet 1300 ∷ []) curious).shared.limiter
      (ticks whole_float false (quiet 1000 ∷ quiet 1300 ∷ []) curious).shared.tokens
unfolding Life.new
ticks-IsPaced_example =
    ticks-IsPaced 20 50000 whole_float false (quiet 1000 ∷ quiet 1300 ∷ []) curious (record {
      tasks_cap = refl;
      tokens_cap = refl;
      tasks = omega arith;
      tokens = inr (omega arith);
    })

tick-outcome_example :
    Outcome whole_float (quiet 1000) true curious (tick whole_float true (quiet 1000) curious)
tick-outcome_example = tick-outcome whole_float (quiet 1000) true curious

next-Avoids_example :
    IsIdea morning new_user (text "shell" ∷ text "memory" ∷ []) (tool_prompt (text "memory"))
    × Avoids 500 (tool_prompt (text "memory")) (idea ∷ [])
    × IsFirst
        (is_recent (recent_prompts 500 (idea ∷ [])))
        (tool_prompt (text "memory"))
        (candidates morning new_user (text "shell" ∷ text "memory" ∷ []))
unfolding next recent_prompts text_eq tool_prompt
next-Avoids_example =
    next-Avoids morning new_user (text "shell" ∷ text "memory" ∷ []) 500 (idea ∷ []) refl

race-twice_example :
    (race whole_float 7 (text "p_1") both_look_first looking looking curious).submitted
    ≡ ([] ++ (approved_task idea ∷ [])) ++ (approved_task idea ∷ [])
unfolding get_proposal text_eq
race-twice_example = race-twice whole_float 7 (text "p_1") curious refl refl
