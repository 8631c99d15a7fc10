-- ===== src/Life/Tick.antt =====
-- The heartbeat of crates/peko-core/src/life_loop.rs. A tick takes its locks one after another; between
-- two of them the handlers of the web interface may do anything they do. A `Moment` is what happened
-- before a lock was taken, and the clocks after it.
use peko_agent.Base.{
  ℕ, ◌+◌, ◌-◌, ◌*◌, ◌^◌, min, Bool, true, false, Option, none, some, List, [], ◌∷◌, ◌++◌, leb,
  if◌then◌else◌,
}
use peko_agent.Text.{Text, text}
use peko_agent.Motivation.{
  Float, LifeAction, explore, review_failures, propose_helpful, review_behavior, action_name,
  stale_patterns, record_event, decay, suggest_action,
}
use peko_agent.Queue.{Queue, TaskRequest, internal, is_idle}
use peko_agent.Life.{
  RateLimiter, TokenBudget, has_budget, consume, spent_today, has_tokens, consume_tokens,
  estimate_prompt_tokens,
}
use peko_agent.Life.Curiosity.{Reading, UserPatterns, next}
use peko_agent.Life.Proposals.{
  pending, Shared, Operation, apply_all, expire_before, recent_prompts, recent_window_hours,
}

pub record Moment : Type 0 where
  pub others : List Operation
  pub now : ℕ
  pub utc : ℕ

-- What a tick meets: the moments of its locks, by their number, the queue's state, and what the other
-- components answer. `goal` is the suggestion and the reasoning of the goal generator.
pub record Surroundings : Type 0 where
  pub moment : ℕ → Moment
  pub queue : Queue
  pub reading : Reading
  pub user : UserPatterns
  pub registered : List Text
  pub goal : Option (Text × Text)
  pub proposal_id : Text

-- The loop's own variable, and the tasks it has submitted.
pub record Loop (F : Type 0) : Type 0 where
  pub shared : Shared F
  pub stale_ticks : ℕ
  pub submitted : List TaskRequest

abbrev pub stale_tick_threshold : ℕ
stale_tick_threshold = 3

abbrev pub output_token_estimate : ℕ
output_token_estimate = 1000

abbrev pub failures_prompt : Text
failures_prompt =
    text
      "I noticed some recent task failures. Please review my most recent reflections and suggest improvements."

abbrev pub behavior_prompt : Text
behavior_prompt =
    text
      "Briefly review whether my recent behavior matches my SOUL.md personality. Report findings to memory."

abbrev pub failures_reason : Text
failures_reason = text "Competence drive low — reviewing failures"

abbrev pub behavior_reason : Text
behavior_reason = text "Coherence drive low — reviewing consistency"

abbrev pub explore_reason : Text
explore_reason = text "Curiosity: explore something unseen"

-- The prompt of the goal generator's best goal, and its reasoning.
abbrev pub goal_prompt : Option (Text × Text) → Option Text × Text
goal_prompt none = (none, text "No pattern strong enough")
goal_prompt (some (suggestion, reasoning)) = (some suggestion, reasoning)

module _ {F : Type 0} (f : Float F) (propose_only : Bool) (e : Surroundings) where
  -- The state as the lock of the given number finds it.
  unfoldable pub lock : ℕ → Loop F → Loop F
  lock n l = record l { shared = apply_all f (e.moment n).others l.shared }

  abbrev pub now_at : ℕ → ℕ
  now_at n = (e.moment n).now

  abbrev pub utc_at : ℕ → ℕ
  utc_at n = (e.moment n).utc

  abbrev pub with_limiter : RateLimiter → Loop F → Loop F
  with_limiter r l = record l { shared = record l.shared { limiter = r } }

  abbrev pub with_tokens : TokenBudget → Loop F → Loop F
  with_tokens b l = record l { shared = record l.shared { tokens = b } }

  -- The last lock: a proposal, or a task for the queue.
  unfoldable pub act : LifeAction → Text → Text → Loop F → Loop F
  unfolding lock
  act a prompt reasoning l =
      let t = lock 9 l in
      if propose_only
      then record t {
        shared = record t.shared {
          proposals =
              t.shared.proposals
              ++ (record {
                id = text "p_" ++ e.proposal_id;
                action = action_name a;
                task_prompt = prompt;
                reasoning = reasoning;
                created_at = utc_at 9;
                status = pending;
              }
                  ∷ []);
        };
      }
      else record t {
        submitted =
            t.submitted
            ++ (record {
              input = prompt;
              session_id = none;
              source = internal (action_name a) reasoning;
            }
                ∷ []);
      }

  -- The limiter and the budget are charged, each under its lock.
  abbrev pub charge_task : Loop F → Loop F
  charge_task t = with_limiter (consume (now_at 7) t.shared.limiter) t

  abbrev pub charge_tokens : ℕ → Loop F → Loop F
  charge_tokens cost t = with_tokens (consume_tokens (now_at 8) cost t.shared.tokens) t

  unfoldable pub charge : ℕ → Loop F → Loop F
  unfolding lock
  charge cost l = charge_tokens cost (lock 8 (charge_task (lock 7 l)))

  abbrev pub spend_if : Bool → ℕ → LifeAction → Text → Text → Loop F → Loop F
  spend_if true cost a prompt reasoning l = act a prompt reasoning (charge cost l)
  spend_if false cost a prompt reasoning l =
      with_tokens (spent_today (now_at 6) l.shared.tokens).0 l

  -- The gate of the token budget. A refusal trims the window once more for its log line.
  abbrev pub spend : LifeAction → Option Text → Text → Loop F → Loop F
  spend a none reasoning l = l
  spend a (some prompt) reasoning l =
      let cost = estimate_prompt_tokens prompt + output_token_estimate in
      let t = lock 6 l in
      let (b, allowed) = has_tokens (now_at 6) cost t.shared.tokens in
      spend_if allowed cost a prompt reasoning (with_tokens b t)

  -- The prompt of an action. Only the exploration takes a lock.
  unfoldable pub dispatch : LifeAction → Loop F → Loop F
  unfolding lock act charge
  dispatch explore l =
      let t = lock 5 l in
      let recent = recent_prompts (utc_at 5 - recent_window_hours * 3600) t.shared.proposals in
      spend explore (next e.reading e.user e.registered recent) explore_reason t
  dispatch review_failures l = spend review_failures (some failures_prompt) failures_reason l
  dispatch propose_helpful l =
      let (prompt, reasoning) = goal_prompt e.goal in spend propose_helpful prompt reasoning l
  dispatch review_behavior l = spend review_behavior (some behavior_prompt) behavior_reason l

  -- A tick on which no drive asks for anything. The counter is a `u32` that saturates.
  unfoldable pub stale : Loop F → Loop F
  unfolding lock
  stale l =
      let t : Loop F = record l { stale_ticks = min (l.stale_ticks + 1) (2 ^ 32 - 1) } in
      let u = lock 5 t in
      if leb stale_tick_threshold t.stale_ticks
      then record u {
        shared = record u.shared {
          drives = record_event f (utc_at 5) stale_patterns u.shared.drives;
        };
      }
      else t

  abbrev pub decide : Option LifeAction → Loop F → Loop F
  decide none l = stale l
  decide (some a) l = dispatch a (record l { stale_ticks = 0 })

  abbrev pub decide_if : Bool → Loop F → Loop F
  decide_if true l = let t = lock 4 l in decide (suggest_action f t.shared.drives) t
  decide_if false l = l

  -- The limiter, asked only of an idle queue.
  abbrev pub limited_if : Bool → Loop F → Loop F
  limited_if true l =
      let t = lock 3 l in
      let (r, allowed) = has_budget (now_at 3) t.shared.limiter in
      decide_if allowed (with_limiter r t)
  limited_if false l = l

  -- The drives decay, and proposals that nobody answered for a day expire.
  abbrev pub decayed : Loop F → Loop F
  decayed t = record t { shared = record t.shared { drives = decay f (utc_at 1) t.shared.drives } }

  abbrev pub cleaned : Loop F → Loop F
  cleaned t = record t {
    shared = record t.shared {
      proposals = expire_before (utc_at 2 - 24 * 3600) t.shared.proposals;
    };
  }

  unfoldable pub upkeep : Loop F → Loop F
  unfolding lock
  upkeep l = cleaned (lock 2 (decayed (lock 1 l)))

  abbrev pub unless_paused : Bool → Loop F → Loop F
  unless_paused true l = l
  unless_paused false l = limited_if (is_idle e.queue) (upkeep l)

  unfoldable pub tick : Loop F → Loop F
  unfolding upkeep dispatch stale
  tick l = let t = lock 0 l in unless_paused t.shared.paused t

-- The loop over its ticks.
unfoldable pub ticks : {F : Type 0} → Float F → Bool → List Surroundings → Loop F → Loop F
unfolding tick
ticks f propose_only [] l = l
ticks f propose_only (e ∷ es) l = ticks f propose_only es (tick f propose_only e l)
