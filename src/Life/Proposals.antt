-- ===== src/Life/Proposals.antt =====
-- The proposals of crates/peko-core/src/life_loop.rs: the tasks that wait for the user's approval, and
-- what the loop shares with the handlers of the web interface.
use peko_agent.Base.{
  ℕ, ◌-◌, ◌*◌, Bool, true, false, ◌&&◌, Option, none, some, List, [], ◌∷◌, map, ltb, leb,
  if◌then◌else◌,
}
use peko_agent.Text.{Text, text_eq}
use peko_agent.Motivation.{Float, Motivation, DriveEvent, record_event}
use peko_agent.Life.{RateLimiter, TokenBudget, trim, spent_today}

pub data ProposalStatus : Type 0 where
  pending approved rejected executed expired : ProposalStatus

pub record Proposal : Type 0 where
  pub id : Text
  pub action : Text
  pub task_prompt : Text
  pub reasoning : Text
  pub created_at : ℕ
  pub status : ProposalStatus

-- `status == ProposalStatus::Pending`
abbrev pub is_pending : ProposalStatus → Bool
is_pending pending = true
is_pending approved = false
is_pending rejected = false
is_pending executed = false
is_pending expired = false

-- A pending proposal from before the cutoff expires.
unfoldable pub expire_one : ℕ → Proposal → Proposal
expire_one cutoff p =
    if is_pending p.status && ltb p.created_at cutoff then record p { status = expired } else p

unfoldable pub expire_before : ℕ → List Proposal → List Proposal
unfolding expire_one
expire_before cutoff ps = map (expire_one cutoff) ps

unfoldable pub get_proposal : Text → List Proposal → Option Proposal
get_proposal id [] = none
get_proposal id (p ∷ ps) = let rest = get_proposal id ps in if text_eq p.id id then some p else rest

-- The first proposal with the id, and whether there is one.
unfoldable pub set_proposal_status : Text → ProposalStatus → List Proposal → List Proposal × Bool
set_proposal_status id st [] = ([], false)
set_proposal_status id st (p ∷ ps) =
    let (rest, found) = set_proposal_status id st ps in
    if text_eq p.id id then (record p { status = st } ∷ ps, true) else (p ∷ rest, found)

abbrev pub recent_window_hours : ℕ
recent_window_hours = 24

-- Whether a proposal keeps its prompt from being proposed again.
unfoldable pub blocks : ℕ → Proposal → Bool
blocks cutoff p = elim p.status [
  | pending ↦ true
  | approved ↦ true
  | executed ↦ leb cutoff p.created_at
  | rejected ↦ leb cutoff p.created_at
  | expired ↦ false
]

unfoldable pub recent_prompts : ℕ → List Proposal → List Text
unfolding blocks
recent_prompts cutoff [] = []
recent_prompts cutoff (p ∷ ps) =
    let rest = recent_prompts cutoff ps in if blocks cutoff p then p.task_prompt ∷ rest else rest

-- What the loop and the handlers share.
pub record Shared (F : Type 0) : Type 0 where
  pub paused : Bool
  pub drives : Motivation F
  pub proposals : List Proposal
  pub limiter : RateLimiter
  pub tokens : TokenBudget

-- What a handler does to the shared state under one lock; `snapshot` trims the two windows, each
-- under its own lock.
pub data Operation : Type 0 where
  pause resume : Operation
  set_status : Text → ProposalStatus → Operation
  expire_old : (utc hours : ℕ) → Operation
  snapshot_limiter snapshot_tokens : (now : ℕ) → Operation
  record_drive : (utc : ℕ) → DriveEvent → Operation

module _ {F : Type 0} (f : Float F) where
  unfoldable pub apply : Operation → Shared F → Shared F
  apply pause s = record s { paused = true }
  apply resume s = record s { paused = false }
  apply (set_status id st) s = record s { proposals = (set_proposal_status id st s.proposals).0 }
  apply (expire_old utc hours) s = record s {
    proposals = expire_before (utc - hours * 3600) s.proposals;
  }
  apply (snapshot_limiter now) s = record s { limiter = trim now s.limiter }
  apply (snapshot_tokens now) s = record s { tokens = (spent_today now s.tokens).0 }
  apply (record_drive utc e) s = record s { drives = record_event f utc e s.drives }

  unfoldable pub apply_all : List Operation → Shared F → Shared F
  unfolding apply
  apply_all [] s = s
  apply_all (o ∷ os) s = apply_all os (apply o s)
