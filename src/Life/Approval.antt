-- ===== src/Life/Approval.antt =====
-- The handlers of src/web/api.rs that approve and reject a proposal, each as its sequence of locks.
pub mod Twice
use peko_agent.Base.{
  ℕ, zero, suc, Bool, true, false, Option, none, some, List, [], ◌∷◌, ◌++◌, if◌then◌else◌,
}
use peko_agent.Text.{Text, text}
use peko_agent.Motivation.{Float, user_engaged, user_rejected, record_event}
use peko_agent.Queue.{TaskRequest, internal}
use peko_agent.Life.Proposals.{
  Proposal, ProposalStatus, approved, rejected, executed, is_pending, Shared, get_proposal,
  set_proposal_status,
}
use peko_agent.Life.Tick.{Loop}

pub data StatusCode : Type 0 where
  success bad_request not_found : StatusCode

-- Where an approval stands.
pub data Approving : Type 0 where
  looking : Approving
  setting submitting engaging marking : Proposal → Approving
  answered : StatusCode → Approving

-- The answer to what `get_proposal` found.
abbrev pub looked : Option Proposal → Approving
looked none = answered not_found
looked (some p) = if is_pending p.status then setting p else answered bad_request

abbrev pub approved_task : Proposal → TaskRequest
approved_task p = record {
  input = p.task_prompt;
  session_id = none;
  source = internal p.action (text "approved: " ++ p.reasoning);
}

abbrev pub with_status : {F : Type 0} → Text → ProposalStatus → Loop F → Loop F
with_status id st l = record l {
  shared = record l.shared { proposals = (set_proposal_status id st l.shared.proposals).0 };
}

module _ {F : Type 0} (f : Float F) (utc : ℕ) where
  unfoldable pub approve_step : Text → Approving → Loop F → Approving × Loop F
  approve_step id looking l = (looked (get_proposal id l.shared.proposals), l)
  approve_step id (setting p) l = (submitting p, with_status id approved l)
  approve_step id (submitting p) l =
      (engaging p, record l { submitted = l.submitted ++ (approved_task p ∷ []) })
  approve_step id (engaging p) l = (
    marking p,
    record l {
      shared = record l.shared { drives = record_event f utc user_engaged l.shared.drives };
    },
  )
  approve_step id (marking p) l = (answered success, with_status id executed l)
  approve_step id (answered code) l = (answered code, l)

  abbrev pub approve_from : ℕ → Text → Approving → Loop F → Approving × Loop F
  approve_from zero id a l = (a, l)
  approve_from (suc n) id a l = let (b, m) = approve_step id a l in approve_from n id b m

  -- An approval that nothing interrupts.
  unfoldable pub approve_proposal : Text → Loop F → Approving × Loop F
  unfolding approve_step
  approve_proposal id l = approve_from 5 id looking l

  -- Two approvals of one proposal: each entry tells which of them takes its next step.
  unfoldable pub race : Text → List Bool → Approving → Approving → Loop F → Loop F
  unfolding approve_step
  race id [] a b l = l
  race id (true ∷ turns) a b l = let (c, m) = approve_step id a l in race id turns c b m
  race id (false ∷ turns) a b l = let (c, m) = approve_step id b l in race id turns a c m

  abbrev pub rejected_if : Bool → Loop F → StatusCode × Loop F
  rejected_if false l = (not_found, l)
  rejected_if true l = (
    success,
    record l {
      shared = record l.shared { drives = record_event f utc user_rejected l.shared.drives };
    },
  )

  unfoldable pub reject_proposal : Text → Loop F → StatusCode × Loop F
  reject_proposal id l =
      let (ps, found) = set_proposal_status id rejected l.shared.proposals in
      rejected_if found (record l { shared = record l.shared { proposals = ps } })
