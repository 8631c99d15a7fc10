-- ===== src/Life/Approval/Twice.antt =====
-- What a second approval of a proposal does in src/web/api.rs.
use peko_agent.Base.{
  ℕ, ◌≡◌, refl, sym, ap, subst, ◌⊎◌, Bool, true, false, Option, some, List, [], ◌∷◌, ◌++◌,
  Option-cases, Bool-cases, inl, inr, if◌then◌else◌,
}
use peko_agent.Text.{Text, text_eq}
use peko_agent.Motivation.{Float}
use peko_agent.Life.Proposals.{
  Proposal, ProposalStatus, approved, executed, is_pending, get_proposal, set_proposal_status,
}
use peko_agent.Life.Tick.{Loop}
use peko_agent.Life.Approval.{
  StatusCode, success, bad_request, not_found, Approving, looking, setting, answered, looked,
  approved_task, approve_from, approve_proposal, race,
}

-- The status that a proposal gets.
abbrev pub restated : ProposalStatus → Proposal → Proposal
restated st p = record p { status = st }

set_status_case :
    (id : Text) (st : ProposalStatus) (q : Proposal) (ps : List Proposal) {p : Proposal} (b : Bool)
    → text_eq q.id id ≡ b
    → (get_proposal id ps ≡ some p
        → get_proposal id (set_proposal_status id st ps).0 ≡ some (restated st p))
    → (if b then some q else get_proposal id ps) ≡ some p
    → get_proposal id (set_proposal_status id st (q ∷ ps)).0 ≡ some (restated st p)
unfolding get_proposal set_proposal_status
set_status_case id st q ps {p} true e f h =
    let k : q ≡ p = cc in rw (e) (rw (e) (ap (λ z. some (restated st z)) k))
set_status_case id st q ps false e f h = rw (e) (rw (e) (f h))

get-set_status :
    (id : Text) (st : ProposalStatus) (ps : List Proposal) {p : Proposal}
    → get_proposal id ps ≡ some p
    → get_proposal id (set_proposal_status id st ps).0 ≡ some (restated st p)
unfolding get_proposal
get-set_status id st [] h = absurd cc
get-set_status id st (q ∷ ps) h =
    set_status_case id st q ps (text_eq q.id id) refl (get-set_status id st ps) h

looked-pending :
    (o : Option Proposal) {p : Proposal}
    → o ≡ some p
    → is_pending p.status ≡ true
    → looked o ≡ setting p
looked-pending o h k = rw (h, k) refl

looked-other :
    (o : Option Proposal) {p : Proposal}
    → o ≡ some p
    → is_pending p.status ≡ false
    → looked o ≡ answered bad_request
looked-other o h k = rw (h, k) refl

abbrev pub both_look_first : List Bool
both_look_first = true ∷ false ∷ true ∷ false ∷ true ∷ false ∷ true ∷ false ∷ true ∷ false ∷ []

module _ {F : Type 0} (f : Float F) (utc : ℕ) where
  -- What an approval of a pending proposal comes to.
  abbrev Granted : Text → Loop F → Proposal → Approving × Loop F → Type 0
  Granted id l p (a, m) =
      (a ≡ answered success)
      × (m.submitted ≡ l.submitted ++ (approved_task p ∷ []))
      × (get_proposal id m.shared.proposals ≡ some (restated executed p))

  approve-pending :
      (id : Text) (l : Loop F) {p : Proposal}
      → get_proposal id l.shared.proposals ≡ some p
      → is_pending p.status ≡ true
      → Granted id l p (approve_proposal f utc id l)
  unfolding approve_proposal
  approve-pending id l {p} h k =
      subst (λ a. Granted id l p (approve_from f utc 4 id a l))
        (sym (looked-pending (get_proposal id l.shared.proposals) h k))
        (refl, refl, get-set_status id executed _ (get-set_status id approved l.shared.proposals h))

  approve-other :
      (id : Text) (l : Loop F) (code : StatusCode)
      → looked (get_proposal id l.shared.proposals) ≡ answered code
      → approve_proposal f utc id l ≡ (answered code, l)
  unfolding approve_proposal
  approve-other id l code h =
      subst (λ a. approve_from f utc 4 id a l ≡ (answered code, l)) (sym h) refl

  twice_of :
      (id : Text) (l : Loop F)
      → ((code : StatusCode) × (approve_proposal f utc id l ≡ (answered code, l)))
        ⊎ ((p : Proposal) × Granted id l p (approve_proposal f utc id l))
  twice_of id l = elim (Option-cases (get_proposal id l.shared.proposals)) [
    | inl e ↦ inl (not_found, approve-other id l not_found (ap looked e))
    | inr (p, e) ↦ elim (Bool-cases (is_pending p.status)) [
      | inl k ↦ inr (p, approve-pending id l e k)
      | inr k ↦ inl (bad_request, approve-other id l bad_request (looked-other _ e k))
    ]
  ]

  -- A second approval of the same proposal, after the first, submits nothing and changes nothing.
  pub approve_proposal-twice :
      (id : Text) (l : Loop F)
      → (approve_proposal f utc id (approve_proposal f utc id l).1).1
        ≡ (approve_proposal f utc id l).1
  approve_proposal-twice id l = elim (twice_of id l) [
    | inl (code, e) ↦ subst (λ z. (approve_proposal f utc id z.1).1 ≡ z.1) (sym e) (ap (λ z. z.1) e)
    | inr (p, g) ↦ ap (λ z. z.1) (approve-other id _ bad_request (looked-other _ g.2 refl))
  ]

  -- Two approvals of a pending proposal that both look before either sets its status submit its
  -- task twice.
  pub race-twice :
      (id : Text) (l : Loop F) {p : Proposal}
      → get_proposal id l.shared.proposals ≡ some p
      → is_pending p.status ≡ true
      → (race f utc id both_look_first looking looking l).submitted
        ≡ (l.submitted ++ (approved_task p ∷ [])) ++ (approved_task p ∷ [])
  unfolding race
  race-twice id l {p} h k =
      subst
        (λ a.
          (race f utc id (true ∷ false ∷ true ∷ false ∷ true ∷ false ∷ true ∷ false ∷ []) a a
            l).submitted
          ≡ (l.submitted ++ (approved_task p ∷ [])) ++ (approved_task p ∷ []))
        (sym (looked-pending (get_proposal id l.shared.proposals) h k)) refl
