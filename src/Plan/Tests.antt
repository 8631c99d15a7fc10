-- ===== src/Plan/Tests.antt =====
-- Plans of crates/peko-tools-android/src/plan_tool.rs, drafted, executed and cancelled.
use peko_agent.Base.{◌≡◌, ◌↔◌, refl, Bool, true, false, Option, none, some, [], ◌∷◌}
use peko_agent.Base.Results.{ok}
use peko_agent.Text.{Text, text, text_eq, join}
use peko_agent.Text.Split.{split}
use peko_agent.Tools.{ToolResult, error_result}
use peko_agent.Notebook.{Note, BrainStore, empty_store, get, save}
use peko_agent.Notebook.Slug.{is_alphanumeric}
use peko_agent.Notebook.Kept.{Reach, opened, saved}
use peko_agent.Notebook.Tests.{thai, thai-IsTable, stored}
use peko_agent.Plan.{PlanArgs, needs_approval, draft, execute, cancel}
use peko_agent.Plan.Approval.{IsHarmless, needs_approval_iff, names-needs_approval}
use peko_agent.Plan.Mentioned.{here}
use peko_agent.Plan.Cancelled.{cancel-execute}
use peko_agent.Plan.Content.{tag_pending, quoted}
use peko_agent.Plan.Drafted.{IsOffered, draft-offers}
use peko_agent.Plan.Words.{contains_text, lowercased}

abbrev plan_args : Option Text → Option Bool → PlanArgs
plan_args body internal = record {
  action = some (text "draft");
  task = some (text "Milk");
  body = body;
  tools_used = text "brain" ∷ text "web" ∷ [];
  internal = internal;
  slug = some (text "plan-milk");
  status = none;
}

abbrev harmless_body : Text
harmless_body = text "1. search the web"

abbrev hidden_body : Text
hidden_body = text "1. Call `SHELL` now"

auto_test : needs_approval thai (plan_args (some harmless_body) (some true)) harmless_body ≡ false
unfolding needs_approval text_eq
auto_test = refl

needs_approval_iff_example :
    (needs_approval thai (plan_args (some harmless_body) (some true)) harmless_body ≡ false)
    ↔ IsHarmless thai (plan_args (some harmless_body) (some true)) harmless_body
needs_approval_iff_example =
    needs_approval_iff thai (plan_args (some harmless_body) (some true)) harmless_body

names-needs_approval_example :
    needs_approval thai (plan_args (some hidden_body) (some true)) hidden_body ≡ true
unfolding contains_text lowercased text_eq is_alphanumeric
names-needs_approval_example =
    names-needs_approval thai (plan_args (some hidden_body) (some true)) hidden_body (text "shell")
      (text "1. call ") (text " now") 96 96 here refl refl refl refl

draft-offers_example :
    (r : ToolResult) × (t : BrainStore) × (draft thai
        (text "1")
        (text "2026-01-01T08:00")
        (plan_args (some harmless_body) (some true))
        empty_store
      ≡ ok (r, t))
    × IsOffered (needs_approval thai (plan_args (some harmless_body) (some true)) harmless_body) r t
draft-offers_example =
    draft-offers thai (text "1") (text "2026-01-01T08:00")
      (plan_args (some harmless_body) (some true)) empty_store thai-IsTable refl refl tt

-- A store with one plan.
abbrev with_plan_note : BrainStore
with_plan_note = stored (
    save thai (text "1") (text "2026-01-01T08:00") (text "Plan: Milk") (text "## Steps")
      (some (text "plan")) (tag_pending ∷ []) empty_store)

abbrev milk_plan : Note
milk_plan = record {
  id = text "1";
  slug = text "plan-milk";
  title = text "Plan: Milk";
  content = text "## Steps";
  kind = text "plan";
  tags = tag_pending ∷ [];
  created_at = text "2026-01-01T08:00";
  updated_at = text "2026-01-01T08:00";
}

plan_reach : Reach thai with_plan_note
unfolding save
plan_reach =
    saved {n = milk_plan} (text "1") (text "2026-01-01T08:00") (text "Plan: Milk") (text "## Steps")
      (some (text "plan")) (tag_pending ∷ []) opened tt refl

found_plan : get (text "plan-milk") with_plan_note ≡ some milk_plan
unfolding save get text_eq split join
found_plan = refl

cancel-execute_example :
    (r : ToolResult) × (t : BrainStore) × (cancel thai
        (text "2")
        (text "2026-01-02T08:00")
        (plan_args none none)
        with_plan_note
      ≡ ok (r, t))
    × (r.is_error ≡ false)
    × (execute thai (text "3") (text "2026-01-03T08:00") (plan_args none none) t
        ≡ ok (error_result (quoted (text "plan ") (text "plan-milk") (text " is cancelled")), t))
unfolding save text_eq
cancel-execute_example =
    cancel-execute thai (text "2") (text "2026-01-02T08:00") (text "3") (text "2026-01-03T08:00")
      (plan_args none none) plan_reach (refl, tt) refl found_plan refl
