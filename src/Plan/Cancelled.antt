-- ===== src/Plan/Cancelled.antt =====
-- A plan that was cancelled: `cancel` and `execute` of crates/peko-tools-android/src/plan_tool.rs.
use peko_agent.Base.{
  ◌≡◌, refl, sym, ◌∙◌, subst, Bool, true, false, not, ◌&&◌, some, [], ◌∷◌, ◌==◌, keep_if,
  All-append, all-false,
}
use peko_agent.Base.Results.{ok}
use peko_agent.Text.{Text, text, text_eq}
use peko_agent.Tools.{ToolResult, error_result}
use peko_agent.Notebook.{Note, BrainStore, get}
use peko_agent.Notebook.Slug.{Unicode}
use peko_agent.Notebook.Kept.{Reach, Reach-IsWellFormed}
use peko_agent.Notebook.Saved.{IsTag}
use peko_agent.Notebook.Found.{NoId}
use peko_agent.Plan.{PlanArgs, success, execute_plan, cancel_plan, resaved, execute, cancel}
use peko_agent.Plan.Mentioned.{contains-append}
use peko_agent.Plan.Content.{
  tag_pending, tag_approved, tag_executing, tag_cancelled, quoted, cancelled_tags,
}
use peko_agent.Plan.Words.{contains_text}
use peko_agent.Plan.Resaved.{keep_if-All, get-IsFound, resaved-IsResaved, on_found}

module _ (u : Unicode) (new_id now : Text) where
  refuses :
      (slug : Text) (m : Note) (s : BrainStore)
      → m.kind ≡ text "plan"
      → contains_text m.tags tag_cancelled ≡ true
      → execute_plan u new_id now slug m s
        ≡ ok (error_result (quoted (text "plan ") slug (text " is cancelled")), s)
  unfolding text_eq
  refuses slug m s k c = rw (k, c) refl

-- A plan of a store that saves and deletions lead to can be cancelled, and a later execution of it
-- is refused and changes nothing, whatever became of the plan before: whether it was pending or is
-- being executed. No note's id is the plan's slug.
pub cancel-execute :
    (u : Unicode) (new_id now new_id2 now2 : Text) (args : PlanArgs) {s : BrainStore} {slug : Text}
    {plan : Note}
    → Reach u s
    → NoId slug s.notes
    → args.slug ≡ some slug
    → get slug s ≡ some plan
    → plan.kind ≡ text "plan"
    → (r : ToolResult) × (t : BrainStore) × (cancel u new_id now args s ≡ ok (r, t))
      × (r.is_error ≡ false)
      × (execute u new_id2 now2 args t
          ≡ ok (error_result (quoted (text "plan ") slug (text " is cancelled")), t))
unfolding cancel execute text_eq
cancel-execute u new_id now new_id2 now2 args {s} {slug} {plan} reach free ea eg ek =
    let f = get-IsFound u slug s (Reach-IsWellFormed u reach) free eg in
    let (t, e, m) =
      resaved-IsResaved u new_id now slug plan (text "Cancelled") (cancelled_tags plan.tags)
        (quoted (text "Plan ") slug (text " cancelled.")) s f free
        (All-append IsTag (keep_if kept plan.tags) (tag_cancelled ∷ [])
          (keep_if-All IsTag kept plan.tags f.tagged)
          (((λ z. cc), all-false (λ c. c == 44) tag_cancelled refl), tt)) in
    (
      success (quoted (text "Plan ") slug (text " cancelled.")),
      t,
      on_found u new_id now (cancel_plan u new_id now) args s ea eg ∙ cancelled t e,
      refl,
      on_found u new_id2 now2 (execute_plan u new_id2 now2) args t ea m.found
          ∙ refuses u new_id2 now2 slug m.note t m.is_plan (
              subst (λ z. contains_text z tag_cancelled ≡ true) (sym m.tagged)
                (contains-append (keep_if kept plan.tags) tag_cancelled [])),
    )
  where
    kept : Text → Bool
    kept t =
        not (text_eq t tag_pending) && not (text_eq t tag_approved) && not (text_eq t tag_executing)

    cancelled :
        (t : BrainStore)
        → resaved u new_id now plan
            (text "Cancelled")
            (cancelled_tags plan.tags)
            (quoted (text "Plan ") slug (text " cancelled."))
            s
          ≡ ok (success (quoted (text "Plan ") slug (text " cancelled.")), t)
        → cancel_plan u new_id now slug plan s
          ≡ ok (success (quoted (text "Plan ") slug (text " cancelled.")), t)
    cancelled t e = rw ek e
