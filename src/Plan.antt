-- ===== src/Plan.antt =====
-- crates/peko-tools-android/src/plan_tool.rs: plans that the agent drafts, kept as notes of the kind
-- `plan`, with their status among the tags. The arguments of a call are a record of what the source
-- reads of the JSON object.
pub mod Words
pub mod Content
pub mod Marker
pub mod Marked
pub mod Drafted
pub mod Mentioned
pub mod Approval
pub mod Resaved
pub mod Cancelled
pub mod Repeated
pub mod Tests
use peko_agent.Base.{
  ℕ, Bool, true, false, not, ◌&&◌, ◌||◌, Option, none, some, List, [], ◌∷◌, ◌++◌, keep_if, map,
  length, if◌then◌else◌,
}
use peko_agent.Base.Results.{Result, ok, err}
use peko_agent.Text.{Text, text, text_eq, is_empty, join}
use peko_agent.Text.Split.{split}
use peko_agent.Text.Number.{to_string}
use peko_agent.Tools.{ToolResult, error_result}
use peko_agent.Notebook.{Note, BrainStore, get, save}
use peko_agent.Notebook.Slug.{Unicode}
use peko_agent.Plan.Words.{contains_text, mentions}
use peko_agent.Plan.Content.{
  tag_pending, tag_executed, tag_cancelled, is_plan_safe, plan_content, draft_answer, no_plan,
  quoted, show_answer, update_status_block, status_of, executing_tags, cancelled_tags,
}

pub record PlanArgs : Type 0 where
  pub action : Option Text
  pub task : Option Text
  pub body : Option Text
  -- The texts among the elements of an array, and none of anything else.
  pub tools_used : List Text
  pub internal : Option Bool
  pub slug : Option Text
  pub status : Option Text

-- What an operation answers, and the store after it. `err` is an error of the store.
abbrev pub Answer : Type 0
Answer = Result (ToolResult × BrainStore) Text

abbrev pub success : Text → ToolResult
success content = record { content = content; is_error = false; image = none }

abbrev pub refused : Text → BrainStore → Answer
refused content s = ok (error_result content, s)

abbrev pub is_internal : Option Bool → Bool
is_internal none = false
is_internal (some b) = b

unfoldable pub needs_approval : Unicode → PlanArgs → Text → Bool
unfolding is_plan_safe mentions
needs_approval u args body = not (
    is_internal args.internal
    && is_plan_safe args.tools_used
    && not (mentions u body args.tools_used))

abbrev pub drafted : Bool → Text → Result (Note × BrainStore) Text → Answer
drafted approval body (err e) = err e
drafted approval body (ok (n, s)) = ok (success (draft_answer approval body n), s)

abbrev pub missing : Text → Text
missing field = text "missing '" ++ (field ++ text "'")

unfoldable pub shown : Text → Option Note → ToolResult
unfolding show_answer error_result
shown slug none = error_result (no_plan slug)
shown slug (some n) =
    if text_eq n.kind (text "plan")
    then success (show_answer n)
    else error_result (quoted (text "note ") slug (text " exists but is not a plan"))

unfoldable pub show : PlanArgs → BrainStore → Answer
unfolding shown get
show args s = elim args.slug [
  | none ↦ refused (missing (text "slug")) s
  | some slug ↦ ok (shown slug (get slug s), s)
]

abbrev pub answered : Text → Result (Note × BrainStore) Text → Answer
answered answer (err e) = err e
answered answer (ok r) = ok (success answer, r.1)

-- `new_id` and `now` are what a save of a new note takes.
module _ (u : Unicode) (new_id now : Text) where
  abbrev pub draft_plan : PlanArgs → Text → Text → BrainStore → Answer
  draft_plan args task body s =
      let approval = needs_approval u args body in
      drafted approval body (
        save u new_id now (text "Plan: " ++ task) (plan_content task body args.tools_used approval)
          (some (text "plan")) (tag_pending ∷ []) s)

  abbrev pub draft_with : PlanArgs → Option Text → Option Text → BrainStore → Answer
  draft_with args none b s = refused (missing (text "task")) s
  draft_with args (some task) none s = refused (missing (text "body")) s
  draft_with args (some task) (some body) s = draft_plan args task body s

  unfoldable pub draft : PlanArgs → BrainStore → Answer
  unfolding needs_approval plan_content draft_answer save
  draft args s = draft_with args args.task args.body s

  -- A save of the plan with a new status, and what is answered if it succeeds.
  abbrev pub resaved : Note → Text → List Text → Text → BrainStore → Answer
  resaved plan status tags answer s = answered answer (
      save u new_id now plan.title (update_status_block plan.content status) (some (text "plan"))
        tags s)

  abbrev pub execute_plan : Text → Note → BrainStore → Answer
  execute_plan slug plan s =
      if not (text_eq plan.kind (text "plan"))
      then refused (quoted [] slug (text " is not a plan")) s
      else if contains_text plan.tags tag_cancelled
      then refused (quoted (text "plan ") slug (text " is cancelled")) s
      else if contains_text plan.tags tag_executed
      then refused
          (quoted (text "plan ") slug
            (text " already executed; draft a new one if you want to re-run"))
          s
      else resaved plan (text "Executing") (executing_tags plan.tags)
          (quoted (text "Executing plan ") slug
            (text ". Use this body to drive the next steps:\n\n" ++ plan.content))
          s

  abbrev pub cancel_plan : Text → Note → BrainStore → Answer
  cancel_plan slug plan s =
      if not (text_eq plan.kind (text "plan"))
      then refused (quoted [] slug (text " is not a plan")) s
      else resaved plan (text "Cancelled") (cancelled_tags plan.tags)
          (quoted (text "Plan ") slug (text " cancelled.")) s

  abbrev pub on_note :
      (Text → Note → BrainStore → Answer) → Text → Option Note → BrainStore → Answer
  on_note op slug none s = refused (no_plan slug) s
  on_note op slug (some plan) s = op slug plan s

  abbrev pub with_plan : (Text → Note → BrainStore → Answer) → Option Text → BrainStore → Answer
  with_plan op none s = refused (missing (text "slug")) s
  with_plan op (some slug) s = on_note op slug (get slug s) s

  unfoldable pub execute : PlanArgs → BrainStore → Answer
  unfolding contains_text update_status_block get save
  execute args s = with_plan execute_plan args.slug s

  unfoldable pub cancel : PlanArgs → BrainStore → Answer
  unfolding contains_text update_status_block get save
  cancel args s = with_plan cancel_plan args.slug s

-- The first of the pieces at a `T`, which is the day of a time.
abbrev pub first_piece : List Text → Text
first_piece [] = []
first_piece (t ∷ ts) = t

unfoldable pub list_line : Note → Text
unfolding status_of split
list_line n =
    text "\n  • ["
    ++ (status_of n.tags
        ++ (text "] "
            ++ (n.title
                ++ (text " (slug: "
                    ++ (n.slug
                        ++ (text ", updated: "
                            ++ (first_piece (split 84 n.updated_at) ++ text ")")))))))

unfoldable pub has_status : Option Text → Note → Bool
unfolding contains_text
has_status none n = true
has_status (some status) n = contains_text n.tags (text "plan-" ++ status)

abbrev pub or_any : Option Text → Text
or_any none = text "any"
or_any (some t) = t

abbrev pub listed : Option Text → List Note → Text
listed status [] = text "No plans matching status=" ++ or_any status
listed status (n ∷ ns) =
    to_string (length (n ∷ ns))
    ++ (text " plan(s) (status="
        ++ (or_any status ++ (text "):\n" ++ join [] (map list_line (n ∷ ns)))))

-- `recent` are the notes of the kind `plan` that the store lists.
unfoldable pub list : List Note → PlanArgs → BrainStore → Answer
unfolding has_status list_line
list recent args s = ok (success (listed args.status (keep_if (has_status args.status) recent)), s)

abbrev pub or_empty : Option Text → Text
or_empty none = []
or_empty (some t) = t

unfoldable pub dispatch : Unicode → Text → Text → List Note → PlanArgs → BrainStore → Answer
unfolding draft show execute cancel list is_empty
dispatch u new_id now recent args s =
    let action = or_empty args.action in
    if text_eq action (text "draft")
    then draft u new_id now args s
    else if text_eq action (text "show")
    then show args s
    else if text_eq action (text "execute")
    then execute u new_id now args s
    else if text_eq action (text "cancel")
    then cancel u new_id now args s
    else if text_eq action (text "list")
    then list recent args s
    else if is_empty action
    then refused (text "missing 'action'") s
    else refused
        (text "unknown action '" ++ (action ++ text "'. valid: draft, show, execute, cancel, list"))
        s
