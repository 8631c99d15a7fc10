-- ===== src/Plan/Content.antt =====
-- The texts of crates/peko-tools-android/src/plan_tool.rs: the status tags, the content of a plan's
-- note, the marker and the answers.
use peko_agent.Base.{
  ℕ, zero, suc, Bool, true, false, not, ◌&&◌, Option, none, some, List, [], ◌∷◌, ◌++◌, all, keep_if,
  map, length, if◌then◌else◌,
}
use peko_agent.Text.{Text, text, text_eq, join, starts_with, strip_prefix}
use peko_agent.Notebook.{Note}
use peko_agent.Plan.Words.{contains_text}

abbrev pub read_only_tools : List Text
read_only_tools =
    text "screenshot"
    ∷ text "ui_inspect"
    ∷ text "memory"
    ∷ text "skills"
    ∷ text "sensors"
    ∷ text "wifi"
    ∷ text "audio"
    ∷ text "draw"
    ∷ text "web"
    ∷ text "ocr"
    ∷ text "brain"
    ∷ text "research"
    ∷ text "filesystem"
    ∷ []

abbrev pub tag_pending : Text
tag_pending = text "plan-pending"

abbrev pub tag_approved : Text
tag_approved = text "plan-approved"

abbrev pub tag_executing : Text
tag_executing = text "plan-executing"

abbrev pub tag_executed : Text
tag_executed = text "plan-executed"

abbrev pub tag_cancelled : Text
tag_cancelled = text "plan-cancelled"

unfoldable pub is_plan_safe : List Text → Bool
unfolding contains_text
is_plan_safe [] = false
is_plan_safe (t ∷ ts) = all (contains_text read_only_tools) (t ∷ ts)

abbrev pub bullet : Text → Text
bullet t = text "- `" ++ (t ++ text "`")

abbrev pub tools_block : List Text → Text
tools_block [] = text "_(none declared)_"
tools_block (t ∷ ts) = join (text "\n") (map bullet (t ∷ ts))

abbrev pub safety_line : Bool → Text
safety_line true = text "✅ all tools in plan are read-only"
safety_line false =
    text "⚠" ++ (0xfe0f ∷ text " plan touches non-read-only tools (write paths, framework, IO)")

abbrev pub auto_line : Bool → Text
auto_line true = text "→ requires Telegram approval"
auto_line false = text "→ auto-approved (internal autonomy task with read-only tools)"

unfoldable pub plan_content : Text → Text → List Text → Bool → Text
unfolding is_plan_safe
plan_content task body tools approval =
    text "## Task\n\n"
    ++ (task
        ++ (text "\n\n## Steps\n\n"
            ++ (body
                ++ (text "\n\n## Tools used\n\n"
                    ++ (tools_block tools
                        ++ (text "\n\n## Approval\n\n"
                            ++ (safety_line (is_plan_safe tools)
                                ++ (text "\n"
                                    ++ (auto_line approval
                                        ++ text "\n\n## Status\n\nPending\n")))))))))

unfoldable pub marker : Bool → Text → Text
marker true slug = text "[plan:approve:" ++ (slug ++ text "]")
marker false slug = text "[plan:auto:" ++ (slug ++ text "]")

abbrev pub approval_word : Bool → Text
approval_word true = text "needs approval"
approval_word false = text "auto-approved"

unfoldable pub draft_answer : Bool → Text → Note → Text
unfolding marker
draft_answer approval body saved =
    marker approval saved.slug
    ++ (text "\n\n📋 **"
        ++ (saved.title
            ++ (text "** ("
                ++ (approval_word approval
                    ++ (text ")\n\n"
                        ++ (body ++ (text "\n\n_slug: " ++ (saved.slug ++ text "_"))))))))

-- The text in front of the last occurrence.
unfoldable pub before_last : Text → Text → Option Text
before_last p [] = none
before_last p (c ∷ s) = elim (before_last p s) [
  | some head ↦ some (c ∷ head)
  | none ↦ if starts_with p (c ∷ s) then some [] else none
]

abbrev pub status_block : Text → Text
status_block status = text "## Status\n\n" ++ (status ++ text "\n")

unfoldable pub update_status_block : Text → Text → Text
unfolding before_last
update_status_block content status = elim (before_last (text "## Status") content) [
  | some head ↦ head ++ status_block status
  | none ↦ content ++ (text "\n\n" ++ status_block status)
]

abbrev pub no_plan : Text → Text
no_plan slug = text "no plan '" ++ (slug ++ text "'")

abbrev pub quoted : Text → Text → Text → Text
quoted before slug after = before ++ (text "'" ++ (slug ++ (text "'" ++ after)))

unfoldable pub show_answer : Note → Text
show_answer n =
    text "# "
    ++ (n.title
        ++ (text "\n\nslug: "
            ++ (n.slug
                ++ (text "\nstatus tag: "
                    ++ (join (text ", ") n.tags
                        ++ (text "\nupdated: " ++ (n.updated_at ++ (text "\n\n" ++ n.content))))))))

-- Of the old tags the one filter keeps those without this status.
abbrev pub executing_tags : List Text → List Text
executing_tags tags =
    keep_if
      (λ t.
        not (text_eq t tag_pending)
        && not (text_eq t tag_approved)
        && not (text_eq t tag_executed)
        && not (text_eq t tag_cancelled))
      tags
    ++ (tag_executing ∷ [])

abbrev pub cancelled_tags : List Text → List Text
cancelled_tags tags =
    keep_if
      (λ t.
        not (text_eq t tag_pending)
        && not (text_eq t tag_approved)
        && not (text_eq t tag_executing))
      tags
    ++ (tag_cancelled ∷ [])

-- `trim_start_matches("plan-")`: the prefix is dropped as often as it stands there. One unit of fuel is
-- one drop.
unfoldable pub behind_prefix : ℕ → Text → Text
unfolding strip_prefix
behind_prefix zero t = t
behind_prefix (suc n) t = elim (strip_prefix (text "plan-") t) [
  | none ↦ t
  | some rest ↦ behind_prefix n rest
]

-- A plan's status in a list.
unfoldable pub status_of : List Text → Text
unfolding behind_prefix
status_of [] = text "unknown"
status_of (t ∷ ts) =
    let rest = status_of ts in
    if starts_with (text "plan-") t then behind_prefix (length t) t else rest
