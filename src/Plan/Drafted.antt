-- ===== src/Plan/Drafted.antt =====
-- What a draft of a plan leads to: crates/peko-tools-android/src/plan_tool.rs, and the Telegram bot's
-- reading of its answer.
use peko_agent.Base.{
  ℕ, suc, ◌≡◌, ◌≢◌, refl, sym, ap, ◌∙◌, subst, Bool, false, some, [], ◌∷◌, ◌++◌, ◌==◌, All-map,
  all-false,
}
use peko_agent.Base.Results.{ok}
use peko_agent.Text.{Text, text, text_eq}
use peko_agent.Text.Split.{IsFree}
use peko_agent.Tools.{ToolResult}
use peko_agent.Notebook.{Note, BrainStore, get}
use peko_agent.Notebook.Slug.{Unicode, is_alphanumeric, slugify}
use peko_agent.Notebook.Form.{IsSlug, IsTable, slugify-IsSlug}
use peko_agent.Notebook.Dashes.{IsSlugChar}
use peko_agent.Notebook.Saved.{save-ok, save-get}
use peko_agent.Notebook.Found.{NoId}
use peko_agent.Notebook.Begun.{slugify-nonempty}
use peko_agent.Plan.{PlanArgs, needs_approval, success, draft, draft_with, drafted}
use peko_agent.Plan.Content.{tag_pending, marker, draft_answer, plan_content}
use peko_agent.Plan.Marker.{
  PlanMarker, parse_plan_marker, callback_data, splitn, action_of, read_callback,
}
use peko_agent.Plan.Marked.{IsInside, marker_kind, slug-IsInside, marker-read}

splitn-free :
    (n : ℕ) (a t : Text) → IsFree 58 a → splitn (suc n) 58 (a ++ (58 ∷ t)) ≡ a ∷ splitn n 58 t
unfolding splitn
splitn-free n [] t h = refl
splitn-free n (c ∷ a) t h = rw (h.0, splitn-free n a t h.1) refl

-- A button's data is read as its action and slug.
callback-read :
    (action slug : Text)
    → IsFree 58 action
    → read_callback (callback_data action slug) ≡ some (action, slug)
unfolding read_callback callback_data text_eq
callback-read action slug h = ap (λ z. action_of (text "plan" ∷ z)) (splitn-free 0 action slug h)

-- What a draft offers: its answer's marker is read by the bot, and leads to the plan's note.
pub record IsOffered (approval : Bool) (r : ToolResult) (t : BrainStore) : Type 0 where
  pub read : PlanMarker
  pub note : Note
  pub no_error : r.is_error ≡ false
  pub is_read : parse_plan_marker r.content ≡ some read
  pub kind_read : read.kind ≡ marker_kind approval
  pub tapped :
      read_callback (callback_data (text "approve") read.slug) ≡ some (text "approve", read.slug)
  pub found : get read.slug t ≡ some note
  pub is_plan : note.kind ≡ text "plan"
  pub is_pending : note.tags ≡ tag_pending ∷ []

offered :
    (approval : Bool) (rest : Text) (n : Note) {slug : Text} {m : Note} {t : BrainStore}
    → IsSlug slug
    → slug ≢ []
    → n.slug ≡ slug
    → get slug t ≡ some m
    → m.kind ≡ text "plan"
    → m.tags ≡ tag_pending ∷ []
    → IsOffered approval (success (marker approval n.slug ++ (10 ∷ rest))) t
offered approval rest n {slug} {m} {t} h ne e found plan pending =
    let inside = All-map IsSlugChar IsInside slug slug-IsInside h.allowed in
    let (r, read, kind, same) = marker-read slug inside ne approval rest in
    record {
      read = r;
      note = m;
      no_error = refl;
      is_read =
          subst (λ z. parse_plan_marker (marker approval z ++ (10 ∷ rest)) ≡ some r) (sym e) read;
      kind_read = kind;
      tapped =
          callback-read (text "approve") r.slug (all-false (λ c. c == 58) (text "approve") refl);
      found = subst (λ z. get z t ≡ some m) (sym same) found;
      is_plan = plan;
      is_pending = pending;
    }

-- A draft with a task and a body succeeds. The bot reads the marker of its answer: to ask, if the
-- plan needs approval, and to go on by itself otherwise. The slug that the bot reads, also from the
-- data of its button, is that of a note of the kind `plan` in the store with the tag `plan-pending`
-- alone. The tables of Unicode are as documented, and no note's id is the plan's slug.
pub draft-offers :
    (u : Unicode) (new_id now : Text) (args : PlanArgs) (s : BrainStore) {task body : Text}
    → IsTable u
    → args.task ≡ some task
    → args.body ≡ some body
    → NoId (slugify u (text "Plan: " ++ task)) s.notes
    → (r : ToolResult) × (t : BrainStore) × (draft u new_id now args s ≡ ok (r, t))
      × IsOffered (needs_approval u args body) r t
unfolding draft is_alphanumeric draft_answer
draft-offers u new_id now args s {task} {body} table et eb free =
    let title = text "Plan: " ++ task in
    let approval = needs_approval u args body in
    let content = plan_content task body args.tools_used approval in
    let ne = slugify-nonempty u 80 (text "lan: " ++ task) table refl in
    let (r, saved) =
      save-ok u new_id now title content (some (text "plan")) (tag_pending ∷ []) s ne in
    let (e, ne2, m, found, h) =
      save-get u new_id now title content (some (text "plan")) (tag_pending ∷ []) s saved free
        ((λ z. cc, all-false (λ c. c == 44) tag_pending refl), tt) in
    (
      success (draft_answer approval body r.0),
      r.1,
      ap (λ z. draft_with u new_id now args z args.body s) et
          ∙ ap (λ z. draft_with u new_id now args (some task) z s) eb
          ∙ ap (drafted approval body) saved,
      offered approval _ r.0 (slugify-IsSlug u table title) ne e found h.kind_kept h.tags_kept,
    )
