-- ===== src/Plan/Resaved.antt =====
-- A plan that is found and saved again, as `execute` and `cancel` do in crates/peko-tools-android/src/plan_tool.rs.
use peko_agent.Base.{
  ℕ, ◌≡◌, ◌≢◌, refl, sym, ap, ◌∙◌, subst, Bool, true, false, not, ◌||◌, Option, none, some, List,
  [], ◌∷◌, ◌==◌, keep_if, All, if◌then◌else◌,
}
use mathlib.Core.Option
use peko_agent.Base.Results.{ok}
use peko_agent.Text.{Text, text, text_eq, is_empty}
use peko_agent.Text.Equality.{text_eq_iff}
use peko_agent.Text.Split.{split, cons_first, IsFree}
use peko_agent.Notebook.{Note, Row, BrainStore, find_row, row_to_note, is_named, get}
use peko_agent.Notebook.Slug.{Unicode, slugify}
use peko_agent.Notebook.Rows.{find_row-All}
use peko_agent.Notebook.Kept.{IsWellFormed}
use peko_agent.Notebook.Saved.{IsTag, save-ok, save-get}
use peko_agent.Notebook.Found.{NoId, find_row-holds}
use peko_agent.Plan.{PlanArgs, success, answered, on_note, resaved, with_plan, Answer}
use peko_agent.Plan.Content.{update_status_block}

split-IsFree : (sep : ℕ) (t : Text) → All (IsFree sep) (split sep t)
unfolding split
split-IsFree sep [] = (tt, tt)
split-IsFree sep (c ∷ t) = one (c == sep) refl (split-IsFree sep t)
  where
    added :
        (ts : List Text)
        → (c == sep) ≡ false
        → All (IsFree sep) ts
        → All (IsFree sep) (cons_first c ts)
    added [] e h = ((e, tt), tt)
    added (u ∷ ts) e h = ((e, h.0), h.1)

    one :
        (b : Bool)
        → (c == sep) ≡ b
        → All (IsFree sep) (split sep t)
        → All (IsFree sep) (if b then [] ∷ split sep t else cons_first c (split sep t))
    one true e h = (tt, h)
    one false e h = added (split sep t) e h

pub keep_if-All :
    (P : Text → Type 0) (k : Text → Bool) (ts : List Text) → All P ts → All P (keep_if k ts)
keep_if-All P k [] h = tt
keep_if-All P k (t ∷ ts) h = one (k t) (keep_if-All P k ts h.1)
  where
    one :
        (b : Bool)
        → All P (keep_if k ts)
        → All P (elim b [ true ↦ t ∷ keep_if k ts | false ↦ keep_if k ts ])
    one true r = (h.0, r)
    one false r = r

-- The tags that a note is read with.
read-IsTag : (ts : List Text) → All (IsFree 44) ts → All IsTag (keep_if (λ t. not (is_empty t)) ts)
unfolding is_empty
read-IsTag [] h = tt
read-IsTag ([] ∷ ts) h = read-IsTag ts h.1
read-IsTag ((c ∷ t) ∷ ts) h = (((λ e. cc), h.0), read-IsTag ts h.1)

-- A note that is found under a name that is no note's id.
pub record IsFound (u : Unicode) (slug : Text) (n : Note) : Type 0 where
  pub same : slugify u n.title ≡ slug
  pub nonempty : slugify u n.title ≢ []
  pub tagged : All IsTag n.tags

pub get-IsFound :
    (u : Unicode) (slug : Text) (s : BrainStore) {n : Note}
    → IsWellFormed u s
    → NoId slug s.notes
    → get slug s ≡ some n
    → IsFound u slug n
unfolding get row_to_note
get-IsFound u slug s {n} h free e = through (find_row (is_named slug) s.notes) refl e
  where
    through :
        (o : Option Row)
        → find_row (is_named slug) s.notes ≡ o
        → Option.map row_to_note o ≡ some n
        → IsFound u slug n
    through none eo e = cc
    through (some r) eo e =
        let named =
          find_row-All (λ q. (q.slug ≡ slugify u q.title) × (q.slug ≢ [])) (is_named slug) s.notes
            h.named eo in
        let no_id = find_row-All (λ q. text_eq q.id slug ≡ false) (is_named slug) s.notes free eo in
        let hit = find_row-holds (is_named slug) s.notes eo in
        subst (IsFound u slug) (some-injective e) (record {
          same =
              sym named.0
              ∙ (text_eq_iff r.slug slug).0
                  (subst (λ z. (z || text_eq r.slug slug) ≡ true) no_id hit);
          nonempty = λ z. named.1 (named.0 ∙ z);
          tagged = read-IsTag _ (split-IsFree 44 r.tags_str);
        })
      where
        some-injective : {a b : Note} → some a ≡ some b → a ≡ b
        some-injective z = cc

-- A plan that is saved again under its title.
pub record IsResaved (slug : Text) (tags : List Text) (t : BrainStore) : Type 0 where
  pub note : Note
  pub found : get slug t ≡ some note
  pub is_plan : note.kind ≡ text "plan"
  pub tagged : note.tags ≡ tags

module _ (u : Unicode) (new_id now : Text) where
  pub resaved-IsResaved :
      (slug : Text) (plan : Note) (status : Text) (tags : List Text) (answer : Text)
      (s : BrainStore)
      → IsFound u slug plan
      → NoId slug s.notes
      → All IsTag tags
      → (t : BrainStore) × (resaved u new_id now plan status tags answer s ≡ ok (success answer, t))
        × IsResaved slug tags t
  resaved-IsResaved slug plan status tags answer s h free full =
      let content = update_status_block plan.content status in
      let (r, saved) =
        save-ok u new_id now plan.title content (some (text "plan")) tags s h.nonempty in
      let (e, ne, m, found, k) =
        save-get u new_id now plan.title content (some (text "plan")) tags s saved
          (subst (λ z. NoId z s.notes) (sym h.same) free) full in
      (
        r.1,
        ap (answered answer) saved,
        record {
          note = m;
          found = subst (λ z. get z r.1 ≡ some m) h.same found;
          is_plan = k.kind_kept;
          tagged = k.tags_kept;
        },
      )

  -- Both operations act on the plan that is found.
  pub on_found :
      (op : Text → Note → BrainStore → Answer) (args : PlanArgs) (s : BrainStore) {slug : Text}
      {n : Note}
      → args.slug ≡ some slug
      → get slug s ≡ some n
      → with_plan u new_id now op args.slug s ≡ op slug n s
  on_found op args s {slug} {n} ea eg =
      ap (λ z. with_plan u new_id now op z s) ea ∙ ap (λ z. on_note u new_id now op slug z s) eg
