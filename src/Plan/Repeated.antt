-- ===== src/Plan/Repeated.antt =====
-- A plan that is executed twice: `execute` of crates/peko-tools-android/src/plan_tool.rs.
use peko_agent.Base.{
  ◌≡◌, refl, sym, ◌∙◌, subst, Bool, true, false, not, ◌&&◌, some, List, [], ◌∷◌, ◌++◌, ◌==◌,
  keep_if, All-append, arith, all-false,
}
use peko_agent.Base.Results.{ok}
use peko_agent.Text.{Text, text, text_eq}
use peko_agent.Notebook.{Note, BrainStore, get}
use peko_agent.Notebook.Slug.{Unicode}
use peko_agent.Notebook.Kept.{Reach, Reach-IsWellFormed}
use peko_agent.Notebook.Saved.{IsTag}
use peko_agent.Notebook.Found.{NoId}
use peko_agent.Plan.{PlanArgs, success, execute_plan, execute}
use peko_agent.Plan.Mentioned.{contains-append}
use peko_agent.Plan.Content.{
  tag_pending, tag_approved, tag_executing, tag_executed, tag_cancelled, executing_tags, quoted,
}
use peko_agent.Plan.Words.{contains_text}
use peko_agent.Plan.Resaved.{
  keep_if-All, IsFound, get-IsFound, IsResaved, resaved-IsResaved, on_found,
}

dropped :
    (y x : Text) (k : Text → Bool) (ts : List Text)
    → ((t : Text) → k t ≡ true → text_eq t y ≡ false)
    → text_eq x y ≡ false
    → contains_text (keep_if k ts ++ (x ∷ [])) y ≡ false
unfolding contains_text
dropped y x k [] f e = rw e refl
dropped y x k (t ∷ ts) f e = one (k t) refl (dropped y x k ts f e)
  where
    one :
        (b : Bool)
        → k t ≡ b
        → contains_text (keep_if k ts ++ (x ∷ [])) y ≡ false
        → contains_text ((elim b [ true ↦ t ∷ keep_if k ts | false ↦ keep_if k ts ]) ++ (x ∷ [])) y
          ≡ false
    one true kt h = rw (f t kt, h) refl
    one false kt h = h

abbrev kept : Text → Bool
kept t =
    not (text_eq t tag_pending)
    && not (text_eq t tag_approved)
    && not (text_eq t tag_executed)
    && not (text_eq t tag_cancelled)

-- The plan is neither cancelled nor executed.
pub record IsOpen (n : Note) : Type 0 where
  pub is_plan : n.kind ≡ text "plan"
  pub not_cancelled : contains_text n.tags tag_cancelled ≡ false
  pub not_executed : contains_text n.tags tag_executed ≡ false

executing-IsOpen : (n m : Note) → m.kind ≡ text "plan" → m.tags ≡ executing_tags n.tags → IsOpen m
unfolding text_eq
executing-IsOpen n m k e = record {
  is_plan = k;
  not_cancelled =
      subst (λ z. contains_text z tag_cancelled ≡ false) (sym e)
        (dropped tag_cancelled tag_executing kept n.tags (λ t h. ground arith) refl);
  not_executed =
      subst (λ z. contains_text z tag_executed ≡ false) (sym e)
        (dropped tag_executed tag_executing kept n.tags (λ t h. ground arith) refl);
}

-- The answer to an execution.
abbrev pub executing : Text → Note → Text
executing slug n =
    quoted (text "Executing plan ") slug
      (text ". Use this body to drive the next steps:\n\n" ++ n.content)

module _ (u : Unicode) (new_id now : Text) where
  executes :
      (slug : Text) (n : Note) (s : BrainStore)
      → IsOpen n
      → IsFound u slug n
      → NoId slug s.notes
      → (t : BrainStore) × (execute_plan u new_id now slug n s ≡ ok (success (executing slug n), t))
        × IsResaved slug (executing_tags n.tags) t
  unfolding text_eq
  executes slug n s h f free =
      let (t, e, m) =
        resaved-IsResaved u new_id now slug n (text "Executing") (executing_tags n.tags)
          (executing slug n) s f free
          (All-append IsTag (keep_if kept n.tags) (tag_executing ∷ [])
            (keep_if-All IsTag kept n.tags f.tagged)
            (((λ z. cc), all-false (λ c. c == 44) tag_executing refl), tt)) in
      (t, rw (h.is_plan, h.not_cancelled, h.not_executed) e, m)

-- A plan that is neither cancelled nor executed is executed whenever it is asked for, whether a user
-- approved it or not, and afterwards it has the tag `plan-executing` and is still neither cancelled
-- nor executed. The store is one that saves and deletions lead to, and no note's id is the slug.
pub execute-IsOpen :
    (u : Unicode) (new_id now : Text) (args : PlanArgs) {s : BrainStore} {slug : Text} {plan : Note}
    → Reach u s
    → NoId slug s.notes
    → args.slug ≡ some slug
    → get slug s ≡ some plan
    → IsOpen plan
    → (t : BrainStore) × (n : Note) × (execute u new_id now args s
        ≡ ok (success (executing slug plan), t))
      × (get slug t ≡ some n)
      × IsOpen n
      × (contains_text n.tags tag_executing ≡ true)
unfolding execute
execute-IsOpen u new_id now args {s} {slug} {plan} reach free ea eg h =
    let f = get-IsFound u slug s (Reach-IsWellFormed u reach) free eg in
    let (t, e, m) = executes u new_id now slug plan s h f free in
    (
      t,
      m.note,
      on_found u new_id now (execute_plan u new_id now) args s ea eg ∙ e,
      m.found,
      executing-IsOpen plan m.note m.is_plan m.tagged,
      subst (λ z. contains_text z tag_executing ≡ true) (sym m.tagged)
          (contains-append (keep_if kept plan.tags) tag_executing []),
    )
