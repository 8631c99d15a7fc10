-- ===== src/Plan/Approval.antt =====
-- When a plan goes on without the user: the three conditions of `draft` in
-- crates/peko-tools-android/src/plan_tool.rs.
use peko_agent.Base.{
  ℕ, ◌≡◌, ◌≢◌, inl, inr, ◌↔◌, refl, sym, ap, ◌∙◌, subst, Bool, true, false, not, ◌&&◌, Option, none,
  some, List, [], ◌∷◌, ◌++◌, all, map, All, All-map, Bool-cases, arith, all-false,
}
use peko_agent.Text.{Text}
use peko_agent.Notebook.Slug.{Unicode, is_alphanumeric}
use peko_agent.Plan.{PlanArgs, is_internal, needs_approval}
use peko_agent.Plan.Content.{read_only_tools, is_plan_safe}
use peko_agent.Plan.Words.{contains_text, lowercased, is_break, words, unsafe_tools, mentions}
use peko_agent.Plan.Mentioned.{
  In, here, there, contains-In, In-contains, all-All, any-none, word_between,
}

-- What lets a plan go on without approval.
pub record IsHarmless (u : Unicode) (args : PlanArgs) (body : Text) : Type 0 where
  pub from_inside : args.internal ≡ some true
  pub declares : args.tools_used ≢ []
  pub reads_only : All (λ t. In t read_only_tools) args.tools_used
  pub names_none :
      All
        (λ name.
          In name (words u (lowercased u body)) → In name (map (lowercased u) args.tools_used))
        unsafe_tools

all-three : (a b m : Bool) → (not (a && b && not m) ≡ false) ↔ (a ≡ true) × (b ≡ true) × (m ≡ false)
all-three a b m = (λ h. (ground arith, ground arith, ground arith), λ h. rw (h.0, h.1, h.2) refl)

from-inside : (o : Option Bool) → (is_internal o ≡ true) ↔ (o ≡ some true)
from-inside none = (λ h. cc, λ h. cc)
from-inside (some b) = (λ h. ap some h, λ h. cc)

safe_iff :
    (ts : List Text) → (is_plan_safe ts ≡ true) ↔ (ts ≢ []) × All (λ t. In t read_only_tools) ts
unfolding is_plan_safe
safe_iff [] = (λ h. cc, λ h. absurd (h.0 refl))
safe_iff (t ∷ ts) = (
  λ h. (
    λ e. cc,
    All-map (λ z. contains_text read_only_tools z ≡ true) (λ z. In z read_only_tools) (t ∷ ts)
        (λ z. contains-In read_only_tools z)
        ((all-All (contains_text read_only_tools) (t ∷ ts)).0 h),
  ),
  λ h. (all-All (contains_text read_only_tools) (t ∷ ts)).1 (
      All-map (λ z. In z read_only_tools) (λ z. contains_text read_only_tools z ≡ true) (t ∷ ts)
        (λ z. In-contains read_only_tools z) h.1),
)

-- One dangerous tool in the test of the body.
module _ (declared named : List Text) where
  abbrev undeclared : Text → Bool
  undeclared t = not (contains_text declared t) && contains_text named t

  undeclared_iff : (t : Text) → (undeclared t ≡ false) ↔ (In t named → In t declared)
  undeclared_iff t = (
    λ h i. contains-In declared t (second (In-contains named t i) h),
    λ f. elim (Bool-cases (contains_text named t)) [
      | inl b ↦ first _ (contains_text named t) (In-contains declared t (f (contains-In named t b)))
      | inr b ↦ third _ (contains_text named t) b
    ],
  )
    where
      second : {d n : Bool} → n ≡ true → (not d && n) ≡ false → d ≡ true
      second e h = ground arith

      first : (d n : Bool) → d ≡ true → (not d && n) ≡ false
      first d n e = ground arith

      third : (d n : Bool) → n ≡ false → (not d && n) ≡ false
      third d n e = ground arith

-- A plan needs no approval exactly if the task is the agent's own, it declares at least one tool,
-- it declares tools that only read, and each dangerous tool that is a word of its body, in lower
-- case, is declared.
pub needs_approval_iff :
    (u : Unicode) (args : PlanArgs) (body : Text)
    → (needs_approval u args body ≡ false) ↔ IsHarmless u args body
unfolding needs_approval mentions
needs_approval_iff u args body = (there_way, back_way)
  where
    declared : List Text
    declared = map (lowercased u) args.tools_used

    named : List Text
    named = words u (lowercased u body)

    there_way : needs_approval u args body ≡ false → IsHarmless u args body
    there_way h =
        let (inside, safe, clean) = (all-three _ _ _).0 h in
        let (some_tool, reads) = (safe_iff args.tools_used).0 safe in
        record {
          from_inside = (from-inside args.internal).0 inside;
          declares = some_tool;
          reads_only = reads;
          names_none =
              All-map (λ t. undeclared declared named t ≡ false) (λ t. In t named → In t declared)
                unsafe_tools (λ t. (undeclared_iff declared named t).0)
                ((any-none (undeclared declared named) unsafe_tools).0 clean);
        }

    back_way : IsHarmless u args body → needs_approval u args body ≡ false
    back_way h = (all-three (is_internal args.internal) (is_plan_safe args.tools_used) _).1 (
      (from-inside args.internal).1 h.from_inside,
      (safe_iff args.tools_used).1 (h.declares, h.reads_only),
      (any-none (undeclared declared named) unsafe_tools).1 (
          All-map (λ t. In t named → In t declared) (λ t. undeclared declared named t ≡ false)
            unsafe_tools (λ t. (undeclared_iff declared named t).1) h.names_none),
    )

at_In : (P : Text → Type 0) (ts : List Text) {t : Text} → All P ts → In t ts → P t
at_In P [] h i = elim i [ ]
at_In P (s ∷ ts) h here = h.0
at_In P (s ∷ ts) h (there i) = at_In P ts h.1 i

-- The names of the dangerous tools are single words.
unsafe-solid :
    (u : Unicode) (name : Text) → In name unsafe_tools → All (λ c. is_break u c ≡ false) name
unfolding is_alphanumeric
unsafe-solid u name i = all-false (is_break u) name (
    at_In (λ n. all (λ c. not (is_break u c)) n ≡ true) unsafe_tools
      ((all-All (λ n. all (λ c. not (is_break u c)) n) unsafe_tools).0 refl) i)

-- A plan needs approval whenever its body, in lower case, names a dangerous tool that it does not
-- declare, as a word between two characters that are part of no name.
pub names-needs_approval :
    (u : Unicode) (args : PlanArgs) (body name front back : Text) (x y : ℕ)
    → In name unsafe_tools
    → contains_text (map (lowercased u) args.tools_used) name ≡ false
    → is_break u x ≡ true
    → is_break u y ≡ true
    → lowercased u body ≡ front ++ (x ∷ (name ++ (y ∷ back)))
    → needs_approval u args body ≡ true
unfolding needs_approval
names-needs_approval u args body name front back x y known hidden hx hy e =
    elim (Bool-cases (needs_approval u args body)) [
      | inl b ↦ b
      | inr b ↦ absurd (
          true-false
            (sym (In-contains (map (lowercased u) args.tools_used) name (declared b)) ∙ hidden))
    ]
  where
    true-false : true ≢ false
    true-false w = cc

    declared : needs_approval u args body ≡ false → In name (map (lowercased u) args.tools_used)
    declared b =
        at_In (λ n. In n (words u (lowercased u body)) → In n (map (lowercased u) args.tools_used))
          unsafe_tools ((needs_approval_iff u args body).0 b).names_none known
          (contains-In (words u (lowercased u body)) name (
            subst (λ z. contains_text (words u z) name ≡ true) (sym e)
              (word_between u x y front name back hx hy (unsafe-solid u name known))))
