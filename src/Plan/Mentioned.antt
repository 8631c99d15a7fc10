-- ===== src/Plan/Mentioned.antt =====
-- The words of a plan's body and the lists of tools, for the test of
-- crates/peko-tools-android/src/plan_tool.rs.
use peko_agent.Base.{
  ℕ, ◌≡◌, ◌≢◌, inl, inr, ◌↔◌, refl, sym, ap, subst, Bool, true, false, ◌||◌, List, [], ◌∷◌, ◌++◌,
  any, all, All, Bool-cases, arith,
}
use peko_agent.Text.{Text, text_eq}
use peko_agent.Text.Equality.{text_eq_refl, text_eq_iff}
use peko_agent.Text.Split.{cons_first}
use peko_agent.Notebook.Slug.{Unicode}
use peko_agent.Plan.Words.{contains_text, is_break, words}

-- A text among others.
pub data In (t : Text) : List Text → Type 0 where
  here : {ts : List Text} → In t (t ∷ ts)
  there : {s : Text} {ts : List Text} → In t ts → In t (s ∷ ts)

pub contains-In : (ts : List Text) (t : Text) → contains_text ts t ≡ true → In t ts
unfolding contains_text
contains-In [] t h = cc
contains-In (s ∷ ts) t h = elim (Bool-cases (text_eq s t)) [
  | inl b ↦ subst (λ z. In t (z ∷ ts)) (sym ((text_eq_iff s t).0 b)) here
  | inr b ↦ there (contains-In ts t (subst (λ z. (z || contains_text ts t) ≡ true) b h))
]

pub In-contains : (ts : List Text) (t : Text) → In t ts → contains_text ts t ≡ true
unfolding contains_text
In-contains [] t i = elim i [ ]
In-contains (s ∷ ts) t here = rw (text_eq_refl t) refl
In-contains (s ∷ ts) t (there i) = or-true (text_eq s t) (In-contains ts t i)
  where
    or-true : (b : Bool) {c : Bool} → c ≡ true → (b || c) ≡ true
    or-true b h = ground arith

pub all-All : (p : Text → Bool) (ts : List Text) → (all p ts ≡ true) ↔ All (λ t. p t ≡ true) ts
all-All p [] = (λ h. tt, λ h. refl)
all-All p (t ∷ ts) =
    (λ h. (ground arith, (all-All p ts).0 (ground arith)), λ h. rw h.0 ((all-All p ts).1 h.1))

pub any-none : (p : Text → Bool) (ts : List Text) → (any p ts ≡ false) ↔ All (λ t. p t ≡ false) ts
any-none p [] = (λ h. tt, λ h. refl)
any-none p (t ∷ ts) =
    (λ h. (ground arith, (any-none p ts).0 (ground arith)), λ h. rw h.0 ((any-none p ts).1 h.1))

-- The words of a body.
pub words-solid : (u : Unicode) (t : Text) → All (λ c. is_break u c ≡ false) t → words u t ≡ t ∷ []
unfolding words
words-solid u [] h = refl
words-solid u (c ∷ t) h = rw (h.0, words-solid u t h.1) refl

cons_first-append :
    (c : ℕ) (ws vs : List Text) → ws ≢ [] → cons_first c (ws ++ vs) ≡ cons_first c ws ++ vs
cons_first-append c [] vs ne = absurd (ne refl)
cons_first-append c (w ∷ ws) vs ne = refl

words-nonempty : (u : Unicode) (s : Text) → words u s ≢ []
unfolding words
words-nonempty u [] = λ e. cc
words-nonempty u (c ∷ s) = elim (Bool-cases (is_break u c)) [
  | inl b ↦ rw b (λ e. cc)
  | inr b ↦ rw b (cons-nonempty c (words u s))
]
  where
    cons-nonempty : (c : ℕ) (ws : List Text) → cons_first c ws ≢ []
    cons-nonempty c [] e = cc
    cons-nonempty c (w ∷ ws) e = cc

words-append :
    (u : Unicode) (b : ℕ) (s t : Text)
    → is_break u b ≡ true
    → words u (s ++ (b ∷ t)) ≡ words u s ++ words u t
unfolding words
words-append u b [] t h = rw h refl
words-append u b (c ∷ s) t h = elim (Bool-cases (is_break u c)) [
  | inl k ↦ rw k (ap (λ z. [] ∷ z) (words-append u b s t h))
  | inr k ↦
      rw (k, words-append u b s t h)
        (cons_first-append c (words u s) (words u t) (words-nonempty u s))
]

pub contains-append :
    (ts : List Text) (t : Text) (us : List Text) → contains_text (ts ++ (t ∷ us)) t ≡ true
unfolding contains_text
contains-append [] t us = rw (text_eq_refl t) refl
contains-append (s ∷ ts) t us = ground (arith, contains-append ts t us)

-- A word between two characters that are part of no name.
pub word_between :
    (u : Unicode) (x y : ℕ) (front name back : Text)
    → is_break u x ≡ true
    → is_break u y ≡ true
    → All (λ c. is_break u c ≡ false) name
    → contains_text (words u (front ++ (x ∷ (name ++ (y ∷ back))))) name ≡ true
word_between u x y front name back hx hy solid =
    rw
      (
        words-append u x front (name ++ (y ∷ back)) hx,
        words-append u y name back hy,
        words-solid u name solid,
      )
      (contains-append (words u front) name (words u back))
