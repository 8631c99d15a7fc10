-- ===== src/Life/Fresh.antt =====
-- Which prompts the exploration of crates/peko-core/src/life_loop.rs proposes.
use peko_agent.Base.{
  ℕ, ◌+◌, ◌-◌, ◌*◌, ◌<◌, ◌≡◌, ◌≢◌, refl, sym, ◌∙◌, subst, arith, Bool, true, false, not, ◌&&◌,
  Option, none, some, List, [], ◌∷◌, ◌⊎◌, any, inl, inr, All, All-append, Bool-cases, leb,
  if◌then◌else◌,
}
use peko_agent.Text.{Text, text_eq, contains}
use peko_agent.Text.Equality.{text_eq_iff}
use peko_agent.Life.Curiosity.{
  Reading, UserPatterns, last_use, is_since, tool_used_recently, tool_use_window_hours,
  safe_explore, tool_prompt, hour_prompt, hours_text, tool_candidates, candidates, first_new, next,
}
use peko_agent.Life.Proposals.{
  ProposalStatus, pending, approved, rejected, executed, expired, Proposal, blocks, recent_prompts,
}

-- `cs` is a run of refused texts, then `c`.
pub data IsFirst (taken : Text → Bool) (c : Text) : List Text → Type 0 where
  found : {cs : List Text} → taken c ≡ false → IsFirst taken c (c ∷ cs)
  passed :
      {d : Text} {cs : List Text} → taken d ≡ true → IsFirst taken c cs → IsFirst taken c (d ∷ cs)

abbrev pub is_recent : List Text → Text → Bool
is_recent recent c = any (λ p. text_eq p c) recent

first_new-IsFirst_if :
    (recent : List Text) (d : Text) (cs : List Text) {c : Text} (b : Bool)
    → is_recent recent d ≡ b
    → (first_new recent cs ≡ some c → IsFirst (is_recent recent) c cs)
    → (if b then first_new recent cs else some d) ≡ some c
    → IsFirst (is_recent recent) c (d ∷ cs)
first_new-IsFirst_if recent d cs true e f h = passed e (f h)
first_new-IsFirst_if recent d cs false e f h =
    let q : d ≡ _ = cc in subst (λ z. IsFirst (is_recent recent) z (d ∷ cs)) q (found e)

first_new-IsFirst :
    (recent : List Text) (cs : List Text) {c : Text}
    → first_new recent cs ≡ some c
    → IsFirst (is_recent recent) c cs
unfolding first_new
first_new-IsFirst recent [] h = absurd cc
first_new-IsFirst recent (d ∷ cs) h =
    first_new-IsFirst_if recent d cs (is_recent recent d) refl (first_new-IsFirst recent cs) h

IsFirst-free :
    (taken : Text → Bool) {c : Text} {cs : List Text} → IsFirst taken c cs → taken c ≡ false
IsFirst-free taken (found e) = e
IsFirst-free taken (passed e i) = IsFirst-free taken i

-- A proposal of this status and time no longer keeps its prompt from being proposed: it expired, or
-- it was executed or rejected before the cutoff.
pub data MayRepeat (cutoff created_at : ℕ) : ProposalStatus → Type 0 where
  has_expired : MayRepeat cutoff created_at expired
  executed_before : created_at < cutoff → MayRepeat cutoff created_at executed
  rejected_before : created_at < cutoff → MayRepeat cutoff created_at rejected

abbrev pub Avoids : ℕ → Text → List Proposal → Type 0
Avoids cutoff c ps = All (λ p. MayRepeat cutoff p.created_at p.status ⊎ (p.task_prompt ≢ c)) ps

-- No use is known, or the last one is more than the window of 24 hours ago.
pub data IsUnused (now_ms : ℕ) : Option ℕ → Type 0 where
  never : IsUnused now_ms none
  long_ago : {t : ℕ} → t + 24 * 3600000 < now_ms → IsUnused now_ms (some t)

-- What may be proposed: to try a registered safe tool that is unused, or to look at the screen at an
-- hour that the user's active hours do not name.
pub data IsIdea (clock : Reading) (user : UserPatterns) (registered : List Text)
    : Text → Type 0 where
  tries :
      (name : Text)
      → any (text_eq name) safe_explore ≡ true
      → any (text_eq name) registered ≡ true
      → IsUnused clock.now_ms (last_use name user.tools_used)
      → IsIdea clock user registered (tool_prompt name)
  looks :
      contains clock.hour (hours_text user.active_hours) ≡ false
      → IsIdea clock user registered (hour_prompt clock.time)

blocks-MayRepeat :
    (cutoff : ℕ) (p : Proposal) (st : ProposalStatus)
    → p.status ≡ st
    → blocks cutoff p ≡ false
    → MayRepeat cutoff p.created_at st
unfolding blocks
blocks-MayRepeat cutoff p pending e h = let z : true ≡ false = sym (rw (e) refl) ∙ h in absurd cc
blocks-MayRepeat cutoff p approved e h = let z : true ≡ false = sym (rw (e) refl) ∙ h in absurd cc
blocks-MayRepeat cutoff p rejected e h =
    let z : leb cutoff p.created_at ≡ false = sym (rw (e) refl) ∙ h in
    rejected_before (ground arith)
blocks-MayRepeat cutoff p executed e h =
    let z : leb cutoff p.created_at ≡ false = sym (rw (e) refl) ∙ h in
    executed_before (ground arith)
blocks-MayRepeat cutoff p expired e h = has_expired

avoid_case :
    (cutoff : ℕ) (c : Text) (p : Proposal) (rest : List Text) (b : Bool)
    → blocks cutoff p ≡ b
    → is_recent (if b then p.task_prompt ∷ rest else rest) c ≡ false
    → (MayRepeat cutoff p.created_at p.status ⊎ (p.task_prompt ≢ c)) × (is_recent rest c ≡ false)
avoid_case cutoff c p rest true e h =
    let (h1, h2) : (text_eq p.task_prompt c ≡ false) × (is_recent rest c ≡ false) = ground arith in
    (inr (λ q. false_not_true (sym h1 ∙ (text_eq_iff p.task_prompt c).1 q)), h2)
  where
    false_not_true : false ≡ true → ⊥
    false_not_true z = cc
avoid_case cutoff c p rest false e h = (inl (blocks-MayRepeat cutoff p p.status refl e), h)

recent_prompts-Avoids :
    (cutoff : ℕ) (c : Text) (ps : List Proposal)
    → is_recent (recent_prompts cutoff ps) c ≡ false
    → Avoids cutoff c ps
unfolding recent_prompts
recent_prompts-Avoids cutoff c [] h = tt
recent_prompts-Avoids cutoff c (p ∷ ps) h =
    let (a, k) = avoid_case cutoff c p (recent_prompts cutoff ps) (blocks cutoff p) refl h in
    (a, recent_prompts-Avoids cutoff c ps k)

since-IsUnused :
    (now_ms : ℕ) (o : Option ℕ)
    → is_since (now_ms - tool_use_window_hours * 3600000) o ≡ false
    → IsUnused now_ms o
since-IsUnused now_ms none h = never
since-IsUnused now_ms (some t) h = long_ago (ground arith)

module _ (clock : Reading) (user : UserPatterns) (registered : List Text) where
  tool-IsIdea :
      (name : Text)
      → any (text_eq name) safe_explore ≡ true
      → (any (text_eq name) registered
          && not (tool_used_recently clock.now_ms user name tool_use_window_hours))
        ≡ true
      → IsIdea clock user registered (tool_prompt name)
  unfolding tool_used_recently
  tool-IsIdea name safe h =
      let o = last_use name user.tools_used in
      let (h1, h2) : (any (text_eq name) registered ≡ true)
          × (is_since (clock.now_ms - tool_use_window_hours * 3600000) o ≡ false) =
        ground arith in
      tries name safe h1 (since-IsUnused clock.now_ms o h2)

  tool_candidates-AreIdeas :
      (names : List Text)
      → All (λ n. any (text_eq n) safe_explore ≡ true) names
      → All (IsIdea clock user registered) (tool_candidates clock user registered names)
  unfolding tool_candidates
  tool_candidates-AreIdeas [] safe = tt
  tool_candidates-AreIdeas (name ∷ names) (s, safe) =
      let rest = tool_candidates-AreIdeas names safe in
      elim (Bool-cases (
        any (text_eq name) registered
        && not (tool_used_recently clock.now_ms user name tool_use_window_hours))) [
          | inl e ↦ rw (e) (tool-IsIdea name s e, rest)
          | inr e ↦ rw (e) rest
        ]

  hour-AreIdeas :
      (b : Bool)
      → contains clock.hour (hours_text user.active_hours) ≡ b
      → All (IsIdea clock user registered) (if b then [] else hour_prompt clock.time ∷ [])
  hour-AreIdeas true h = tt
  hour-AreIdeas false h = (looks h, tt)

  candidates-AreIdeas : All (IsIdea clock user registered) (candidates clock user registered)
  unfolding candidates text_eq
  candidates-AreIdeas =
      All-append (IsIdea clock user registered) (tool_candidates clock user registered safe_explore)
        _ (tool_candidates-AreIdeas safe_explore (refl, (refl, (refl, (refl, tt)))))
        (hour-AreIdeas (contains clock.hour (hours_text user.active_hours)) refl)

IsFirst-All :
    (P : Text → Type 0) (taken : Text → Bool) {c : Text} {cs : List Text}
    → IsFirst taken c cs
    → All P cs
    → P c
IsFirst-All P taken (found e) a = a.0
IsFirst-All P taken (passed e i) a = IsFirst-All P taken i a.1

-- A prompt that the exploration picks either asks to try a registered tool of the safe ones that
-- was not used within 24 hours, or to look at the screen at an hour that is not among the active
-- ones; no proposal that is pending or approved, or was made since the cutoff and is executed or
-- rejected, has it; and it is the first of the candidates that no such proposal has.
pub next-Avoids :
    (clock : Reading) (user : UserPatterns) (registered : List Text) (cutoff : ℕ)
    (ps : List Proposal) {c : Text}
    → next clock user registered (recent_prompts cutoff ps) ≡ some c
    → IsIdea clock user registered c
      × Avoids cutoff c ps
      × IsFirst (is_recent (recent_prompts cutoff ps)) c (candidates clock user registered)
unfolding next
next-Avoids clock user registered cutoff ps {c} h =
    let i = first_new-IsFirst (recent_prompts cutoff ps) (candidates clock user registered) h in
    (
      IsFirst-All (IsIdea clock user registered) _ i (candidates-AreIdeas clock user registered),
      recent_prompts-Avoids cutoff c ps (IsFirst-free _ i),
      i,
    )
