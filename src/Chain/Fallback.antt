-- ===== src/Chain/Fallback.antt =====
-- Which provider's answer the chain of crates/peko-transport/src/chain.rs gives.
use peko_agent.Base.{
  ◌≡◌, refl, sym, ap, ◌∙◌, arith, Bool, true, false, Option, none, some, List, [], ◌∷◌, ◌++◌, ◌||◌,
  any, inl, inr, Bool-cases,
}
use peko_agent.Base.Results.{Result, ok, err}
use peko_agent.Text.{Text, text, contains}
use peko_agent.Chain.{Provider, is_retryable, has_next, answered, try_providers, stream_completion}

-- An error that may pass: its text has one of these.
abbrev pub temporary_marks : List Text
temporary_marks =
    text "429" ∷ text "500" ∷ text "502" ∷ text "503" ∷ text "connection" ∷ text "timeout" ∷ []

abbrev pub is_temporary : Text → Bool
is_temporary e = any (λ mark. contains mark e) temporary_marks

-- Called one after the other from the world `w`, the providers all fail with an error that may pass,
-- and leave the world `v`.
pub data AllFail {S W : Type 0} : List (Provider S W) → W → W → Type 0 where
  no_more : {w : W} → AllFail [] w w
  one_fails :
      {p : Provider S W} {ps : List (Provider S W)} {e : Text} {w u v : W}
      → p w ≡ (err e, u)
      → is_temporary e ≡ true
      → AllFail ps u v
      → AllFail (p ∷ ps) w v

-- An answer after which no other provider is called: a stream, an error that does not pass, or any
-- error of the last provider.
pub data IsFinal {S W : Type 0} : Result S Text → List (Provider S W) → Type 0 where
  streams : {s : S} {back : List (Provider S W)} → IsFinal (ok s) back
  gives_up : {e : Text} {back : List (Provider S W)} → is_temporary e ≡ false → IsFinal (err e) back
  no_other : {e : Text} → IsFinal (err e) []

-- The provider `p` of the chain decides: those in front of it fail, each in the world that the one
-- before it leaves, and its own answer, `r` with the world `u`, is final.
pub record Decides {S W : Type 0} (ps : List (Provider S W)) (w : W) (r : Result S Text) (u : W)
    : Type 0 where
  pub front : List (Provider S W)
  pub decider : Provider S W
  pub back : List (Provider S W)
  pub before : W
  pub split : ps ≡ front ++ (decider ∷ back)
  pub failed : AllFail front w before
  pub answer : decider before ≡ (r, u)
  pub final : IsFinal r back

is_retryable-temporary : (e : Text) → is_retryable e ≡ is_temporary e
unfolding is_retryable
is_retryable-temporary e =
    six (contains (text "429") e) (contains (text "500") e) (contains (text "502") e)
      (contains (text "503") e) (contains (text "connection") e) (contains (text "timeout") e)
  where
    six :
        (a b c d f g : Bool)
        → (a || b || c || d || f || g) ≡ (a || (b || (c || (d || (f || (g || false))))))
    six a b c d f g = ground arith

module _ {S W : Type 0} where
  first-Decides :
      {p : Provider S W} {ps : List (Provider S W)} {w u : W} {r : Result S Text}
      → p w ≡ (r, u)
      → IsFinal r ps
      → Decides (p ∷ ps) w r u
  first-Decides {p} {ps} {w} e f = record {
    front = [];
    decider = p;
    back = ps;
    before = w;
    split = refl;
    failed = no_more;
    answer = e;
    final = f;
  }

  rest-Decides :
      {p : Provider S W} {ps : List (Provider S W)} {w v u : W} {m : Text} {r : Result S Text}
      → p w ≡ (err m, v)
      → is_temporary m ≡ true
      → Decides ps v r u
      → Decides (p ∷ ps) w r u
  rest-Decides {p} e t d = record {
    front = p ∷ d.front;
    decider = d.decider;
    back = d.back;
    before = d.before;
    split = ap (λ z. p ∷ z) d.split;
    failed = one_fails e t d.failed;
    answer = d.answer;
    final = d.final;
  }

  -- One provider of the loop, with what the loop behind it does.
  answered-Decides :
      (p : Provider S W) (ps : List (Provider S W)) (w : W) (a : Result S Text × W)
      → p w ≡ a
      → ((q : Provider S W) (qs : List (Provider S W)) (l : Option Text) (v : W)
          → ps ≡ q ∷ qs
          → Decides ps v (try_providers ps l v).0 (try_providers ps l v).1)
      → Decides
          (p ∷ ps)
          w
          (answered (has_next ps) (try_providers ps) a).0
          (answered (has_next ps) (try_providers ps) a).1
  answered-Decides p ps w (ok s, v) e rest = first-Decides e streams
  answered-Decides p [] w (err m, v) e rest = elim (Bool-cases (is_retryable m)) [
    | inl b ↦ rw b (first-Decides e no_other)
    | inr b ↦ rw b (first-Decides e no_other)
  ]
  answered-Decides p (q ∷ qs) w (err m, v) e rest = elim (Bool-cases (is_retryable m)) [
    | inl b ↦ rw b (rest-Decides e (sym (is_retryable-temporary m) ∙ b) (rest q qs (some m) v refl))
    | inr b ↦ rw b (first-Decides e (gives_up (sym (is_retryable-temporary m) ∙ b)))
  ]

  try_providers-Decides :
      (ps : List (Provider S W)) (q : Provider S W) (qs : List (Provider S W)) (last : Option Text)
      (w : W)
      → ps ≡ q ∷ qs
      → Decides ps w (try_providers ps last w).0 (try_providers ps last w).1
  unfolding try_providers
  try_providers-Decides [] q qs last w e = absurd cc
  try_providers-Decides (p ∷ ps) q qs last w e =
      answered-Decides p ps w (p w) refl (try_providers-Decides ps)

  -- The result of a chain with a provider is the answer of one of its providers, unchanged: each
  -- provider in front of it fails with an error that may pass, called once and in order, and its
  -- own answer is a stream, an error that does not pass, or any error if no provider is left; those
  -- behind it are not called.
  pub stream_completion-Decides :
      (p : Provider S W) (ps : List (Provider S W)) (w : W)
      → let (r, u) = stream_completion (p ∷ ps) w in Decides (p ∷ ps) w r u
  unfolding stream_completion
  stream_completion-Decides p ps w = try_providers-Decides (p ∷ ps) p ps none w refl
