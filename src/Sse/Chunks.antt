-- ===== src/Sse/Chunks.antt =====
-- The buffer of crates/peko-transport/src/sse.rs across chunks, and the fuel of its loop.
use peko_agent.Base.{
  ℕ, zero, suc, ◌+◌, ◌<◌, ◌≤◌, ◌≡◌, refl, sym, ◌∙◌, ap, subst, arith, Bool, true, false, Option,
  none, some, List, [], ◌∷◌, ◌++◌, length, inl, inr, Option-cases, length-append, ◌==◌, ◌&&◌,
}
use mathlib.Core.Option
use mathlib.Core.List.{append_assoc}
use peko_agent.Text.{Text}
use peko_agent.Sse.{SseEvent, parse_block, pick, cut, with_event, drain, feed}

pick-length :
    (q : Bool) (a : ℕ) (s : Text) (rest : Option (Text × Text)) (n : ℕ) (x y : Text)
    → length s < n
    → ((u v : Text) → rest ≡ some (u, v) → length v < n)
    → pick q a s rest ≡ some (x, y)
    → length y < n
pick-length true a s rest n x y l f h = let e : s ≡ y = cc in subst (λ z. length z < n) e l
pick-length false a s rest n x y l f h =
    let ((u, v), p, e) = (Option.map-eq-some_iff _ _).0 h in
    subst (λ z. length z < n) (ap (λ z. z.1) e) (f u v p)

-- What is behind the blank line is shorter.
cut-length : (s x y : Text) → cut s ≡ some (x, y) → length y < length s
unfolding cut
cut-length [] x y h = cc
cut-length (a ∷ []) x y h = cc
cut-length (a ∷ b ∷ s) x y h =
    pick-length (a == 10 && b == 10) a s (cut (b ∷ s)) (length (a ∷ b ∷ s)) x y (omega arith)
      (λ u v p. let l = cut-length (b ∷ s) u v p in omega arith) h

pick-append :
    (q : Bool) (a : ℕ) (s t : Text) (rest rest2 : Option (Text × Text)) (x y : Text)
    → ((u v : Text) → rest ≡ some (u, v) → rest2 ≡ some (u, v ++ t))
    → pick q a s rest ≡ some (x, y)
    → pick q a (s ++ t) rest2 ≡ some (x, y ++ t)
pick-append true a s t rest rest2 x y f h =
    let e1 : [] ≡ x = cc in
    let e2 : s ≡ y = cc in ap (λ z. some (z, s ++ t)) e1 ∙ ap (λ z. some (x, z ++ t)) e2
pick-append false a s t rest rest2 x y f h =
    let ((u, v), p, e) = (Option.map-eq-some_iff _ _).0 h in
    ap (λ o. Option.map (λ (w, z). (a ∷ w, z)) o) (f u v p) ∙ ap (λ w. some (w.0, w.1 ++ t)) e

-- A blank line that was found stays the first one.
cut-append : (s t x y : Text) → cut s ≡ some (x, y) → cut (s ++ t) ≡ some (x, y ++ t)
unfolding cut
cut-append [] t x y h = cc
cut-append (a ∷ []) t x y h = cc
cut-append (a ∷ b ∷ s) t x y h =
    pick-append (a == 10 && b == 10) a s t (cut (b ∷ s)) (cut (b ∷ (s ++ t))) x y
      (λ u v p. cut-append (b ∷ s) t u v p) h

-- More fuel than the length of the text changes nothing.
drain_fuel : (n m : ℕ) (s : Text) → length s < n → length s < m → drain n s ≡ drain m s
unfolding drain
drain_fuel zero m s p q = absurd (omega arith)
drain_fuel (suc n) zero s p q = absurd (omega arith)
drain_fuel (suc n) (suc m) s p q = elim (Option-cases (cut s)) [
  | inl e ↦ rw (e) refl
  | inr ((x, y), e) ↦
      let l = cut-length s x y e in
      rw (e) (ap (with_event (parse_block x)) (drain_fuel n m y (omega arith) (omega arith)))
]

-- The events of a first part, then those of the rest.
abbrev pub then_more : List SseEvent × Text → (Text → List SseEvent × Text) → List SseEvent × Text
then_more (es, buffer) f = let r = f buffer in (es ++ r.0, r.1)

with_event-then_more :
    (o : Option SseEvent) (r : List SseEvent × Text) (f : Text → List SseEvent × Text)
    → with_event o (then_more r f) ≡ then_more (with_event o r) f
with_event-then_more none r f = refl
with_event-then_more (some e) (es, buffer) f = refl

drain-append :
    (n m k : ℕ) (s t : Text)
    → length s < n
    → length s + length t < m
    → length s + length t < k
    → drain m (s ++ t) ≡ then_more (drain n s) (λ buffer. drain k (buffer ++ t))
unfolding drain
drain-append zero m k s t p q r = absurd (omega arith)
drain-append (suc n) zero k s t p q r = absurd (omega arith)
drain-append (suc n) (suc m) k s t p q r = elim (Option-cases (cut s)) [
  | inl e ↦
      let l = length-append s t in
      let f : length (s ++ t) < suc m = omega arith in
      let g : length (s ++ t) < k = omega arith in drain_fuel (suc m) k (s ++ t) f g ∙ rw (e) refl
  | inr ((x, y), e) ↦
      let l = cut-length s x y e in
      let ih = drain-append n m k y t (omega arith) (omega arith) (omega arith) in
      rw (e, cut-append s t x y e)
        (ap (with_event (parse_block x)) ih
          ∙ with_event-then_more (parse_block x) (drain n y) (λ buffer. drain k (buffer ++ t)))
]

with_event-buffer : (o : Option SseEvent) (r : List SseEvent × Text) → (with_event o r).1 ≡ r.1
with_event-buffer none r = refl
with_event-buffer (some e) (es, buffer) = refl

drain-length : (n : ℕ) (s : Text) → length (drain n s).1 ≤ length s
unfolding drain
drain-length zero s = omega arith
drain-length (suc n) s = elim (Option-cases (cut s)) [
  | inl e ↦ rw (e) (omega arith)
  | inr ((x, y), e) ↦
      let l = cut-length s x y e in
      let ih = drain-length n y in
      let w = with_event-buffer (parse_block x) (drain n y) in
      rw (e) (subst (λ z. length z ≤ length s) (sym w) (omega arith))
]

-- If the bytes of two chunks decode to the same text together as one after the other, then feeding
-- them together gives the events of the first and then those of the second, and leaves the same
-- buffer.
pub feed-append :
    (decode : List ℕ → Text) (buffer : Text) (a b : List ℕ)
    → decode (a ++ b) ≡ decode a ++ decode b
    → feed decode buffer (a ++ b) ≡ then_more (feed decode buffer a) (λ rest. feed decode rest b)
unfolding feed
feed-append decode buffer a b h =
    let s = buffer ++ decode a in
    let t = decode b in
    let n = length s + 1 in
    let k = length s + length t + 1 in
    let rest = (drain n s).1 in
    let whole : buffer ++ decode (a ++ b) ≡ s ++ t =
      ap (λ z. buffer ++ z) h ∙ sym (append_assoc buffer (decode a) t) in
    let l = length-append s t in
    let l2 = length-append rest t in
    let l3 = drain-length n s in
    ap (λ z. drain (length z + 1) z) whole
    ∙ drain-append n (length (s ++ t) + 1) k s t (omega arith) (omega arith) (omega arith)
    ∙ ap (λ z. ((drain n s).0 ++ z.0, z.1))
        (drain_fuel k (length (rest ++ t) + 1) (rest ++ t) (omega arith) (omega arith))

-- What stays in the buffer has no blank line: the fuel of `feed` reaches the end of the loop.
drain-cut : (n : ℕ) (s : Text) → length s < n → cut (drain n s).1 ≡ none
unfolding drain
drain-cut zero s h = absurd (omega arith)
drain-cut (suc n) s h = elim (Option-cases (cut s)) [
  | inl e ↦ rw (e) e
  | inr ((x, y), e) ↦
      let l = cut-length s x y e in
      let w = with_event-buffer (parse_block x) (drain n y) in
      rw (e) (ap cut w ∙ drain-cut n y (omega arith))
]

-- The loop of `feed` ends within its fuel, one round more than the length of the text: what stays
-- in the buffer has no blank line.
pub feed-cut :
    (decode : List ℕ → Text) (buffer : Text) (chunk : List ℕ)
    → cut (feed decode buffer chunk).1 ≡ none
unfolding feed
feed-cut decode buffer chunk =
    drain-cut (length (buffer ++ decode chunk) + 1) (buffer ++ decode chunk) (omega arith)
