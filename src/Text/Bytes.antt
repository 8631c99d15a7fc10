-- ===== src/Text/Bytes.antt =====
-- Byte positions: where a slice panics, and where it does not.

use peko_agent.Base.{
  ℕ, zero, suc, ◌+◌, ◌-◌, ◌≤◌, ◌<◌, ◌≡◌, refl, none, some, [], ◌∷◌, ◌++◌, All, arith, length, take,
}
use peko_agent.Text.{Text, len_utf8, len, slice_to}

abbrev pub IsAscii : Text → Type 0
IsAscii = All (λ c. c < 128)

len_utf8-ascii : (c : ℕ) → c < 128 → len_utf8 c ≡ 1
unfolding len_utf8
len_utf8-ascii c h = ground arith

pub len_utf8-pos : (c : ℕ) → 0 < len_utf8 c
unfolding len_utf8
len_utf8-pos c = ground arith

-- In ASCII text every position up to the end is a character's.
pub slice_to-ascii : (n : ℕ) (s : Text) → IsAscii s → n ≤ len s → slice_to n s ≡ some (take n s)
unfolding slice_to len
slice_to-ascii zero [] a h = refl
slice_to-ascii (suc n) [] a h = absurd (omega arith)
slice_to-ascii zero (c ∷ s) a h = refl
slice_to-ascii (suc n) (c ∷ s) a h =
    let one = len_utf8-ascii c a.0 in
    let e : suc n - 1 ≡ n = omega arith in
    rw (one, e, slice_to-ascii n s a.1 (omega arith)) (ground arith)

pub len-ascii : (s : Text) → IsAscii s → len s ≡ length s
unfolding len len_utf8
len-ascii [] a = refl
len-ascii (c ∷ s) a = ground (arith, len-ascii s a.1)

-- A position inside the character `c` panics.
pub slice_to_inside :
    (s : Text) (c : ℕ) (t : Text) (k : ℕ)
    → 0 < k
    → k < len_utf8 c
    → slice_to (len s + k) (s ++ (c ∷ t)) ≡ none
unfolding slice_to len
slice_to_inside [] c t k h i = ground arith
slice_to_inside (d ∷ s) c t k h i =
    let e : len_utf8 d + len s + k - len_utf8 d ≡ len s + k = omega arith in
    rw (e, slice_to_inside s c t k h i) (ground arith)

pub len-append : (s t : Text) → len (s ++ t) ≡ len s + len t
unfolding len
len-append [] t = omega arith
len-append (c ∷ s) t = omega (arith, len-append s t)
