-- ===== src/Text/Split.antt =====
-- `split` at a character, `split_whitespace`, `trim`, and what they give back of a joined text.
use peko_agent.Base.{
  ℕ, ◌≡◌, refl, false, List, [], ◌∷◌, ◌++◌, ◌==◌, map, if◌then◌else◌, All, arith, ◌∙◌, ap,
}
use peko_agent.Text.{Text, is_whitespace, trim_start, trim_end, trim, join, cons_trimmed}

-- A character goes to the first piece.
abbrev pub cons_first : ℕ → List Text → List Text
cons_first c [] = (c ∷ []) ∷ []
cons_first c (t ∷ ts) = (c ∷ t) ∷ ts

-- `split(c)`: there is always one piece more than there are separators.
unfoldable pub split : ℕ → Text → List Text
split sep [] = [] ∷ []
split sep (c ∷ s) = if c == sep then [] ∷ split sep s else cons_first c (split sep s)

-- An empty piece at the front is dropped; a white character ends a piece.
abbrev pub start_piece : List Text → List Text
start_piece [] = []
start_piece ([] ∷ ts) = ts
start_piece ((c ∷ t) ∷ ts) = (c ∷ t) ∷ ts

unfoldable pub split_white : Text → List Text
unfolding is_whitespace
split_white [] = [] ∷ []
split_white (c ∷ s) =
    if is_whitespace c then [] ∷ start_piece (split_white s) else cons_first c (split_white s)

-- `split_whitespace`: the longest pieces with no white character, none of them empty.
unfoldable pub split_whitespace : Text → List Text
unfolding split_white
split_whitespace s = start_piece (split_white s)

abbrev pub IsFree : ℕ → Text → Type 0
IsFree sep = All (λ c. (c == sep) ≡ false)

pub split-free : (sep : ℕ) (s : Text) → IsFree sep s → split sep s ≡ s ∷ []
unfolding split
split-free sep [] h = refl
split-free sep (c ∷ s) h = rw (h.0, split-free sep s h.1)

pub split-free-append :
    (sep : ℕ) (s t : Text) → IsFree sep s → split sep (s ++ (sep ∷ t)) ≡ s ∷ split sep t
unfolding split
split-free-append sep [] t h = ground arith
split-free-append sep (c ∷ s) t h = rw (h.0, split-free-append sep s t h.1)

-- The pieces of a text that was joined by the separator and one character more.
abbrev pub padded : ℕ → List Text → List Text
padded pad [] = []
padded pad (t ∷ ts) = t ∷ map (λ u. pad ∷ u) ts

split-pad :
    (sep pad : ℕ) (s : Text)
    → (pad == sep) ≡ false
    → split sep (pad ∷ s) ≡ cons_first pad (split sep s)
unfolding split
split-pad sep pad s h = rw h

pub split-join :
    (sep pad : ℕ) (t : Text) (ts : List Text)
    → (pad == sep) ≡ false
    → All (IsFree sep) (t ∷ ts)
    → split sep (join (sep ∷ pad ∷ []) (t ∷ ts)) ≡ padded pad (t ∷ ts)
unfolding join
split-join sep pad t [] h f = split-free sep t f.0
split-join sep pad t (u ∷ us) h f =
    split-free-append sep t _ f.0
    ∙ ap (λ r. t ∷ r) (split-pad sep pad _ h ∙ ap (cons_first pad) (split-join sep pad u us h f.1))

-- No white character.
abbrev pub IsSolid : Text → Type 0
IsSolid = All (λ c. is_whitespace c ≡ false)

pub trim_start-solid : (s : Text) → IsSolid s → trim_start s ≡ s
unfolding trim_start
trim_start-solid [] h = refl
trim_start-solid (c ∷ s) h = rw h.0

pub cons_trimmed_keeps : (c : ℕ) (s : Text) → is_whitespace c ≡ false → cons_trimmed c s ≡ c ∷ s
cons_trimmed_keeps c [] h = rw h
cons_trimmed_keeps c (d ∷ s) h = refl

pub trim_end-solid : (s : Text) → IsSolid s → trim_end s ≡ s
unfolding trim_end
trim_end-solid [] h = refl
trim_end-solid (c ∷ s) h = rw (trim_end-solid s h.1) (cons_trimmed_keeps c s h.0)

pub trim-solid : (s : Text) → IsSolid s → trim s ≡ s
unfolding trim
trim-solid s h = rw (trim_start-solid s h) (trim_end-solid s h)

-- One space in front is dropped.
pub trim-space : (s : Text) → IsSolid s → trim (32 ∷ s) ≡ s
unfolding trim trim_start is_whitespace
trim-space s h = rw (trim_start-solid s h) (trim_end-solid s h)

-- Text without the separator, joined by it, splits into the same pieces.
pub split-join_plain :
    (sep : ℕ) (t : Text) (ts : List Text)
    → All (IsFree sep) (t ∷ ts)
    → split sep (join (sep ∷ []) (t ∷ ts)) ≡ t ∷ ts
unfolding join
split-join_plain sep t [] f = split-free sep t f.0
split-join_plain sep t (u ∷ us) f =
    split-free-append sep t _ f.0 ∙ ap (λ r. t ∷ r) (split-join_plain sep u us f.1)
