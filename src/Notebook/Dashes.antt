-- ===== src/Notebook/Dashes.antt =====
-- Where dashes stand in a text, for the slugs of crates/peko-core/src/notebook.rs.
use peko_agent.Base.{
  ℕ, ◌≡◌, ◌≢◌, ◌⊎◌, refl, Bool, false, ◌&&◌, ◌||◌, [], ◌∷◌, ◌++◌, ◌==◌, All, arith,
}
use peko_agent.Text.{Text, is_whitespace}
use peko_agent.Notebook.Slug.{is_ascii_punctuation, is_separator}

abbrev pub starts_dash : Text → Bool
starts_dash [] = false
starts_dash (c ∷ s) = c == 45

abbrev pub ends_dash : Text → Bool
ends_dash [] = false
ends_dash (c ∷ []) = c == 45
ends_dash (c ∷ d ∷ s) = ends_dash (d ∷ s)

abbrev pub has_double : Text → Bool
has_double [] = false
has_double (c ∷ []) = false
has_double (c ∷ d ∷ s) = c == 45 && d == 45 || has_double (d ∷ s)

-- A dash, or neither white nor punctuation.
abbrev pub IsSlugChar : ℕ → Type 0
IsSlugChar c = (c ≡ 45) ⊎ (is_separator c ≡ false)

pub no_dash : (d : ℕ) → is_separator d ≡ false → (d == 45) ≡ false
unfolding is_separator is_ascii_punctuation is_whitespace
no_dash d h = ground arith

-- The ends and the inside of two texts that are put together.
pub ends-append : (s t : Text) → t ≢ [] → ends_dash (s ++ t) ≡ ends_dash t
ends-append [] t h = refl
ends-append (c ∷ []) [] h = absurd (h refl)
ends-append (c ∷ []) (d ∷ t) h = refl
ends-append (c ∷ d ∷ s) t h = ends-append (d ∷ s) t h

pub double-append :
    (s t : Text)
    → has_double s ≡ false
    → has_double t ≡ false
    → (ends_dash s && starts_dash t) ≡ false
    → has_double (s ++ t) ≡ false
double-append [] t hs ht e = ht
double-append (c ∷ []) [] hs ht e = refl
double-append (c ∷ []) (d ∷ t) hs ht e = ground arith
double-append (c ∷ d ∷ s) t hs ht e = ground (arith, double-append (d ∷ s) t)

-- And of the front of a text.
pub double-front : (s t : Text) → has_double (s ++ t) ≡ false → has_double s ≡ false
double-front [] t h = refl
double-front (c ∷ []) t h = refl
double-front (c ∷ d ∷ s) t h = ground (arith, double-front (d ∷ s) t)

pub starts-front : (s t : Text) → starts_dash (s ++ t) ≡ false → starts_dash s ≡ false
starts-front [] t h = refl
starts-front (c ∷ s) t h = h

pub allowed-front : (s t : Text) → All IsSlugChar (s ++ t) → All IsSlugChar s
allowed-front [] t h = tt
allowed-front (c ∷ s) t h = (h.0, allowed-front s t h.1)

-- A text without separators.
pub solid-ends : (t : Text) → All (λ d. is_separator d ≡ false) t → ends_dash t ≡ false
solid-ends [] h = refl
solid-ends (c ∷ []) h = no_dash c h.0
solid-ends (c ∷ d ∷ t) h = solid-ends (d ∷ t) h.1

pub solid-starts : (t : Text) → All (λ d. is_separator d ≡ false) t → starts_dash t ≡ false
solid-starts [] h = refl
solid-starts (c ∷ t) h = no_dash c h.0

pub solid-double : (t : Text) → All (λ d. is_separator d ≡ false) t → has_double t ≡ false
solid-double [] h = refl
solid-double (c ∷ []) h = refl
solid-double (c ∷ d ∷ t) h = rw (no_dash c h.0, solid-double (d ∷ t) h.1) refl
