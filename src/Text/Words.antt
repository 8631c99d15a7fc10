-- ===== src/Text/Words.antt =====
-- Words joined by single spaces, under `trim` and `split_whitespace`.
use peko_agent.Base.{◌≡◌, ◌≢◌, refl, List, [], ◌∷◌, ◌++◌, All, arith, ap, ◌∙◌}
use peko_agent.Text.{Text, trim_start, trim_end, trim, join, cons_trimmed}
use peko_agent.Text.Split.{
  IsSolid, trim_start-solid, trim_end-solid, start_piece, split_white, split_whitespace,
}

-- Not empty, and no white character.
abbrev pub IsWord : Text → Type 0
IsWord t = (t ≢ []) × IsSolid t

trim_end-append : (s t : Text) → trim_end t ≢ [] → trim_end (s ++ t) ≡ s ++ trim_end t
unfolding trim_end
trim_end-append [] t h = refl
trim_end-append (c ∷ s) t h = rw (trim_end-append s t h) (keeps (s ++ trim_end t) (tail_ne s))
  where
    keeps : (u : Text) → u ≢ [] → cons_trimmed c u ≡ c ∷ u
    keeps [] ne = absurd (ne refl)
    keeps (d ∷ u) ne = refl

    tail_ne : (s : Text) → s ++ trim_end t ≢ []
    tail_ne [] = h
    tail_ne (d ∷ s) = ground arith

pub append-nonempty : (s t : Text) → t ≢ [] → s ++ t ≢ []
append-nonempty [] t h = h
append-nonempty (c ∷ s) t h = ground arith

join-nonempty : (t : Text) (ts : List Text) → All IsWord (t ∷ ts) → join (32 ∷ []) (t ∷ ts) ≢ []
unfolding join
join-nonempty t [] h = h.0.0
join-nonempty t (u ∷ us) h = append-nonempty t _ (ground arith)

trim_end-join :
    (t : Text) (ts : List Text)
    → All IsWord (t ∷ ts)
    → trim_end (join (32 ∷ []) (t ∷ ts)) ≡ join (32 ∷ []) (t ∷ ts)
unfolding join
trim_end-join t [] h = trim_end-solid t h.0.1
trim_end-join t (u ∷ us) h =
    let ih = trim_end-join u us h.1 in
    let last =
      trim_end-append (32 ∷ []) (join (32 ∷ []) (u ∷ us)) (rw ih (join-nonempty u us h.1))
      ∙ ap (λ r. 32 ∷ r) ih in
    trim_end-append t (32 ∷ join (32 ∷ []) (u ∷ us)) (rw last (ground arith))
    ∙ ap (λ r. t ++ r) last

trim_start-append : (s t : Text) → IsWord s → trim_start (s ++ t) ≡ s ++ t
unfolding trim_start
trim_start-append [] t h = absurd (h.0 refl)
trim_start-append (c ∷ s) t h = rw h.1.0

trim_start-join :
    (t : Text) (ts : List Text)
    → All IsWord (t ∷ ts)
    → trim_start (join (32 ∷ []) (t ∷ ts)) ≡ join (32 ∷ []) (t ∷ ts)
unfolding join
trim_start-join t [] h = trim_start-solid t h.0.1
trim_start-join t (u ∷ us) h = trim_start-append t _ h.0

split_white-solid : (s : Text) → IsSolid s → split_white s ≡ s ∷ []
unfolding split_white
split_white-solid [] h = refl
split_white-solid (c ∷ s) h = rw (h.0, split_white-solid s h.1)

split_white-append :
    (s t : Text) → IsSolid s → split_white (s ++ (32 ∷ t)) ≡ s ∷ start_piece (split_white t)
unfolding split_white
split_white-append [] t h = refl
split_white-append (c ∷ s) t h = rw (h.0, split_white-append s t h.1)

start_word : (t : Text) (ts : List Text) → t ≢ [] → start_piece (t ∷ ts) ≡ t ∷ ts
start_word [] ts h = absurd (h refl)
start_word (c ∷ t) ts h = refl

split_white-join :
    (t : Text) (ts : List Text)
    → All IsWord (t ∷ ts)
    → split_white (join (32 ∷ []) (t ∷ ts)) ≡ t ∷ ts
unfolding join
split_white-join t [] h = split_white-solid t h.0.1
split_white-join t (u ∷ us) h =
    split_white-append t _ h.0.1
    ∙ ap (λ r. t ∷ start_piece r) (split_white-join u us h.1)
    ∙ ap (λ r. t ∷ r) (start_word u us h.1.0.0)

pub split_whitespace-join :
    (t : Text) (ts : List Text)
    → All IsWord (t ∷ ts)
    → split_whitespace (trim (join (32 ∷ []) (t ∷ ts))) ≡ t ∷ ts
unfolding split_whitespace trim
split_whitespace-join t ts h =
    rw (trim_start-join t ts h, trim_end-join t ts h, split_white-join t ts h)
      (start_word t ts h.0.0)
