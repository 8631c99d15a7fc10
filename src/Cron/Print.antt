-- ===== src/Cron/Print.antt =====
-- `format_list` and `parse_field` of crates/peko-core/src/cron.rs.
use peko_agent.Base.{
  ℕ, ◌≤◌, ◌<◌, ◌≡◌, refl, false, List, [], ◌∷◌, ◌++◌, map, All, arith, ap, sym, ◌∙◌, none,
}
use mathlib.Core.List.{append_assoc, append-nil}
use peko_agent.Base.Results.{ok}
use peko_agent.Text.{Text, text, text_eq, strip_prefix, contains_char, is_whitespace, join}
use peko_agent.Text.Number.{
  to_string, to_string-IsNumeral, IsNumeral, is_digit, parse_u32-to_string, u32_mod,
}
use peko_agent.Text.Split.{IsFree, IsSolid, split-join, split-join_plain, trim-solid, trim-space}
use peko_agent.Cron.Values.{sort, dedup}
use peko_agent.Cron.Lists.{IsAscending, dedup-sort-ascending}
use peko_agent.Cron.Describe.{format_list}
use peko_agent.Cron.Field.{
  parse_single, parse_plain, parse_part, parse_parts, check_values, parse_field,
}

pub numeral-IsFree : (sep : ℕ) (s : Text) → is_digit sep ≡ false → IsNumeral s → IsFree sep s
unfolding is_digit
numeral-IsFree sep [] h n = tt
numeral-IsFree sep (c ∷ s) h n = (ground arith, numeral-IsFree sep s h n.1)

pub numeral-IsSolid : (s : Text) → IsNumeral s → IsSolid s
unfolding is_digit is_whitespace
numeral-IsSolid [] n = tt
numeral-IsSolid (c ∷ s) n = (ground arith, numeral-IsSolid s n.1)

numeral-contains : (c : ℕ) (s : Text) → is_digit c ≡ false → IsNumeral s → contains_char c s ≡ false
unfolding contains_char is_digit
numeral-contains c [] h n = refl
numeral-contains c (d ∷ s) h n = ground (arith, numeral-contains c s h n.1)

numeral-star : (s : Text) → IsNumeral s → text_eq s (text "*") ≡ false
unfolding text_eq is_digit
numeral-star [] n = refl
numeral-star (c ∷ s) n = ground arith

numeral-slash : (s : Text) → IsNumeral s → strip_prefix (text "*/") s ≡ none
unfolding strip_prefix is_digit
numeral-slash [] n = refl
numeral-slash (c ∷ s) n = ground arith

module _ (min max : ℕ) (name : Text) (fits : max < u32_mod) where
  abbrev IsInside : ℕ → Type 0
  IsInside v = (min ≤ v) × (v ≤ max)

  parse_part-to_string : (v : ℕ) → IsInside v → parse_part min max name (to_string v) ≡ ok (v ∷ [])
  unfolding parse_part parse_plain parse_single is_digit
  parse_part-to_string v h =
      let n = to_string-IsNumeral v in
      rw
        (
          numeral-star (to_string v) n,
          numeral-slash (to_string v) n,
          numeral-contains b'/' (to_string v) refl n,
          numeral-contains b'-' (to_string v) refl n,
          parse_u32-to_string v (omega arith),
        )
        (ground arith)

  -- The parts of a printed field, read one by one, push the printed values in order.
  parse_parts-padded :
      (us vs : List ℕ)
      → All IsInside vs
      → parse_parts min max name us (map (λ v. 32 ∷ to_string v) vs) ≡ ok (us ++ vs)
  unfolding parse_parts
  parse_parts-padded us [] h = ap ok (sym (append-nil us))
  parse_parts-padded us (v ∷ vs) h =
      rw
        (
          trim-space (to_string v) (numeral-IsSolid (to_string v) (to_string-IsNumeral v)),
          parse_part-to_string v h.0,
        )
        (parse_parts-padded (us ++ v ∷ []) vs h.1 ∙ ap ok (append_assoc us (v ∷ []) vs))

  parse_parts-plain :
      (us vs : List ℕ)
      → All IsInside vs
      → parse_parts min max name us (map to_string vs) ≡ ok (us ++ vs)
  unfolding parse_parts
  parse_parts-plain us [] h = ap ok (sym (append-nil us))
  parse_parts-plain us (v ∷ vs) h =
      rw
        (
          trim-solid (to_string v) (numeral-IsSolid (to_string v) (to_string-IsNumeral v)),
          parse_part-to_string v h.0,
        )
        (parse_parts-plain (us ++ v ∷ []) vs h.1 ∙ ap ok (append_assoc us (v ∷ []) vs))

  check_sorted :
      (v : ℕ) (vs : List ℕ)
      → IsAscending (v ∷ vs)
      → check_values min max name (dedup (sort (v ∷ vs))) ≡ ok (v ∷ vs)
  unfolding check_values
  check_sorted v vs h = rw (dedup-sort-ascending (v ∷ vs) h)

  frees : (sep : ℕ) (vs : List ℕ) → is_digit sep ≡ false → All (IsFree sep) (map to_string vs)
  frees sep [] h = tt
  frees sep (v ∷ vs) h =
      (numeral-IsFree sep (to_string v) h (to_string-IsNumeral v), frees sep vs h)

  pad-map : (vs : List ℕ) → map (λ u. 32 ∷ u) (map to_string vs) ≡ map (λ v. 32 ∷ to_string v) vs
  pad-map [] = refl
  pad-map (v ∷ vs) = ap (λ r. (32 ∷ to_string v) ∷ r) (pad-map vs)

  -- Values in range and in strict order, printed as `describe` lists them, are read back as
  -- themselves.
  pub parse_field-format_list :
      (v : ℕ) (vs : List ℕ)
      → IsAscending (v ∷ vs)
      → All (λ w. (min ≤ w) × (w ≤ max)) (v ∷ vs)
      → parse_field min max name (format_list (v ∷ vs)) ≡ ok (v ∷ vs)
  unfolding parse_field format_list parse_parts is_digit
  parse_field-format_list v vs asc h =
      rw
        (
          split-join b',' 32 (to_string v) (map to_string vs) refl (frees b',' (v ∷ vs) refl),
          pad-map vs,
          trim-solid (to_string v) (numeral-IsSolid (to_string v) (to_string-IsNumeral v)),
          parse_part-to_string v h.0,
          parse_parts-padded (v ∷ []) vs h.1,
        )
        (check_sorted v vs asc)

  -- So does the form without spaces, `1,2,5`.
  pub parse_field-join :
      (v : ℕ) (vs : List ℕ)
      → IsAscending (v ∷ vs)
      → All (λ w. (min ≤ w) × (w ≤ max)) (v ∷ vs)
      → parse_field min max name (join (b',' ∷ []) (map to_string (v ∷ vs))) ≡ ok (v ∷ vs)
  unfolding parse_field is_digit
  parse_field-join v vs asc h =
      rw
        (
          split-join_plain b',' (to_string v) (map to_string vs) (frees b',' (v ∷ vs) refl),
          parse_parts-plain [] (v ∷ vs) h,
        )
        (check_sorted v vs asc)
