-- ===== src/Notebook/Links.antt =====
-- `parse_wikilinks` of crates/peko-core/src/notebook.rs. The source scans bytes; the brackets that it
-- looks for are ASCII, so that the scan over characters stops at the same places. Positions are bytes.
use peko_agent.Base.{
  ℕ, zero, suc, ◌+◌, ◌-◌, Bool, true, false, not, ◌&&◌, Option, none, some, List, [], ◌∷◌, ltb,
  ◌==◌, drop, length, map, min, if◌then◌else◌,
}
use mathlib.Core.Option
use peko_agent.Text.{
  Text, text, len, len_utf8, starts_with, contains, contains_char, is_empty, trim, slice_to,
}

-- `&bytes[n..]`, if the position is no inside of a character.
unfoldable pub slice_from : ℕ → Text → Option Text
slice_from n [] = if n == 0 then some [] else none
slice_from n (c ∷ s) =
    let rest = slice_from (n - len_utf8 c) s in
    if n == 0 then some (c ∷ s) else if ltb n (len_utf8 c) then none else rest

abbrev pub or_nothing : Option Text → Text
or_nothing none = []
or_nothing (some t) = t

-- `replace('\n', " ")`
abbrev pub spaced : ℕ → ℕ
spaced c = if c == 10 then 32 else c

-- The text around a link whose target starts and ends at these bytes.
unfoldable pub context : Text → ℕ → ℕ → Text
unfolding slice_from
context content start end =
    let ctx_start = start - 40 in
    let ctx_end = min (end + 2 + 40) (len content) in
    map spaced
      (or_nothing (Option.bind (slice_from ctx_start content) (slice_to (ctx_end - ctx_start))))

-- What stands in front of a bar.
unfoldable pub up_to_bar : Text → Text
up_to_bar [] = []
up_to_bar (c ∷ s) = if c == 124 then [] else c ∷ up_to_bar s

unfoldable pub is_link : Text → Bool
is_link link = not (contains_char 10 link) && not (contains (text "[[") link) && not (is_empty link)

-- What stands in front of the first `]]`, and what stands behind it.
unfoldable pub close : Text → Option (Text × Text)
close [] = none
close (c ∷ s) =
    let rest = close s in
    if starts_with (text "]]") (c ∷ s)
    then some ([], drop 1 s)
    else Option.map (λ r. (c ∷ r.0, r.1)) rest

abbrev pub push_link : Text → ℕ → Text → List (Text × Text) → List (Text × Text)
push_link content start link ls =
    if is_link link
    then (trim (up_to_bar link), context content start (start + len link)) ∷ ls
    else ls

-- A position that is past a character that opens no link, or past a link. One unit of fuel is one
-- round of the loop.
unfoldable pub links_at : ℕ → Text → ℕ → Text → List (Text × Text)
unfolding up_to_bar is_link close context
links_at zero content i rest = []
links_at (suc n) content i [] = []
links_at (suc n) content i (c ∷ s) = elim (starts_with (text "[[") (c ∷ s)) [
  | false ↦ links_at n content (i + len_utf8 c) s
  | true ↦ elim (close (drop 1 s)) [
    | none ↦ links_at n content (i + len_utf8 c) s
    | some r ↦ push_link content (i + 2) r.0 (links_at n content (i + 2 + len r.0 + 2) r.1)
  ]
]

unfoldable pub parse_wikilinks : Text → List (Text × Text)
unfolding links_at
parse_wikilinks content = links_at (length content) content 0 content
