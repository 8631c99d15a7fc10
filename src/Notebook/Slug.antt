-- ===== src/Notebook/Slug.antt =====
-- `slugify` of crates/peko-core/src/notebook.rs: the name of a note's file and of the links to it.
-- The tables of Unicode for the characters beyond ASCII are the record `Unicode`.
use peko_agent.Base.{
  ℕ, ◌+◌, Bool, true, false, not, ◌&&◌, ◌||◌, [], ◌∷◌, ◌++◌, ltb, leb, ◌==◌, length, take,
  if◌then◌else◌,
}
use peko_agent.Text.{Text, is_empty, is_whitespace}

-- The standard library's `is_alphanumeric` and `to_lowercase` beyond ASCII.
pub record Unicode : Type 0 where
  pub alphanumeric : ℕ → Bool
  pub lowercase : ℕ → Text

abbrev pub is_upper : ℕ → Bool
is_upper c = leb 65 c && leb c 90

-- `char::is_alphanumeric`
unfoldable pub is_alphanumeric : Unicode → ℕ → Bool
is_alphanumeric u c =
    if ltb c 128
    then leb 48 c && leb c 57 || is_upper c || leb 97 c && leb c 122
    else u.alphanumeric c

-- `char::to_lowercase`
unfoldable pub to_lowercase : Unicode → ℕ → Text
to_lowercase u c = if ltb c 128 then (if is_upper c then c + 32 else c) ∷ [] else u.lowercase c

-- `char::is_ascii_punctuation`
unfoldable pub is_ascii_punctuation : ℕ → Bool
is_ascii_punctuation c =
    leb 33 c && leb c 47 || leb 58 c && leb c 64 || leb 91 c && leb c 96 || leb 123 c && leb c 126

-- The dash and the underscore are punctuation too; the source names them all.
unfoldable pub is_separator : ℕ → Bool
unfolding is_whitespace is_ascii_punctuation
is_separator c = is_whitespace c || c == 45 || c == 95 || is_ascii_punctuation c

-- The variables of the loop.
pub record Slugging : Type 0 where
  pub out : Text
  pub last_was_dash : Bool

unfoldable pub on_char : Unicode → Slugging → ℕ → Slugging
unfolding is_alphanumeric to_lowercase is_separator is_empty
on_char u s c =
    if is_alphanumeric u c
    then record { out = s.out ++ to_lowercase u c; last_was_dash = false }
    else if is_separator c && not s.last_was_dash && not (is_empty s.out)
    then record { out = s.out ++ (45 ∷ []); last_was_dash = true }
    else s

unfoldable pub on_chars : Unicode → Slugging → Text → Slugging
unfolding on_char
on_chars u s [] = s
on_chars u s (c ∷ t) = on_chars u (on_char u s c) t

-- `while out.ends_with('-') { out.pop(); }`: a dash goes if only dashes follow it.
abbrev pub cons_popped : ℕ → Text → Text
cons_popped c [] = if c == 45 then [] else c ∷ []
cons_popped c (d ∷ s) = c ∷ d ∷ s

unfoldable pub pop_dashes : Text → Text
pop_dashes [] = []
pop_dashes (c ∷ s) = cons_popped c (pop_dashes s)

abbrev pub max_slug : ℕ
max_slug = 80

unfoldable pub capped : Text → Text
unfolding pop_dashes
capped out = if ltb max_slug (length out) then pop_dashes (take max_slug out) else out

unfoldable pub slugify : Unicode → Text → Text
unfolding on_chars pop_dashes capped
slugify u title =
    capped (pop_dashes (on_chars u (record { out = []; last_was_dash = true }) title).out)
