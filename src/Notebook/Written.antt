-- ===== src/Notebook/Written.antt =====
-- The links that are written in a text: `parse_wikilinks` of crates/peko-core/src/notebook.rs.
use peko_agent.Base.{
  ℕ, zero, suc, ◌+◌, ◌≤◌, ◌≡◌, ◌≢◌, refl, ap, true, false, some, List, [], ◌∷◌, ◌++◌, ◌==◌, length,
  map, All, length-append, arith,
}
use peko_agent.Text.{Text, text, len_utf8, starts_with, contains, contains_char, is_empty, trim}
use peko_agent.Notebook.Links.{up_to_bar, is_link, close, links_at, parse_wikilinks}

-- A text around links, and the targets of the links.
pub record Piece : Type 0 where
  pub before : Text
  pub target : Text

unfoldable pub written : List Piece → Text → Text
written [] end = end
written (p ∷ ps) end = p.before ++ (91 ∷ 91 ∷ (p.target ++ (93 ∷ 93 ∷ written ps end)))

-- No opening bracket.
abbrev pub IsOutside : Text → Type 0
IsOutside = All (λ c. (91 == c) ≡ false)

-- A target: no bracket, bar or line feed, and not empty.
pub record IsTarget (t : Text) : Type 0 where
  pub full : t ≢ []
  pub no_open : All (λ c. (91 == c) ≡ false) t
  pub no_close : All (λ c. (93 == c) ≡ false) t
  pub no_bar : All (λ c. (c == 124) ≡ false) t
  pub no_line : All (λ c. (10 == c) ≡ false) t

abbrev pub IsPiece : Piece → Type 0
IsPiece p = IsOutside p.before × IsTarget p.target

close-target :
    (t rest : Text)
    → All (λ c. (93 == c) ≡ false) t
    → close (t ++ (93 ∷ 93 ∷ rest)) ≡ some (t, rest)
unfolding close starts_with
close-target [] rest h = refl
close-target (c ∷ t) rest h = rw (h.0, close-target t rest h.1) refl

up_to_bar-target : (t : Text) → All (λ c. (c == 124) ≡ false) t → up_to_bar t ≡ t
unfolding up_to_bar
up_to_bar-target [] h = refl
up_to_bar-target (c ∷ t) h = rw (h.0, up_to_bar-target t h.1) refl

no_line-target : (t : Text) → All (λ c. (10 == c) ≡ false) t → contains_char 10 t ≡ false
unfolding contains_char
no_line-target [] h = refl
no_line-target (c ∷ t) h = rw (h.0, no_line-target t h.1) refl

no_open-target : (t : Text) → All (λ c. (91 == c) ≡ false) t → contains (text "[[") t ≡ false
unfolding contains starts_with
no_open-target [] h = refl
no_open-target (c ∷ t) h = rw (h.0, no_open-target t h.1) refl

is_link-target : (t : Text) → IsTarget t → is_link t ≡ true
unfolding is_link is_empty
is_link-target [] h = absurd (h.full refl)
is_link-target (c ∷ t) h =
    rw (no_line-target (c ∷ t) h.no_line, no_open-target (c ∷ t) h.no_open) refl

abbrev pub targets : List (Text × Text) → List Text
targets ls = map (λ l. l.0) ls

-- The links from any position on, with enough fuel.
abbrev Reads : Text → List Text → Type 0
Reads rest ts =
    (content : Text) (n i : ℕ) → length rest ≤ n → targets (links_at n content i rest) ≡ ts

-- Past a text without an opening bracket.
skip :
    (before rest : Text) (ts : List Text)
    → IsOutside before
    → Reads rest ts
    → Reads (before ++ rest) ts
unfolding links_at starts_with
skip [] rest ts h k content n i l = k content n i l
skip (c ∷ before) rest ts h k content zero i l = absurd (omega (arith, l))
skip (c ∷ before) rest ts h k content (suc n) i l =
    rw (h.0, links_at) (skip before rest ts h.1 k content n (i + len_utf8 c) (omega (arith, l)))

end-Reads : (end : Text) → IsOutside end → Reads end []
unfolding links_at starts_with
end-Reads [] h content zero i l = refl
end-Reads [] h content (suc n) i l = refl
end-Reads (c ∷ end) h content zero i l = absurd (omega (arith, l))
end-Reads (c ∷ end) h content (suc n) i l =
    rw (h.0, links_at) (end-Reads end h.1 content n (i + len_utf8 c) (omega (arith, l)))

link-Reads :
    (t rest : Text) (ts : List Text)
    → IsTarget t
    → Reads rest ts
    → Reads (91 ∷ 91 ∷ (t ++ (93 ∷ 93 ∷ rest))) (trim t ∷ ts)
unfolding links_at starts_with
link-Reads t rest ts h k content zero i l = absurd (omega (arith, l))
link-Reads t rest ts h k content (suc n) i l =
    rw (links_at, close-target t rest h.no_close, is_link-target t h, up_to_bar-target t h.no_bar)
      (ap (λ z. trim t ∷ z) (k content n _ (omega (arith, l, length-append t (93 ∷ 93 ∷ rest)))))

-- The links that are read of a text are those that were written into it, in order, without the
-- white space around them, provided that nothing else of the text has an opening bracket and that
-- no link is empty or has a bracket, a bar or a line feed. The loop reads the whole text within one
-- round for each of its characters.
pub parse_wikilinks-written :
    (ps : List Piece) (end : Text)
    → All IsPiece ps
    → IsOutside end
    → targets (parse_wikilinks (written ps end)) ≡ map (λ p. trim p.target) ps
unfolding parse_wikilinks written
parse_wikilinks-written ps end h e =
    reads ps h (written ps end) (length (written ps end)) 0 (omega arith)
  where
    reads :
        (ps : List Piece) → All IsPiece ps → Reads (written ps end) (map (λ p. trim p.target) ps)
    reads [] h = end-Reads end e
    reads (p ∷ ps) h =
        skip p.before _ _ h.0.0 (link-Reads p.target (written ps end) _ h.0.1 (reads ps h.1))
