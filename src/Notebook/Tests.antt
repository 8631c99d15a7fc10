-- ===== src/Notebook/Tests.antt =====
-- Notes of crates/peko-core/src/notebook.rs, with titles in English and Thai.
use peko_agent.Base.{
  ◌≡◌, ◌≢◌, refl, true, ◌&&◌, none, some, List, [], ◌∷◌, ◌==◌, not, all, All, all-false, leb, arith,
}
use peko_agent.Base.Results.{Result, ok, err}
use peko_agent.Text.{Text, text, text_eq, trim}
use peko_agent.Notebook.{Note, BrainStore, empty_store, get, save}
use peko_agent.Notebook.Slug.{Unicode, is_separator, slugify}
use peko_agent.Notebook.Form.{IsSlug, IsTable, slugify-IsSlug}
use peko_agent.Notebook.Kept.{IsWellFormed, opened, saved, Reach-IsWellFormed}
use peko_agent.Notebook.Links.{parse_wikilinks}
use peko_agent.Notebook.Saved.{IsTag, Holds, save-get}
use peko_agent.Notebook.Written.{Piece, IsTarget, written, targets, parse_wikilinks-written}

-- The consonants of Thai, which have no case.
abbrev pub thai : Unicode
thai = record { alphanumeric = λ c. leb 0xe01 c && leb c 0xe2e; lowercase = λ c. c ∷ [] }

pub thai-IsTable : IsTable thai
unfolding is_separator
thai-IsTable c h = ((λ e. cc), (ground arith, tt))

slug_test : slugify thai (text "  C++: กก & More--") ≡ text "c-กก-more"
unfolding slugify
slug_test = refl

slugify-IsSlug_example : IsSlug (slugify thai (text "Plan: กก, then reply!"))
slugify-IsSlug_example = slugify-IsSlug thai thai-IsTable (text "Plan: กก, then reply!")

abbrev pub stored : Result (Note × BrainStore) Text → BrainStore
stored (ok r) = r.1
stored (err e) = empty_store

abbrev pub after_first : BrainStore
after_first = stored (
    save thai (text "1") (text "2026-01-01T08:00") (text "Milk") (text "see [[Shop list]]") none
      (text "home" ∷ []) empty_store)

-- The second note has the slug of the first.
abbrev after_second : BrainStore
after_second = stored (
    save thai (text "2") (text "2026-01-02T08:00") (text "milk?") (text "none left") none
      (text "home" ∷ text "todo" ∷ []) after_first)

abbrev second_note : Note
second_note = record {
  id = text "1";
  slug = text "milk";
  title = text "milk?";
  content = text "none left";
  kind = text "note";
  tags = text "home" ∷ text "todo" ∷ [];
  created_at = text "2026-01-02T08:00";
  updated_at = text "2026-01-02T08:00";
}

home_tags : All IsTag (text "home" ∷ text "todo" ∷ [])
home_tags = (
  ((λ e. cc), all-false (λ c. c == 44) (text "home") refl),
  (((λ e. cc), all-false (λ c. c == 44) (text "todo") refl), tt),
)

save-get_example :
    (second_note.slug ≡ slugify thai (text "milk?"))
    × (slugify thai (text "milk?") ≢ [])
    × (m : Note) × (get (slugify thai (text "milk?")) after_second ≡ some m)
    × Holds m
        (slugify thai (text "milk?"))
        (text "milk?")
        (text "none left")
        (text "note")
        (text "home" ∷ text "todo" ∷ [])
        (text "2026-01-02T08:00")
unfolding save text_eq
save-get_example =
    save-get thai (text "2") (text "2026-01-02T08:00") (text "milk?") (text "none left") none
      (text "home" ∷ text "todo" ∷ []) after_first {n = second_note} {t = after_second} refl
      (refl, tt) home_tags

Reach-IsWellFormed_example : IsWellFormed thai after_first
unfolding save
Reach-IsWellFormed_example = Reach-IsWellFormed thai (
    saved {n = _} (text "1") (text "2026-01-01T08:00") (text "Milk") (text "see [[Shop list]]") none
      (text "home" ∷ []) opened tt refl)

abbrev note_pieces : List Piece
note_pieces =
    record { before = text "see "; target = text " Shop list " }
    ∷ record { before = text " or "; target = text "กก" }
    ∷ []

-- A target, by tests of its characters.
plain-IsTarget :
    (t : Text)
    → t ≢ []
    → all (λ c. not (91 == c)) t ≡ true
    → all (λ c. not (93 == c)) t ≡ true
    → all (λ c. not (c == 124)) t ≡ true
    → all (λ c. not (10 == c)) t ≡ true
    → IsTarget t
plain-IsTarget t ne o c b l = record {
  full = ne;
  no_open = all-false (λ c. 91 == c) t o;
  no_close = all-false (λ c. 93 == c) t c;
  no_bar = all-false (λ c. c == 124) t b;
  no_line = all-false (λ c. 10 == c) t l;
}

parse_wikilinks-written_example :
    targets (parse_wikilinks (written note_pieces (text "."))) ≡ text "Shop list" ∷ text "กก" ∷ []
unfolding trim
parse_wikilinks-written_example =
    parse_wikilinks-written note_pieces (text ".")
      (
        (
          all-false (λ c. 91 == c) (text "see ") refl,
          plain-IsTarget (text " Shop list ") (λ e. cc) refl refl refl refl,
        ),
        (
          (
            all-false (λ c. 91 == c) (text " or ") refl,
            plain-IsTarget (text "กก") (λ e. cc) refl refl refl refl,
          ),
          tt,
        ),
      )
      (refl, tt)
