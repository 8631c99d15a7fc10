-- ===== src/Notebook.antt =====
-- crates/peko-core/src/notebook.rs: the notes of the second brain, the links between them, and the
-- markdown files that they are exported to. The tables are lists of rows, in the order in which they
-- were inserted; a new row's id and the time of an operation are arguments.
pub mod Slug
pub mod Links
pub mod Dashes
pub mod Form
pub mod Found
pub mod Saved
pub mod Begun
pub mod Rows
pub mod Kept
pub mod Written
pub mod Tests
use peko_agent.Base.{
  ℕ, ◌+◌, Bool, true, false, not, ◌&&◌, ◌||◌, Option, none, some, List, [], ◌∷◌, ◌++◌, any, keep_if,
  length, map, ◌==◌, if◌then◌else◌,
}
use mathlib.Core.Option
use peko_agent.Base.Results.{Result, ok, err}
use peko_agent.Text.{Text, text, text_eq, is_empty, join, contains_char}
use peko_agent.Text.Split.{split}
use peko_agent.Notebook.Slug.{Unicode, slugify}
use peko_agent.Notebook.Links.{parse_wikilinks}

pub record Note : Type 0 where
  pub id : Text
  pub slug : Text
  pub title : Text
  pub content : Text
  pub kind : Text
  pub tags : List Text
  pub created_at : Text
  pub updated_at : Text

-- A row of the table `notes`: its tags are one text. Nothing writes the columns of embeddings.
pub record Row : Type 0 where
  pub id : Text
  pub slug : Text
  pub title : Text
  pub content : Text
  pub kind : Text
  pub tags_str : Text
  pub created_at : Text
  pub updated_at : Text

-- A row of the table `note_links`, without its time, which nothing reads.
pub record Link : Type 0 where
  pub source_id : Text
  pub target_slug : Text
  pub context : Text

pub record BrainStore : Type 0 where
  pub notes : List Row
  pub links : List Link
  -- The contents of the directory, by the names of the files without their extension.
  pub files : List (Text × Text)

abbrev pub empty_store : BrainStore
empty_store = record { notes = []; links = []; files = [] }

unfoldable pub row_to_note : Row → Note
row_to_note r = record {
  id = r.id;
  slug = r.slug;
  title = r.title;
  content = r.content;
  kind = r.kind;
  tags = keep_if (λ t. not (is_empty t)) (split 44 r.tags_str);
  created_at = r.created_at;
  updated_at = r.updated_at;
}

-- The first row that a test finds.
unfoldable pub find_row : (Row → Bool) → List Row → Option Row
find_row p [] = none
find_row p (r ∷ rs) = let rest = find_row p rs in if p r then some r else rest

unfoldable pub update_rows : (Row → Bool) → (Row → Row) → List Row → List Row
update_rows p f [] = []
update_rows p f (r ∷ rs) = (if p r then f r else r) ∷ update_rows p f rs

abbrev pub has_id : Text → Row → Bool
has_id id r = text_eq r.id id

abbrev pub has_slug : Text → Row → Bool
has_slug slug r = text_eq r.slug slug

abbrev pub is_named : Text → Row → Bool
is_named name r = has_id name r || has_slug name r

unfoldable pub get : Text → BrainStore → Option Note
unfolding find_row row_to_note
get name s = Option.map row_to_note (find_row (is_named name) s.notes)

-- The upsert by slug, with the row that has it: the id, and the rows. An old row keeps its id and
-- creation time.
abbrev pub upsert_at :
    (new_id slug title content kind tags_str now : Text) → Option Row → List Row → Text × List Row
upsert_at new_id slug title content kind tags_str now none rs = (
  new_id,
  rs
      ++ (record {
        id = new_id;
        slug = slug;
        title = title;
        content = content;
        kind = kind;
        tags_str = tags_str;
        created_at = now;
        updated_at = now;
      }
          ∷ []),
)
upsert_at new_id slug title content kind tags_str now (some old) rs = (
  old.id,
  update_rows (has_id old.id)
      (λ r. record r {
        title = title;
        content = content;
        kind = kind;
        tags_str = tags_str;
        updated_at = now;
      })
      rs,
)

unfoldable pub upsert :
    (new_id slug title content kind tags_str now : Text) → List Row → Text × List Row
unfolding find_row update_rows
upsert new_id slug title content kind tags_str now rs =
    upsert_at new_id slug title content kind tags_str now (find_row (has_slug slug) rs) rs

-- `INSERT OR IGNORE`: the key of a link is its source and its target.
abbrev pub same_key : Link → Link → Bool
same_key l k = text_eq l.source_id k.source_id && text_eq l.target_slug k.target_slug

abbrev pub insert_link : Link → List Link → List Link
insert_link l ls = if any (same_key l) ls then ls else ls ++ (l ∷ [])

unfoldable pub insert_links : Unicode → Text → List (Text × Text) → List Link → List Link
unfolding slugify
insert_links u id [] ls = ls
insert_links u id ((target, ctx) ∷ ts) ls = insert_links u id ts (
    if is_empty (slugify u target)
    then ls
    else insert_link (record { source_id = id; target_slug = slugify u target; context = ctx }) ls)

unfoldable pub refreshed : Unicode → Text → Text → List Link → List Link
unfolding insert_links parse_wikilinks
refreshed u id content ls =
    insert_links u id (parse_wikilinks content) (keep_if (λ l. not (text_eq l.source_id id)) ls)

-- `replace` of the backslash and of the double quote, each by itself after a backslash.
unfoldable pub escape : Text → Text
escape [] = []
escape (c ∷ s) = if c == 92 || c == 34 then 92 ∷ c ∷ escape s else c ∷ escape s

unfoldable pub yaml_escape : Text → Text
unfolding escape
yaml_escape s =
    if contains_char 58 s || contains_char 34 s || contains_char 10 s || contains_char 39 s
    then 34 ∷ (escape s ++ (34 ∷ []))
    else s

unfoldable pub created_at_for : Text → List Row → Option Text
unfolding find_row
created_at_for id rs = elim (find_row (has_id id) rs) [ none ↦ none | some r ↦ some r.created_at ]

abbrev pub or_now : Text → Option Text → Text
or_now now none = now
or_now now (some t) = t

unfoldable pub frontmatter : Note → Text → Text
unfolding yaml_escape
frontmatter n created =
    text "---\nid: "
    ++ (n.id
        ++ (text "\ntitle: "
            ++ (yaml_escape n.title
                ++ (text "\nslug: "
                    ++ (n.slug
                        ++ (text "\nkind: "
                            ++ (n.kind
                                ++ (text "\ntags: ["
                                    ++ (join (text ", ") (map yaml_escape n.tags)
                                        ++ (text "]\ncreated_at: "
                                            ++ (created
                                                ++ (text "\nupdated_at: "
                                                    ++ (n.updated_at
                                                        ++ text "\n---\n\n")))))))))))))

abbrev pub set_file : Text → Text → List (Text × Text) → List (Text × Text)
set_file name t fs = (name, t) ∷ keep_if (λ f. not (text_eq f.0 name)) fs

-- The note that a save returns: its creation time is the time of the save.
abbrev pub saved_note : Text → Text → Text → Text → Text → List Text → Text → Note
saved_note id slug title content kind tags now = record {
  id = id;
  slug = slug;
  title = title;
  content = content;
  kind = kind;
  tags = tags;
  created_at = now;
  updated_at = now;
}

abbrev pub kind_or_note : Option Text → Text
kind_or_note none = text "note"
kind_or_note (some k) = k

abbrev pub written : Unicode → Note → Text × List Row → BrainStore → BrainStore
written u n (id, rows) s = record {
  notes = rows;
  links = refreshed u id n.content s.links;
  files =
      set_file n.slug (frontmatter n (or_now n.updated_at (created_at_for id rows)) ++ n.content)
        s.files;
}

unfoldable pub save :
    Unicode
    → (new_id now : Text) → (title content : Text) → Option Text
    → List Text
    → BrainStore
    → Result (Note × BrainStore) Text
unfolding slugify upsert refreshed frontmatter created_at_for
save u new_id now title content kind tags s =
    let slug = slugify u title in
    let rows =
      upsert new_id slug title content (kind_or_note kind) (join (text ",") tags) now s.notes in
    let n = saved_note rows.0 slug title content (kind_or_note kind) tags now in
    if is_empty slug
    then err (text "title produced empty slug: '" ++ (title ++ text "'"))
    else ok (n, written u n rows s)

abbrev pub delete_row : Option Row → BrainStore → BrainStore × Bool
delete_row none s = (s, false)
delete_row (some r) s = (
  record {
    notes = keep_if (λ q. not (text_eq q.id r.id)) s.notes;
    links = keep_if (λ l. not (text_eq l.source_id r.id)) s.links;
    files = keep_if (λ f. not (text_eq f.0 r.slug)) s.files;
  },
  true,
)

unfoldable pub delete : Text → BrainStore → BrainStore × Bool
unfolding find_row
delete name s = delete_row (find_row (is_named name) s.notes) s
