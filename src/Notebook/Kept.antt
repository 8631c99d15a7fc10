-- ===== src/Notebook/Kept.antt =====
-- The store of crates/peko-core/src/notebook.rs over its operations: names, ids and links.
use peko_agent.Base.{
  ◌≡◌, ◌≢◌, inl, inr, refl, sym, ◌∙◌, subst, Bool, true, false, not, Option, none, some, List, [],
  ◌∷◌, ◌++◌, any, keep_if, All, All-append, All-map, Option-cases, if◌then◌else◌,
}
use peko_agent.Base.Results.{ok, guard-eq-ok, ok-injective}
use peko_agent.Text.{Text, text, text_eq, is_empty, join}
use peko_agent.Text.Equality.{text_eq_refl, text_eq_iff}
use peko_agent.Notebook.{
  Note, Row, Link, BrainStore, empty_store, find_row, has_id, has_slug, is_named, upsert, upsert_at,
  same_key, insert_links, refreshed, kind_or_note, save, delete, delete_row,
}
use peko_agent.Notebook.Slug.{Unicode, slugify}
use peko_agent.Notebook.Links.{parse_wikilinks}
use peko_agent.Notebook.Found.{find_row-holds}
use peko_agent.Notebook.Rows.{
  AllApart, none-All, unique, updated-All, updated-AllApart, updated-any, All-keep_if,
  kept-AllApart, appended-AllApart, any-append, any-last, any-keep, any-found,
}

-- Some row has the link's source for its id.
abbrev pub HasSource : List Row → Link → Type 0
HasSource rs l = any (λ r. text_eq r.id l.source_id) rs ≡ true

pub record IsWellFormed (u : Unicode) (s : BrainStore) : Type 0 where
  pub named : All (λ r. (r.slug ≡ slugify u r.title) × (r.slug ≢ [])) s.notes
  pub apart : AllApart s.notes
  pub sourced : All (HasSource s.notes) s.links

-- The saves and deletions that lead to a store. The id of a new row is a fresh one.
pub data Reach (u : Unicode) : BrainStore → Type 0 where
  opened : Reach u empty_store
  saved :
      {s t : BrainStore} {n : Note} (new_id now title content : Text) (kind : Option Text)
      (tags : List Text)
      → Reach u s
      → All (λ r. text_eq r.id new_id ≡ false) s.notes
      → save u new_id now title content kind tags s ≡ ok (n, t)
      → Reach u t
  deleted : {s : BrainStore} (name : Text) → Reach u s → Reach u (delete name s).0

abbrev IsNamed : Unicode → Row → Type 0
IsNamed u r = (r.slug ≡ slugify u r.title) × (r.slug ≢ [])

inserted-All :
    (P : Link → Type 0) (u : Unicode) (id : Text) (ts : List (Text × Text)) (ls : List Link)
    → ((slug ctx : Text) → P (record { source_id = id; target_slug = slug; context = ctx }))
    → All P ls
    → All P (insert_links u id ts ls)
unfolding insert_links
inserted-All P u id [] ls k h = h
inserted-All P u id ((target, ctx) ∷ ts) ls k h =
    inserted-All P u id ts _ k (one (is_empty (slugify u target)) (any (same_key new) ls))
  where
    new : Link
    new = record { source_id = id; target_slug = slugify u target; context = ctx }

    one : (a b : Bool) → All P (if a then ls else if b then ls else ls ++ (new ∷ []))
    one true b = h
    one false true = h
    one false false = All-append P ls (new ∷ []) h (k (slugify u target) ctx, tt)

both-All : (P Q : Row → Type 0) (rs : List Row) → All P rs → All Q rs → All (λ r. P r × Q r) rs
both-All P Q [] h k = tt
both-All P Q (r ∷ rs) h k = ((h.0, k.0), both-All P Q rs h.1 k.1)

-- The rows after an upsert.
record IsUpserted (u : Unicode) (rs : List Row) (r : Text × List Row) : Type 0 where
  named : All (IsNamed u) r.1
  apart : AllApart r.1
  has_id : any (λ q. text_eq q.id r.0) r.1 ≡ true
  sources :
      (id : Text) → any (λ q. text_eq q.id id) rs ≡ true → any (λ q. text_eq q.id id) r.1 ≡ true

module _ (u : Unicode) (new_id title content kind tags_str now : Text) where
  upserted :
      (rs : List Row)
      → slugify u title ≢ []
      → All (IsNamed u) rs
      → AllApart rs
      → All (λ r. text_eq r.id new_id ≡ false) rs
      → IsUpserted u rs (upsert new_id (slugify u title) title content kind tags_str now rs)
  unfolding upsert
  upserted rs ne named apart fresh =
      elim (Option-cases (find_row (has_slug (slugify u title)) rs)) [
        | inl e ↦ through e (new_row e)
        | inr (old, e) ↦ through e (old_row old e)
      ]
    where
      through :
          {o : Option Row}
          → find_row (has_slug (slugify u title)) rs ≡ o
          → IsUpserted u rs
              (upsert_at new_id (slugify u title) title content kind tags_str now o rs)
          → IsUpserted u rs (upsert new_id (slugify u title) title content kind tags_str now rs)
      through e h =
          subst
            (λ z.
              IsUpserted u rs
                (upsert_at new_id (slugify u title) title content kind tags_str now z rs))
            (sym e) h

      new_row :
          find_row (has_slug (slugify u title)) rs ≡ none
          → IsUpserted u rs
              (upsert_at new_id (slugify u title) title content kind tags_str now none rs)
      new_row e = record {
        named = All-append (IsNamed u) rs _ named ((refl, ne), tt);
        apart = appended-AllApart rs _ apart (
            both-All (λ r. text_eq r.id new_id ≡ false)
              (λ r. text_eq r.slug (slugify u title) ≡ false) rs fresh
              (none-All (has_slug (slugify u title)) rs e));
        has_id = any-last (λ q. text_eq q.id new_id) rs _ (text_eq_refl new_id);
        sources = λ id. any-append (λ q. text_eq q.id id) rs _;
      }

      old_row :
          (old : Row)
          → find_row (has_slug (slugify u title)) rs ≡ some old
          → IsUpserted u rs
              (upsert_at new_id (slugify u title) title content kind tags_str now (some old) rs)
      old_row old e = record {
        named =
            updated-All (has_id old.id) title content kind tags_str now (IsNamed u)
              (λ r. text_eq r.id old.id ≡ true → r.slug ≡ old.slug) rs
              (λ r q h k. (
                q k
                    ∙ (text_eq_iff old.slug (slugify u title)).0
                        (find_row-holds (has_slug (slugify u title)) rs e),
                h.1,
              ))
              (unique (has_slug (slugify u title)) rs apart e) named;
        apart = updated-AllApart (has_id old.id) title content kind tags_str now rs apart;
        has_id =
            updated-any (has_id old.id) title content kind tags_str now old.id rs
            ∙ any-found (λ q. text_eq q.id old.id) (has_slug (slugify u title)) rs e
                (text_eq_refl old.id);
        sources = λ id h. updated-any (has_id old.id) title content kind tags_str now id rs ∙ h;
      }

kept_links :
    (rs qs : List Row) (ls : List Link)
    → ((id : Text) → any (λ q. text_eq q.id id) rs ≡ true → any (λ q. text_eq q.id id) qs ≡ true)
    → (k : Link → Bool) → All (HasSource rs) ls
    → All (HasSource qs) (keep_if k ls)
kept_links rs qs ls f k h =
    All-map (λ l. HasSource rs l × (k l ≡ true)) (HasSource qs) (keep_if k ls)
      (λ l e. f l.source_id e.0) (All-keep_if (HasSource rs) k ls h)

refreshed-All :
    (u : Unicode) (id content : Text) (rs qs : List Row) (ls : List Link)
    → ((z : Text) → any (λ q. text_eq q.id z) rs ≡ true → any (λ q. text_eq q.id z) qs ≡ true)
    → any (λ q. text_eq q.id id) qs ≡ true
    → All (HasSource rs) ls
    → All (HasSource qs) (refreshed u id content ls)
unfolding refreshed
refreshed-All u id content rs qs ls f has h =
    inserted-All (HasSource qs) u id (parse_wikilinks content) _ (λ slug ctx. has)
      (kept_links rs qs ls f (λ l. not (text_eq l.source_id id)) h)

save-IsWellFormed :
    (u : Unicode) (new_id now title content : Text) (kind : Option Text) (tags : List Text)
    {s t : BrainStore} {n : Note}
    → IsWellFormed u s
    → All (λ r. text_eq r.id new_id ≡ false) s.notes
    → save u new_id now title content kind tags s ≡ ok (n, t)
    → IsWellFormed u t
unfolding save
save-IsWellFormed u new_id now title content kind tags {s} {t} h fresh e =
    let (b, same) = guard-eq-ok (is_empty (slugify u title)) _ _ e in
    let up =
      upserted u new_id title content (kind_or_note kind) (join (text ",") tags) now s.notes
        (nonempty (slugify u title) b) h.named h.apart fresh in
    subst (λ z. IsWellFormed u z.1) (ok-injective same)
      (record {
        named = up.named;
        apart = up.apart;
        sourced = refreshed-All u _ content s.notes _ s.links up.sources up.has_id h.sourced;
      })
  where
    nonempty : (x : Text) → is_empty x ≡ false → x ≢ []
    nonempty x b z = true-false (subst (λ y. is_empty y ≡ false) z b)
      where
        true-false : true ≢ false
        true-false w = cc

delete-IsWellFormed :
    (u : Unicode) (name : Text) (s : BrainStore)
    → IsWellFormed u s
    → IsWellFormed u (delete name s).0
unfolding delete
delete-IsWellFormed u name s h = without (find_row (is_named name) s.notes)
  where
    without : (o : Option Row) → IsWellFormed u (delete_row o s).0
    without none = h
    without (some r) =
        let k = (λ (q : Row). not (text_eq q.id r.id)) in
        record {
          named =
              All-map (λ q. IsNamed u q × (k q ≡ true)) (IsNamed u) (keep_if k s.notes) (λ q z. z.0)
                (All-keep_if (IsNamed u) k s.notes h.named);
          apart = kept-AllApart k s.notes h.apart;
          sourced =
              All-map (λ l. HasSource s.notes l × (not (text_eq l.source_id r.id) ≡ true))
                (HasSource (keep_if k s.notes)) _
                (λ l z.
                  any-keep (λ q. text_eq q.id l.source_id) k s.notes
                    (λ q e.
                      subst (λ y. not (text_eq y r.id) ≡ true)
                        (sym ((text_eq_iff q.id l.source_id).0 e)) z.1)
                    z.0)
                (All-keep_if (HasSource s.notes) (λ l. not (text_eq l.source_id r.id)) s.links
                  h.sourced);
        }

-- In every store that saves and deletions lead to from the empty one, when each new row's id is a
-- fresh one: every note has a slug, that of its title, no two notes have the same slug or the same
-- id, and every link comes from a note in the store.
pub Reach-IsWellFormed : (u : Unicode) {s : BrainStore} → Reach u s → IsWellFormed u s
Reach-IsWellFormed u opened = record { named = tt; apart = tt; sourced = tt }
Reach-IsWellFormed u (saved new_id now title content kind tags r fresh e) =
    save-IsWellFormed u new_id now title content kind tags (Reach-IsWellFormed u r) fresh e
Reach-IsWellFormed u (deleted {s} name r) = delete-IsWellFormed u name s (Reach-IsWellFormed u r)
