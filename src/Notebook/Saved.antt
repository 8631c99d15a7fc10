-- ===== src/Notebook/Saved.antt =====
-- What a save of crates/peko-core/src/notebook.rs leaves in the store.
use peko_agent.Base.{
  ◌≡◌, ◌≢◌, inl, inr, refl, sym, ap, subst, Bool, true, false, not, Option, some, List, [], ◌∷◌,
  keep_if, All, All-map, Option-cases, if◌then◌else◌,
}
use mathlib.Core.Option
use peko_agent.Base.Results.{ok, err, guard-eq-ok, ok-injective}
use peko_agent.Text.{Text, text, is_empty, join}
use peko_agent.Text.Equality.{text_eq_iff}
use peko_agent.Text.Split.{split, IsFree, split-join_plain}
use peko_agent.Notebook.{
  Note, Row, BrainStore, row_to_note, find_row, has_slug, is_named, get, upsert, upsert_at,
  kind_or_note, save,
}
use peko_agent.Notebook.Slug.{Unicode, slugify}
use peko_agent.Notebook.Found.{NoId, find-updated, find-appended, find_row-holds}

-- A tag that a note's row keeps.
abbrev pub IsTag : Text → Type 0
IsTag t = (t ≢ []) × IsFree 44 t

keeps_full : (ts : List Text) → All IsTag ts → keep_if (λ t. not (is_empty t)) ts ≡ ts
unfolding is_empty
keeps_full [] h = refl
keeps_full ([] ∷ ts) h = absurd (h.0.0 refl)
keeps_full ((c ∷ t) ∷ ts) h = ap (λ z. (c ∷ t) ∷ z) (keeps_full ts h.1)

kept_tags :
    (ts : List Text)
    → All IsTag ts
    → keep_if (λ t. not (is_empty t)) (split 44 (join (text ",") ts)) ≡ ts
unfolding split join is_empty
kept_tags [] h = refl
kept_tags (t ∷ ts) h =
    rw (split-join_plain 44 t ts (All-map IsTag (IsFree 44) (t ∷ ts) (λ x k. k.1) h))
      (keeps_full (t ∷ ts) h)

-- The note that is found has what was saved.
pub record Holds (n : Note) (slug title content kind : Text) (tags : List Text) (now : Text)
    : Type 0 where
  pub slug_kept : n.slug ≡ slug
  pub title_kept : n.title ≡ title
  pub content_kept : n.content ≡ content
  pub kind_kept : n.kind ≡ kind
  pub tags_kept : n.tags ≡ tags
  pub time_kept : n.updated_at ≡ now

module _ (new_id slug title content kind : Text) (tags : List Text) (now : Text) where
  abbrev changed : Row → Row
  changed r = record r {
    title = title;
    content = content;
    kind = kind;
    tags_str = join (text ",") tags;
    updated_at = now;
  }

  abbrev added : Row
  added = record {
    id = new_id;
    slug = slug;
    title = title;
    content = content;
    kind = kind;
    tags_str = join (text ",") tags;
    created_at = now;
    updated_at = now;
  }

  upserted :
      (rs : List Row)
      → NoId slug rs
      → All IsTag tags
      → (r : Row) × (find_row
            (is_named slug)
            (upsert new_id slug title content kind (join (text ",") tags) now rs).1
          ≡ some r)
        × Holds (row_to_note r) slug title content kind tags now
  unfolding upsert row_to_note
  upserted rs free full = elim (Option-cases (find_row (has_slug slug) rs)) [
    | inl e ↦ (
      added,
      through e (find-appended slug rs added free e refl),
      record {
        slug_kept = refl;
        title_kept = refl;
        content_kept = refl;
        kind_kept = refl;
        tags_kept = kept_tags tags full;
        time_kept = refl;
      },
    )
    | inr (old, e) ↦ (
      changed old,
      through e (
          find-updated slug changed rs (record { same_id = λ r. refl; same_slug = λ r. refl }) free
            e),
      record {
        slug_kept = (text_eq_iff old.slug slug).0 (find_row-holds (has_slug slug) rs e);
        title_kept = refl;
        content_kept = refl;
        kind_kept = refl;
        tags_kept = kept_tags tags full;
        time_kept = refl;
      },
    )
  ]
    where
      through :
          {o : Option Row} {r : Row}
          → find_row (has_slug slug) rs ≡ o
          → find_row
              (is_named slug)
              (upsert_at new_id slug title content kind (join (text ",") tags) now o rs).1
            ≡ some r
          → find_row
              (is_named slug)
              (upsert new_id slug title content kind (join (text ",") tags) now rs).1
            ≡ some r
      through {o} {r} e h =
          subst
            (λ z.
              find_row (is_named slug)
                (upsert_at new_id slug title content kind (join (text ",") tags) now z rs).1
              ≡ some r)
            (sym e) h

-- A save that succeeds returns the slug of its title, and the note that the store then has under
-- this slug is the one that was saved: its title, content, kind and tags, and the time of the save.
-- This holds whether the note is new or there was one with the same slug, provided that no note's
-- id is the slug and no tag is empty or has a comma.
pub save-get :
    (u : Unicode) (new_id now title content : Text) (k : Option Text) (tags : List Text)
    (s : BrainStore) {n : Note} {t : BrainStore}
    → save u new_id now title content k tags s ≡ ok (n, t)
    → NoId (slugify u title) s.notes
    → All IsTag tags
    → (n.slug ≡ slugify u title)
      × (slugify u title ≢ [])
      × (m : Note) × (get (slugify u title) t ≡ some m)
      × Holds m (slugify u title) title content (kind_or_note k) tags now
unfolding save get
save-get u new_id now title content k tags s {n} {t} h free full =
    let slug = slugify u title in
    let (b, e) = guard-eq-ok (is_empty slug) _ _ h in
    let r = upserted new_id slug title content (kind_or_note k) tags now s.notes free full in
    subst
      (λ z.
        (z.0.slug ≡ slug)
        × (slug ≢ [])
        × (m : Note) × (get slug z.1 ≡ some m)
        × Holds m slug title content (kind_or_note k) tags now)
      (ok-injective e)
      (refl, nonempty slug b, row_to_note r.0, ap (Option.map row_to_note) r.1, r.2)
  where
    nonempty : (x : Text) → is_empty x ≡ false → x ≢ []
    nonempty x b z = true-false (subst (λ y. is_empty y ≡ false) z b)
      where
        true-false : true ≢ false
        true-false w = cc

-- A title with a slug can be saved.
pub save-ok :
    (u : Unicode) (new_id now title content : Text) (k : Option Text) (tags : List Text)
    (s : BrainStore)
    → slugify u title ≢ []
    → (r : Note × BrainStore) × (save u new_id now title content k tags s ≡ ok r)
unfolding save is_empty
save-ok u new_id now title content k tags s ne =
    (_, passed (is_empty (slugify u title)) _ _ (full (slugify u title) ne))
  where
    full : (x : Text) → x ≢ [] → is_empty x ≡ false
    full [] n = absurd (n refl)
    full (c ∷ x) n = refl

    passed :
        (b : Bool) (e : Text) (r : Note × BrainStore)
        → b ≡ false
        → (if b then err e else ok r) ≡ ok r
    passed true e r h = cc
    passed false e r h = refl
