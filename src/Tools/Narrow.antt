-- ===== src/Tools/Narrow.antt =====
-- `narrow_to` of crates/peko-core/src/tool.rs against lookups and execution.
use peko_agent.Base.{
  ◌≡◌, refl, false, Option, none, some, List, [], ◌∷◌, ◌++◌, any, arith, ◌∙◌, if◌then◌else◌,
  Bool-cases, Option-cases,
}
use peko_agent.Base.Results.{err}
use peko_agent.Text.{Text, text, text_eq}
use peko_agent.Text.Equality.{text_eq_iff}
use peko_agent.Tools.{
  Tool, Registry, get, insert, execute, insert_found, narrow_step, narrow_from, narrow_to,
}

module _ {V W : Type 0} where
  pub get-insert :
      (name other : Text) (t : Tool V W) (r : Registry V W)
      → get other (insert name t r) ≡ (if text_eq name other then some t else get other r)
  unfolding get insert
  get-insert name other t [] = refl
  get-insert name other t ((k, u) ∷ r) = ground (
    arith,
    text_eq_iff k name,
    text_eq_iff k other,
    text_eq_iff name other,
    get-insert name other t r,
  )

  -- The full registry's tool, if it has one.
  abbrev or_else : Option (Tool V W) → Option (Tool V W) → Option (Tool V W)
  or_else none o = o
  or_else (some t) o = some t

  get-narrow_step :
      (name n : Text) (r out : Registry V W)
      → get name (narrow_step r out n)
        ≡ (if text_eq n name then or_else (get name r) (get name out) else get name out)
  unfolding narrow_step
  get-narrow_step name n r out = go (get n r) refl
    where
      go :
          (o : Option (Tool V W))
          → get n r ≡ o
          → get name (insert_found out n o)
            ≡ (if text_eq n name then or_else (get name r) (get name out) else get name out)
      go none e = ground (arith, text_eq_iff n name)
      go (some t) e = get-insert n name t out ∙ ground (arith, text_eq_iff n name)

  get-narrow_from :
      (name : Text) (r out : Registry V W) (allowed : List Text)
      → get name (narrow_from r out allowed) ≡ (
          if any (λ n. text_eq n name) allowed
          then or_else (get name r) (get name out)
          else get name out)
  unfolding narrow_from
  get-narrow_from name r out [] = refl
  get-narrow_from name r out (n ∷ ns) =
      get-narrow_from name r (narrow_step r out n) ns
      ∙ rw (get-narrow_step name n r out)
          (ground (arith, Option-cases (get name r), Bool-cases (text_eq n name)))

  -- Looking a name up in a narrowed registry finds the full registry's tool if the name is allowed,
  -- and nothing otherwise.
  pub get-narrow_to :
      (name : Text) (r : Registry V W) (allowed : List Text)
      → get name (narrow_to r allowed)
        ≡ (if any (λ n. text_eq n name) allowed then get name r else none)
  unfolding narrow_to get
  get-narrow_to name r allowed =
      ground (arith, get-narrow_from name r [] allowed, Option-cases (get name r))

  -- A call of a tool that is not allowed never reaches it: it is an error, and the world is as
  -- before.
  pub execute-narrow_to :
      (name : Text) (r : Registry V W) (allowed : List Text) (args : V) (w : W)
      → any (λ n. text_eq n name) allowed ≡ false
      → execute (narrow_to r allowed) name args w ≡ (err (text "unknown tool: " ++ name), w)
  unfolding execute
  execute-narrow_to name r allowed args w h = ground (arith, get-narrow_to name r allowed)
