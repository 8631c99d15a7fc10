-- ===== src/Tools.antt =====
-- crates/peko-core/src/tool.rs: the tools that the model may call. A tool is what its trait object
-- answers: its name, whether it is available and dangerous, and its run, which may change the world
-- `W` and may fail with an error text. The registry's hash map is a list of its entries.
pub mod Narrow
use peko_agent.Base.{ℕ, Bool, true, false, Option, none, some, List, [], ◌∷◌, ◌++◌, if◌then◌else◌}
use peko_agent.Base.Results.{Result, ok, err}
use peko_agent.Text.{Text, text, text_eq}
use peko_agent.Message.{ImageData}

pub record ToolResult : Type 0 where
  pub content : Text
  pub is_error : Bool
  pub image : Option ImageData

unfoldable pub error_result : Text → ToolResult
error_result content = record { content = content; is_error = true; image = none }

pub record Tool (V W : Type 0) : Type 0 where
  pub name : Text
  pub is_available : Bool
  pub is_dangerous : Bool
  pub run : V → W → Result ToolResult Text × W

abbrev pub Registry : Type 0 → Type 0 → Type 0
Registry V W = List (Text × Tool V W)

module _ {V W : Type 0} where
  -- `HashMap::get` and `HashMap::insert`
  unfoldable pub get : Text → Registry V W → Option (Tool V W)
  get name [] = none
  get name ((k, t) ∷ r) = if text_eq k name then some t else get name r

  unfoldable pub insert : Text → Tool V W → Registry V W → Registry V W
  insert name tool [] = (name, tool) ∷ []
  insert name tool ((k, t) ∷ r) =
      if text_eq k name then (k, tool) ∷ r else (k, t) ∷ insert name tool r

  unfoldable pub register : Tool V W → Registry V W → Registry V W
  unfolding insert
  register tool r = insert tool.name tool r

  unfoldable pub execute : Registry V W → Text → V → W → Result ToolResult Text × W
  execute r name args w = elim (get name r) [
    | none ↦ (err (text "unknown tool: " ++ name), w)
    | some tool ↦
        if tool.is_available
        then tool.run args w
        else (ok (error_result (text "tool '" ++ (name ++ text "' is not available"))), w)
  ]

  unfoldable pub available_tools : Registry V W → List Text
  available_tools [] = []
  available_tools ((k, t) ∷ r) =
      if t.is_available then t.name ∷ available_tools r else available_tools r

  unfoldable pub is_dangerous : Registry V W → Text → Bool
  is_dangerous r name = elim (get name r) [ none ↦ false | some t ↦ t.is_dangerous ]

  -- The body of the loop of `narrow_to`, and the loop with the registry built so far.
  abbrev pub insert_found : Registry V W → Text → Option (Tool V W) → Registry V W
  insert_found out name none = out
  insert_found out name (some t) = insert name t out

  unfoldable pub narrow_step : Registry V W → Registry V W → Text → Registry V W
  narrow_step r out name = insert_found out name (get name r)

  unfoldable pub narrow_from : Registry V W → Registry V W → List Text → Registry V W
  narrow_from r out [] = out
  narrow_from r out (name ∷ names) = narrow_from r (narrow_step r out name) names

  unfoldable pub narrow_to : Registry V W → List Text → Registry V W
  unfolding narrow_from
  narrow_to r allowed = narrow_from r [] allowed
