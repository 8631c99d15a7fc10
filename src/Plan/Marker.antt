-- ===== src/Plan/Marker.antt =====
-- How the Telegram bot reads the marker of a plan in an answer, and the data of the buttons that it
-- sends: src/telegram/bot.rs.
use peko_agent.Base.{ℕ, zero, suc, Option, none, some, List, [], ◌∷◌, ◌++◌, ◌==◌, if◌then◌else◌}
use mathlib.Core.Option
use peko_agent.Text.{Text, text, text_eq, is_empty, join, strip_prefix, trim}
use peko_agent.Text.Split.{cons_first}
use peko_agent.Sse.{lines}

pub data PlanMarkerKind : Type 0 where
  approve auto : PlanMarkerKind

pub record PlanMarker : Type 0 where
  pub kind : PlanMarkerKind
  pub slug : Text
  pub body : Text

abbrev pub or_else {ℓ} : {A : Type ℓ} → Option A → Option A → Option A
or_else none o = o
or_else (some a) o = some a

-- What stands behind the first occurrence of the prefix.
unfoldable pub behind : Text → Text → Option Text
unfolding strip_prefix
behind p [] = strip_prefix p []
behind p (c ∷ s) = or_else (strip_prefix p (c ∷ s)) (behind p s)

-- What stands in front of the first closing bracket.
unfoldable pub up_to_bracket : Text → Option Text
up_to_bracket [] = none
up_to_bracket (c ∷ s) =
    let rest = up_to_bracket s in if c == 93 then some [] else Option.map (λ t. c ∷ t) rest

abbrev pub nonempty : Text → Option Text
nonempty t = if is_empty t then none else some t

unfoldable pub extract_marker : Text → Text → Option Text
unfolding behind up_to_bracket trim
extract_marker line prefix =
    Option.bind (behind prefix line)
      (λ rest. Option.bind (up_to_bracket rest) (λ slug. nonempty (trim slug)))

unfoldable pub marker_of : Text → Option (PlanMarkerKind × Text)
unfolding extract_marker
marker_of line =
    or_else (Option.map (λ slug. (approve, slug)) (extract_marker line (text "[plan:approve:")))
      (Option.map (λ slug. (auto, slug)) (extract_marker line (text "[plan:auto:")))

abbrev pub with_line :
    Option (PlanMarkerKind × Text)
    → Text
    → List Text
    → Option (PlanMarkerKind × Text) × List Text
    → Option (PlanMarkerKind × Text) × List Text
with_line none l ls rest = (rest.0, l ∷ rest.1)
with_line (some m) l ls rest = (some m, ls)

-- The first marker, and the lines without its own.
unfoldable pub on_lines : List Text → Option (PlanMarkerKind × Text) × List Text
unfolding marker_of
on_lines [] = (none, [])
on_lines (l ∷ ls) = with_line (marker_of l) l ls (on_lines ls)

unfoldable pub parse_plan_marker : Text → Option PlanMarker
unfolding on_lines
parse_plan_marker t =
    let found = on_lines (lines t) in
    Option.map (λ m. record { kind = m.0; slug = m.1; body = trim (join (text "\n") found.1) })
      found.0

-- The data of the two buttons, and how a tap on one is read: `splitn(3, ':')`.
unfoldable pub callback_data : Text → Text → Text
callback_data action slug = text "plan:" ++ (action ++ (text ":" ++ slug))

-- At most that many pieces and one more; the last takes the rest.
unfoldable pub splitn : ℕ → ℕ → Text → List Text
splitn zero sep s = s ∷ []
splitn (suc n) sep [] = [] ∷ []
splitn (suc n) sep (c ∷ s) =
    if c == sep then [] ∷ splitn n sep s else cons_first c (splitn (suc n) sep s)

abbrev pub action_of : List Text → Option (Text × Text)
action_of (p ∷ action ∷ slug ∷ []) = if text_eq p (text "plan") then some (action, slug) else none
action_of [] = none
action_of (p ∷ []) = none
action_of (p ∷ action ∷ []) = none
action_of (p ∷ action ∷ slug ∷ more ∷ ts) = none

unfoldable pub read_callback : Text → Option (Text × Text)
unfolding splitn
read_callback data_text = action_of (splitn 2 58 data_text)
