-- ===== src/Chain.antt =====
-- crates/peko-transport/src/chain.rs: the chain of model providers. A provider is what its call does
-- to the world `W`: it returns a stream `S`, or fails with an error text. A log line has no effect.
pub mod Fallback
pub mod Tests
use peko_agent.Base.{
  Bool, true, false, not, ◌&&◌, ◌||◌, Option, none, some, List, [], ◌∷◌, if◌then◌else◌,
}
use peko_agent.Base.Results.{Result, ok, err}
use peko_agent.Text.{Text, text, contains}

abbrev pub Provider : Type 0 → Type 0 → Type 0
Provider S W = W → Result S Text × W

unfoldable pub is_retryable : Text → Bool
is_retryable e =
    contains (text "429") e
    || contains (text "500") e
    || contains (text "502") e
    || contains (text "503") e
    || contains (text "connection") e
    || contains (text "timeout") e

abbrev pub last_or_none : Option Text → Text
last_or_none none = text "no providers available"
last_or_none (some e) = e

module _ {S W : Type 0} where
  -- `i + 1 < self.providers.len()`
  abbrev pub has_next : List (Provider S W) → Bool
  has_next [] = false
  has_next (p ∷ ps) = true

  -- What follows the call of one provider; `rest` is the loop behind it.
  abbrev pub answered : Bool → (Option Text → Provider S W) → Result S Text × W → Result S Text × W
  answered next rest (ok s, w) = (ok s, w)
  answered next rest (err e, w) = if is_retryable e && next then rest (some e) w else (err e, w)

  unfoldable pub try_providers : List (Provider S W) → Option Text → Provider S W
  unfolding is_retryable
  try_providers [] last w = (err (last_or_none last), w)
  try_providers (p ∷ ps) last w = answered (has_next ps) (try_providers ps) (p w)

  unfoldable pub stream_completion : List (Provider S W) → Provider S W
  unfolding try_providers
  stream_completion ps w = try_providers ps none w
