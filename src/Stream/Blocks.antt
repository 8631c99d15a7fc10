-- ===== src/Stream/Blocks.antt =====
-- The events of an answer that is sent block by block, for the loop of
-- crates/peko-core/src/runtime.rs.
use mathlib.Core.List.{append_assoc, append-nil}
use peko_agent.Base.{ℕ, ◌+◌, ◌≡◌, refl, false, List, [], ◌∷◌, ◌++◌, map, arith, All, ap, ◌∙◌, sym}
use peko_agent.Text.{Text, is_empty}
use peko_agent.Message.{ToolCall}
use peko_agent.Stream.{
  StreamEvent, StopReason, content_block_start, text_block, tool_use_block, text_delta,
  tool_use_start, tool_input_delta, content_block_stop, message_delta, message_stop, Gathered,
  nothing_yet, on_event, on_events, gather, close_call,
}

-- A content block: a text in pieces, or a tool call whose input comes in pieces.
pub data Block : Type 0 where
  said : List Text → Block
  call : (id name : Text) → List Text → Block

abbrev pub joined : List Text → Text
joined [] = []
joined (t ∷ ts) = t ++ joined ts

abbrev pub block_events : ℕ → Block → List StreamEvent
block_events i (said ts) =
    content_block_start i text_block ∷ (map text_delta ts ++ (content_block_stop i ∷ []))
block_events i (call id name ts) =
    content_block_start i tool_use_block
    ∷ tool_use_start id name
    ∷ (map tool_input_delta ts ++ (content_block_stop i ∷ []))

abbrev pub blocks_events : ℕ → List Block → List StreamEvent
blocks_events i [] = []
blocks_events i (b ∷ bs) = block_events i b ++ blocks_events (i + 1) bs

abbrev pub texts : List Block → Text
texts [] = []
texts (said ts ∷ bs) = joined ts ++ texts bs
texts (call id name ts ∷ bs) = texts bs

-- Every tool has a name.
abbrev pub IsNamed : Block → Type 0
IsNamed (said ts) = Unit {0}
IsNamed (call id name ts) = is_empty name ≡ false

module _ {V : Type 0} (input_of : Text → V) where
  abbrev pub calls : List Block → List (ToolCall V)
  calls [] = []
  calls (said ts ∷ bs) = calls bs
  calls (call id name ts ∷ bs) =
      record { id = id; name = name; input = input_of (joined ts) } ∷ calls bs

  on_events-append :
      (g : Gathered V) (es fs : List StreamEvent)
      → on_events input_of g (es ++ fs) ≡ on_events input_of (on_events input_of g es) fs
  unfolding on_events
  on_events-append g [] fs = refl
  on_events-append g (e ∷ es) fs = on_events-append (on_event input_of g e) es fs

  on_events-text :
      (g : Gathered V) (ts : List Text)
      → on_events input_of g (map text_delta ts)
        ≡ record g { text_buffer = g.text_buffer ++ joined ts }
  unfolding on_events
  on_events-text g [] = ap (λ t. record g { text_buffer = t }) (sym (append-nil g.text_buffer))
  on_events-text g (t ∷ ts) =
      on_events-text (record g { text_buffer = g.text_buffer ++ t }) ts
      ∙ ap (λ t. record g { text_buffer = t }) (append_assoc g.text_buffer t (joined ts))

  on_events-input :
      (g : Gathered V) (ts : List Text)
      → on_events input_of g (map tool_input_delta ts)
        ≡ record g { tool_input = g.tool_input ++ joined ts }
  unfolding on_events
  on_events-input g [] = ap (λ t. record g { tool_input = t }) (sym (append-nil g.tool_input))
  on_events-input g (t ∷ ts) =
      on_events-input (record g { tool_input = g.tool_input ++ t }) ts
      ∙ ap (λ t. record g { tool_input = t }) (append_assoc g.tool_input t (joined ts))

  -- What the events of one block make of the variables.
  abbrev after : Gathered V → Block → Gathered V
  after g (said ts) = record g { text_buffer = g.text_buffer ++ joined ts }
  after g (call id name ts) = record g {
    tool_calls =
        g.tool_calls ++ (record { id = id; name = name; input = input_of (joined ts) } ∷ []);
    tool_id = id;
    tool_name = [];
    tool_input = [];
  }

  on_events-block :
      (g : Gathered V) (i : ℕ) (b : Block)
      → g.tool_name ≡ []
      → IsNamed b
      → on_events input_of g (block_events i b) ≡ after g b
  unfolding on_events is_empty
  on_events-block g i (said ts) h n =
      on_events-append g (map text_delta ts) (content_block_stop i ∷ [])
      ∙ ap (λ g'. close_call input_of g') (on_events-text g ts)
      ∙ rw h
  on_events-block g i (call id name ts) h n =
      let opened : Gathered V = record g { tool_id = id; tool_name = name; tool_input = [] } in
      on_events-append opened (map tool_input_delta ts) (content_block_stop i ∷ [])
      ∙ ap (λ g'. close_call input_of g') (on_events-input opened ts)
      ∙ rw n

  after-tool_name : (g : Gathered V) (b : Block) → g.tool_name ≡ [] → (after g b).tool_name ≡ []
  after-tool_name g (said ts) h = h
  after-tool_name g (call id name ts) h = refl

  abbrev Ends : Gathered V → List Block → Gathered V → Type 0
  Ends g bs g' =
      (g'.text_buffer ≡ g.text_buffer ++ texts bs)
      × (g'.tool_calls ≡ g.tool_calls ++ calls bs)
      × (g'.tool_name ≡ [])

  Ends-after :
      (g g' : Gathered V) (b : Block) (bs : List Block)
      → Ends (after g b) bs g'
      → Ends g (b ∷ bs) g'
  Ends-after g g' (said ts) bs (t, c, n) =
      (t ∙ append_assoc g.text_buffer (joined ts) (texts bs), c, n)
  Ends-after g g' (call id name ts) bs (t, c, n) =
      (t, c ∙ append_assoc g.tool_calls _ (calls bs), n)

  on_events-blocks :
      (g : Gathered V) (i : ℕ) (bs : List Block)
      → g.tool_name ≡ []
      → All IsNamed bs
      → Ends g bs (on_events input_of g (blocks_events i bs))
  unfolding on_events
  on_events-blocks g i [] h n = (sym (append-nil g.text_buffer), sym (append-nil g.tool_calls), h)
  on_events-blocks g i (b ∷ bs) h n =
      rw
        (
          on_events-append g (block_events i b) (blocks_events (i + 1) bs),
          on_events-block g i b h n.0,
        )
        (Ends-after g (on_events input_of (after g b) (blocks_events (i + 1) bs)) b bs
          (on_events-blocks (after g b) (i + 1) bs (after-tool_name g b h) n.1))

  -- An answer that is streamed block by block, each block closed and each call named, is gathered
  -- into the whole text and all calls in order, with their inputs joined, and the stop reason.
  pub gather-blocks :
      (i n : ℕ) (reason : StopReason) (bs : List Block)
      → All IsNamed bs
      → let g =
          gather input_of (blocks_events i bs ++ (message_delta n reason ∷ message_stop ∷ [])) in
        (g.text_buffer ≡ texts bs) × (g.tool_calls ≡ calls bs) × (g.stop_reason ≡ reason)
  unfolding gather is_empty
  gather-blocks i n reason bs h =
      let (t, c, e) = on_events-blocks nothing_yet i bs refl h in
      rw
        (on_events-append nothing_yet (blocks_events i bs)
          (message_delta n reason ∷ message_stop ∷ []))
        (ground (arith, t, c, e))
