-- ===== src/Sse/Tests.antt =====
-- Runs of the parser of crates/peko-transport/src/sse.rs.
use peko_agent.Base.{ℕ, ◌≡◌, refl, List, [], ◌++◌}
use peko_agent.Text.{Text, text}
use peko_agent.Sse.{feed}
use peko_agent.Sse.Chunks.{then_more, feed-append}

-- Two events that are cut inside the second.
abbrev letters : List ℕ → Text
letters bytes = bytes

feed-append_example :
    feed letters [] (text "data: a\n\nda" ++ text "ta: b\n\n")
    ≡ then_more
        (feed letters [] (text "data: a\n\nda"))
        (λ rest. feed letters rest (text "ta: b\n\n"))
feed-append_example = feed-append letters [] (text "data: a\n\nda") (text "ta: b\n\n") refl
