-- ===== src/Security/Segments/Examples.antt =====
-- Commands and their segments.
use mcpx.Base.{arith, ◌≡◌, refl, [], ◌∷◌, codes, trim_space, is_blank}
use mcpx.Security.Segments.Control.{SegmentsInert, command_segments-SegmentsInert}
use mcpx.Security.Segments.{safe, unsafe, and_then, pipe, last, command_segments, quoted_heredoc}

two_commands : command_segments (codes "ls -l && cat a;") ≡ unsafe
unfolding command_segments trim_space is_blank quoted_heredoc
two_commands = refl

piped :
    command_segments (codes "echo 'a|b' | wc && pwd")
    ≡ safe (
        record { command = codes "echo 'a|b'"; operator = pipe }
        ∷ record { command = codes "wc"; operator = and_then }
        ∷ record { command = codes "pwd"; operator = last }
        ∷ [])
unfolding command_segments trim_space is_blank quoted_heredoc
piped = refl

segments_inert_example : SegmentsInert (command_segments (codes "ls | wc"))
segments_inert_example = command_segments-SegmentsInert (codes "ls | wc") (grind arith)
