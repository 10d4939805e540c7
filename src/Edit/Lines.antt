-- ===== src/Edit/Lines.antt =====
-- internal/edit/apply.go: applyLineRange. A line number is a natural number: those below 1 behave alike.
use mcpx.Base.{
  ℕ, zero, suc, ◌+◌, Bool, true, false, not, ◌&&◌, ◌||◌, Option, none, some, [], ◌∷◌, ◌++◌,
  if◌then◌else◌, ◌==◌, ltb, take, drop, length, Bytes, str_eq,
}
use mcpx.Edit.Text.{newline, normalize_newlines, strip_bom}

pub record LineRange : Type 0 where
  pub start_line : ℕ
  pub end_line : ℕ
  pub replacement : Bytes

pub data Outcome : Type 0 where
  edited : Bytes → Outcome
  invalid_input range_out_of_bounds : Outcome

-- strings.Count(s, "\n")
unfoldable pub count_lines : Bytes → ℕ
count_lines [] = 0
count_lines (c ∷ s) = let rest = count_lines s in if c == newline then suc rest else rest

abbrev pub is_line_end : ℕ → Bytes → Bool
is_line_end c [] = c == newline
is_line_end c (d ∷ s) = is_line_end d s

-- strings.HasSuffix(s, "\n")
abbrev pub is_closed : Bytes → Bool
is_closed [] = false
is_closed (c ∷ s) = is_line_end c s

unfoldable pub line_count : Bytes → ℕ
unfolding count_lines
line_count s = if is_closed s then count_lines s else suc (count_lines s)

-- strings.IndexByte(s, '\n')
unfoldable pub index_line : Bytes → Option ℕ
index_line [] = none
index_line (c ∷ s) =
    if c == newline then some 0 else elim (index_line s) [ none ↦ none | some i ↦ some (suc i) ]

-- The offsets of a range and whether its last line has a newline.
pub record Cut : Type 0 where
  pub from : ℕ
  pub to : ℕ
  pub had_newline : Bool

-- One turn of the loop: the next line's start, and the cut if this is the last line.
abbrev pub line_end : ℕ → Bytes → Option ℕ → ℕ
line_end start s none = length s
line_end start s (some i) = start + i

abbrev pub last_cut : ℕ → ℕ → Bytes → Option ℕ → Cut
last_cut from start s none = record { from = from; to = length s; had_newline = false }
last_cut from start s (some i) = record { from = from; to = suc (start + i); had_newline = true }

-- The loop over the lines, `left` of which are left.
unfoldable pub scan : Bytes → ℕ → ℕ → ℕ → ℕ → ℕ → Cut
unfolding index_line
scan s first zero line start from = record { from = from; to = length s; had_newline = false }
scan s first (suc zero) line start from =
    last_cut (if line == first then start else from) start s (index_line (drop start s))
scan s first (suc (suc left)) line start from =
    scan s first (suc left) (suc line) (suc (line_end start s (index_line (drop start s))))
      (if line == first then start else from)

unfoldable pub closed_like : Bool → Bytes → Bytes
closed_like had_newline r =
    if had_newline && not (str_eq r []) && not (is_closed r) then r ++ newline ∷ [] else r

unfoldable pub splice : Bytes → Bytes → Cut → Bytes
unfolding closed_like
splice s r cut = take cut.from s ++ closed_like cut.had_newline r ++ drop cut.to s

-- applyLineRange
unfoldable pub apply_line_range : Bytes → LineRange → Outcome
unfolding line_count scan splice strip_bom normalize_newlines
apply_line_range s range =
    if ltb range.start_line 1 || ltb range.end_line range.start_line
    then invalid_input
    else if ltb (line_count s) range.end_line
    then range_out_of_bounds
    else edited (
        splice s (strip_bom (normalize_newlines range.replacement))
          (scan s range.start_line range.end_line 1 0 0))
