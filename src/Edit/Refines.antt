-- ===== src/Edit/Refines.antt =====
-- The replacement of a range of lines, by offsets and by lines.
use mcpx.Base.{
  Bool, true, false, ℕ, zero, suc, ◌-◌, ◌≤◌, ◌≡◌, refl, sym, ap, ◌∙◌, ◌||◌, List, [], ◌∷◌, ◌++◌,
  if◌then◌else◌, ltb, take, drop, length, Bytes, arith, Bool-cases, inl, inr, append_assoc,
  take-append-drop,
}
use mcpx.Edit.Text.{newline, strip_bom, normalize_newlines}
use mcpx.Edit.Lines.{
  LineRange, Outcome, edited, invalid_input, range_out_of_bounds, is_closed, is_line_end,
  index_line, Cut, scan, closed_like, splice, apply_line_range,
}
use mcpx.Edit.Offsets.{size, scan-EndsAt, from-scan}
use mcpx.Edit.Split.{split_lines, lines_of, concat, nth, concat-split_lines, line_count_lem}

-- A replacement behind which another line starts: it is empty or ends in a newline.
abbrev closing : Bool → Bytes → Bytes
closing false r = r
closing true [] = []
closing true (c ∷ r) = if is_line_end c r then c ∷ r else (c ∷ r) ++ newline ∷ []

closed_like-closing : (had : Bool) (r : Bytes) → closed_like had r ≡ closing had r
unfolding closed_like
closed_like-closing false r = refl
closed_like-closing true [] = refl
closed_like-closing true (c ∷ r) = ground arith

-- The replacement of lines in the list of lines. It ends in a newline if the last line that it takes the
-- place of has one, unless it is empty.
unfoldable pub replace_lines : Bytes → LineRange → Outcome
unfolding lines_of strip_bom normalize_newlines
replace_lines s range =
    let ls = lines_of s in
    if ltb range.start_line 1 || ltb range.end_line range.start_line
    then invalid_input
    else if ltb (length ls) range.end_line
    then range_out_of_bounds
    else edited (
        concat (take (range.start_line - 1) ls)
        ++ closing (is_closed (nth (range.end_line - 1) ls))
            (strip_bom (normalize_newlines range.replacement))
        ++ concat (drop range.end_line ls))

concat-append : (a b : List Bytes) → concat (a ++ b) ≡ concat a ++ concat b
concat-append [] b = refl
concat-append (l ∷ a) b =
    ap (λ x. l ++ x) (concat-append a b) ∙ sym (append_assoc l (concat a) (concat b))

take_front : (a b : Bytes) → take (length a) (a ++ b) ≡ a
take_front [] b = refl
take_front (c ∷ a) b = ap (λ x. c ∷ x) (take_front a b)

drop_front : (a b : Bytes) → drop (length a) (a ++ b) ≡ b
drop_front [] b = refl
drop_front (c ∷ a) b = drop_front a b

parted : (k : ℕ) (ls : List Bytes) → concat (take k ls) ++ concat (drop k ls) ≡ concat ls
parted k ls = sym (concat-append (take k ls) (drop k ls)) ∙ ap concat (take-append-drop k ls)

take_lines : (k : ℕ) (s : Bytes) → take (size k (split_lines s)) s ≡ concat (take k (split_lines s))
take_lines k s =
    let ls = split_lines s in
    ap (take (size k ls)) (sym (parted k ls ∙ concat-split_lines s))
    ∙ take_front (concat (take k ls)) (concat (drop k ls))

drop_lines : (k : ℕ) (s : Bytes) → drop (size k (split_lines s)) s ≡ concat (drop k (split_lines s))
drop_lines k s =
    let ls = split_lines s in
    ap (drop (size k ls)) (sym (parted k ls ∙ concat-split_lines s))
    ∙ drop_front (concat (take k ls)) (concat (drop k ls))

spliced :
    (s r : Bytes) (cut : Cut) (a b : ℕ) (h : Bool)
    → cut.from ≡ a
    → cut.to ≡ b
    → cut.had_newline ≡ h
    → splice s r cut ≡ take a s ++ closed_like h r ++ drop b s
unfolding splice
spliced s r cut a b h ea eb eh =
    ap (λ x. take x s ++ closed_like cut.had_newline r ++ drop cut.to s) ea
    ∙ ap (λ x. take a s ++ closed_like x r ++ drop cut.to s) eh
    ∙ ap (λ x. take a s ++ closed_like h r ++ drop x s) eb

-- The range lies within the lines.
within :
    (s r : Bytes) (first k : ℕ)
    → 1 ≤ first
    → first ≤ suc k
    → suc k ≤ length (split_lines s)
    → splice s r (scan s first (suc k) 1 0 0)
      ≡ concat (take (first - 1) (split_lines s))
        ++ closed_like (is_closed (nth k (split_lines s))) r
        ++ concat (drop (suc k) (split_lines s))
within s r first k low high fits =
    let (to, had) = scan-EndsAt s first k 1 0 0 (omega arith) fits in
    let from = from-scan s first k 1 0 0 (omega arith) fits low (omega arith) in
    spliced s r (scan s first (suc k) 1 0 0) (size (first - 1) (split_lines s))
      (size (suc k) (split_lines s)) _ (from ∙ omega arith) (to ∙ omega arith) had
    ∙ ap
        (λ x.
          x
          ++ closed_like (is_closed (nth k (split_lines s))) r
          ++ drop (size (suc k) (split_lines s)) s)
        (take_lines (first - 1) s)
    ∙ ap
        (λ x.
          concat (take (first - 1) (split_lines s))
          ++ closed_like (is_closed (nth k (split_lines s))) r
          ++ x)
        (drop_lines (suc k) s)

-- A file without a byte.
within_empty : (r : Bytes) → splice [] r (scan [] 1 1 1 0 0) ≡ [] ++ closed_like false r ++ []
unfolding splice scan index_line
within_empty r = refl

replaced :
    (s r : Bytes) (first k : ℕ)
    → 1 ≤ first
    → first ≤ suc k
    → suc k ≤ length (lines_of s)
    → splice s r (scan s first (suc k) 1 0 0)
      ≡ concat (take (first - 1) (lines_of s))
        ++ closed_like (is_closed (nth k (lines_of s))) r
        ++ concat (drop (suc k) (lines_of s))
unfolding lines_of
replaced (c ∷ s) r first k low high fits = within (c ∷ s) r first k low high fits
replaced [] r first zero low high fits =
    let one : first ≡ 1 = omega arith in rw (one) (within_empty r)
replaced [] r first (suc k) low high fits = absurd (omega arith)

within_range :
    (s r : Bytes) (first end : ℕ)
    → 1 ≤ first
    → first ≤ end
    → end ≤ length (lines_of s)
    → splice s r (scan s first end 1 0 0)
      ≡ concat (take (first - 1) (lines_of s))
        ++ closed_like (is_closed (nth (end - 1) (lines_of s))) r
        ++ concat (drop end (lines_of s))
within_range s r first zero low high fits = absurd (omega arith)
within_range s r first (suc k) low high fits =
    let same : suc k - 1 ≡ k = omega arith in rw (same) (replaced s r first k low high fits)

-- For every text and range, applyLineRange, which counts offsets, gives the same as the replacement in the
-- list of lines: the lines before the range and behind it stay as they are, the replacement is closed
-- with a newline where the range's last line had one, and a range that is empty, upside down or behind the
-- last line is refused with the same error.
pub apply_line_range-replaces :
    (s : Bytes) (range : LineRange) → apply_line_range s range ≡ replace_lines s range
unfolding apply_line_range replace_lines
apply_line_range-replaces s range =
    let count = line_count_lem s in
    let r = strip_bom (normalize_newlines range.replacement) in
    elim (Bool-cases (ltb range.start_line 1 || ltb range.end_line range.start_line)) [
      | inl m ↦ rw (m) refl
      | inr m ↦
          rw (m, count)
            (elim (Bool-cases (ltb (length (lines_of s)) range.end_line)) [
              | inl n ↦ rw (n) refl
              | inr n ↦ rw (n) (
                  ap edited (
                    within_range s r range.start_line range.end_line (ground arith) (ground arith)
                      (ground arith)
                    ∙ ap
                        (λ x.
                          concat (take (range.start_line - 1) (lines_of s))
                          ++ x
                          ++ concat (drop range.end_line (lines_of s)))
                        (closed_like-closing (is_closed (nth (range.end_line - 1) (lines_of s)))
                          r)))
            ])
    ]
