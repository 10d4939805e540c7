-- ===== src/Edit/Examples.antt =====
-- A file of three lines, the last one without a newline.
use mcpx.Base.{◌≡◌, refl, false, Bytes, codes, [], ◌∷◌, ◌++◌}
use mcpx.Edit.Text.{
  normalize_newlines, replace_pairs, replace_returns, end_lines, normalize_newlines-eq-end_lines,
}
use mcpx.Edit.Lines.{LineRange, edited, range_out_of_bounds, apply_line_range}
use mcpx.Edit.Refines.{replace_lines, apply_line_range-replaces}

abbrev text : Bytes
text = codes "one" ++ 10 ∷ codes "two" ++ 10 ∷ codes "three"

abbrev second : LineRange
second = record { start_line = 2; end_line = 2; replacement = codes "zwei" }

abbrev fourth : LineRange
fourth = record { start_line = 2; end_line = 4; replacement = codes "zwei" }

apply_line_range-replaces_example : apply_line_range text second ≡ replace_lines text second
apply_line_range-replaces_example = apply_line_range-replaces text second

abbrev mixed : Bytes
mixed = 97 ∷ 13 ∷ 10 ∷ 13 ∷ 13 ∷ 10 ∷ 10 ∷ []

normalize_newlines-eq-end_lines_example : normalize_newlines mixed ≡ end_lines false mixed
normalize_newlines-eq-end_lines_example = normalize_newlines-eq-end_lines mixed

mixed_has_four_ends : normalize_newlines mixed ≡ 97 ∷ 10 ∷ 10 ∷ 10 ∷ 10 ∷ []
unfolding normalize_newlines replace_pairs replace_returns
mixed_has_four_ends = refl

second_is_replaced :
    apply_line_range text second ≡ edited (codes "one" ++ 10 ∷ codes "zwei" ++ 10 ∷ codes "three")
unfolding apply_line_range
second_is_replaced = refl

fourth_is_missing : apply_line_range text fourth ≡ range_out_of_bounds
unfolding apply_line_range
fourth_is_missing = refl
