-- ===== src/Edit/Text.antt =====
-- internal/edit/apply.go: line ends, byte order mark and revision of a text.
use mcpx.Base.{
  ℕ, ◌≡◌, refl, ap, ◌∙◌, Bool-cases, inl, inr, Bool, true, false, ◌&&◌, [], ◌∷◌, if◌then◌else◌,
  ◌==◌, has_prefix, drop, Bytes, arith,
}

abbrev pub newline : ℕ
newline = 10

abbrev pub return : ℕ
return = 13

abbrev starts_line : Bytes → Bool
starts_line [] = false
starts_line (c ∷ s) = c == newline

-- strings.ReplaceAll(s, "\r\n", "\n"): the carriage return goes, and what follows is replaced on.
unfoldable pub replace_pairs : Bytes → Bytes
replace_pairs [] = []
replace_pairs (c ∷ s) =
    let rest = replace_pairs s in if c == return && starts_line s then rest else c ∷ rest

unfoldable pub replace_returns : Bytes → Bytes
replace_returns [] = []
replace_returns (c ∷ s) = (if c == return then newline else c) ∷ replace_returns s

unfoldable pub normalize_newlines : Bytes → Bytes
unfolding replace_pairs replace_returns
normalize_newlines s = replace_returns (replace_pairs s)

-- The three bytes of U+FEFF.
unfoldable pub strip_bom : Bytes → Bytes
strip_bom s = if has_prefix s (239 ∷ 187 ∷ 191 ∷ []) then drop 3 s else s

-- One pass over a text: each of CR, LF and CR LF ends a line. The flag tells that the last byte was
-- a carriage return, whose newline is already there.
unfoldable pub end_lines : Bool → Bytes → Bytes
end_lines after [] = []
end_lines after (c ∷ s) =
    let behind_return = end_lines true s in
    let behind_other = end_lines false s in
    if c == return
    then newline ∷ behind_return
    else if after && c == newline
    then behind_other
    else c ∷ behind_other

-- What is left of a text behind a carriage return that is written as a newline.
abbrev left_of : Bool → Bytes → Bytes
left_of false s = s
left_of true [] = []
left_of true (c ∷ s) = if c == newline then s else c ∷ s

normalize_return :
    (c : ℕ) (s : Bytes)
    → (c == return) ≡ true
    → normalize_newlines (c ∷ s) ≡ newline ∷ normalize_newlines (left_of true s)
unfolding normalize_newlines replace_pairs replace_returns
normalize_return c [] e = rw e (rw e refl)
normalize_return c (d ∷ s) e = elim (Bool-cases (d == newline)) [
  | inl f ↦
      let plain : (d == return) ≡ false = ground arith in
      let g : d ≡ newline = ground arith in
      rw (e, f, plain) (rw plain (ap (λ x. x ∷ replace_returns (replace_pairs s)) g))
  | inr f ↦ rw (e, f) (rw e refl)
]

normalize_other :
    (c : ℕ) (s : Bytes)
    → (c == return) ≡ false
    → normalize_newlines (c ∷ s) ≡ c ∷ normalize_newlines s
unfolding normalize_newlines replace_pairs replace_returns
normalize_other c s e = rw e (rw e refl)

one_pass : (after : Bool) (s : Bytes) → normalize_newlines (left_of after s) ≡ end_lines after s
unfolding end_lines
one_pass true [] = unfold normalize_newlines replace_pairs replace_returns in refl
one_pass false [] = unfold normalize_newlines replace_pairs replace_returns in refl
one_pass true (c ∷ s) = elim (Bool-cases (c == return)) [
  | inl e ↦
      let plain : (c == newline) ≡ false = ground arith in
      rw (e, plain) (normalize_return c s e ∙ ap (λ r. newline ∷ r) (one_pass true s))
  | inr e ↦ elim (Bool-cases (c == newline)) [
    | inl f ↦ rw (e, f) (one_pass false s)
    | inr f ↦ rw (e, f) (normalize_other c s e ∙ ap (λ r. c ∷ r) (one_pass false s))
  ]
]
one_pass false (c ∷ s) = elim (Bool-cases (c == return)) [
  | inl e ↦ rw e (normalize_return c s e ∙ ap (λ r. newline ∷ r) (one_pass true s))
  | inr e ↦ rw e (normalize_other c s e ∙ ap (λ r. c ∷ r) (one_pass false s))
]

-- Normalizing a text is one pass over it in which each of CR LF, a lone CR and a lone LF becomes one
-- newline and every other byte stays.
pub normalize_newlines-eq-end_lines : (s : Bytes) → normalize_newlines s ≡ end_lines false s
normalize_newlines-eq-end_lines s = one_pass false s
