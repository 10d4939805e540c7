-- ===== src/Edit/Split.antt =====
-- A text as the list of its lines, each with its newline; the last one may have none.
use mcpx.Base.{
  ℕ, zero, suc, ◌≤◌, ◌≡◌, refl, sym, ap, ◌∙◌, true, false, Option, none, some, List, [], ◌∷◌, ◌++◌,
  if◌then◌else◌, ◌==◌, take, drop, length, Bytes, arith, Bool-cases, Option-cases, inl, inr,
}
use mcpx.Edit.Text.{newline}
use mcpx.Edit.Lines.{is_line_end, is_closed, count_lines, line_count, index_line}

unfoldable pub attach : ℕ → List Bytes → List Bytes
attach c [] = (c ∷ []) ∷ []
attach c (l ∷ ls) = (c ∷ l) ∷ ls

unfoldable pub split_lines : Bytes → List Bytes
unfolding attach
split_lines [] = []
split_lines (c ∷ s) =
    let rest = split_lines s in if c == newline then (c ∷ []) ∷ rest else attach c rest

-- A file without a byte has one line.
unfoldable pub lines_of : Bytes → List Bytes
unfolding split_lines
lines_of [] = [] ∷ []
lines_of (c ∷ s) = split_lines (c ∷ s)

abbrev pub concat : List Bytes → Bytes
concat [] = []
concat (l ∷ ls) = l ++ concat ls

abbrev pub nth : ℕ → List Bytes → Bytes
nth n [] = []
nth zero (l ∷ ls) = l
nth (suc n) (l ∷ ls) = nth n ls

concat-attach : (c : ℕ) (ls : List Bytes) → concat (attach c ls) ≡ c ∷ concat ls
unfolding attach
concat-attach c [] = refl
concat-attach c (l ∷ ls) = refl

pub concat-split_lines : (s : Bytes) → concat (split_lines s) ≡ s
unfolding split_lines
concat-split_lines [] = refl
concat-split_lines (c ∷ s) = elim (Bool-cases (c == newline)) [
  | inl e ↦ rw (e) (ap (λ x. c ∷ x) (concat-split_lines s))
  | inr e ↦ rw (e) (concat-attach c (split_lines s) ∙ ap (λ x. c ∷ x) (concat-split_lines s))
]

length-attach : (c : ℕ) (ls : List Bytes) → 1 ≤ length ls → length (attach c ls) ≡ length ls
unfolding attach
length-attach c [] h = absurd (omega arith)
length-attach c (l ∷ ls) h = refl

abbrev counted : ℕ → Bytes → ℕ
counted c s = if is_line_end c s then count_lines (c ∷ s) else suc (count_lines (c ∷ s))

counted_positive : (c : ℕ) (s : Bytes) → 1 ≤ counted c s
unfolding count_lines
counted_positive c [] = ground arith
counted_positive c (d ∷ s) = let rest = counted_positive d s in ground arith

split_closed :
    (c : ℕ) (s : Bytes) → (c == newline) ≡ true → split_lines (c ∷ s) ≡ (c ∷ []) ∷ split_lines s
unfolding split_lines
split_closed c s e = rw (e) refl

split_attached :
    (c : ℕ) (s : Bytes) → (c == newline) ≡ false → split_lines (c ∷ s) ≡ attach c (split_lines s)
unfolding split_lines
split_attached c s e = rw (e) refl

counted_closed :
    (c d : ℕ) (s : Bytes) → (c == newline) ≡ true → counted c (d ∷ s) ≡ suc (counted d s)
unfolding count_lines
counted_closed c d s e = ground arith

counted_attached : (c d : ℕ) (s : Bytes) → (c == newline) ≡ false → counted c (d ∷ s) ≡ counted d s
unfolding count_lines
counted_attached c d s e = ground arith

one_line : (c : ℕ) → length (split_lines (c ∷ [])) ≡ counted c []
unfolding split_lines attach count_lines
one_line c = ground arith

length-split_lines : (c : ℕ) (s : Bytes) → length (split_lines (c ∷ s)) ≡ counted c s
length-split_lines c [] = one_line c
length-split_lines c (d ∷ s) =
    let rest = length-split_lines d s in
    let positive = counted_positive d s in
    elim (Bool-cases (c == newline)) [
      | inl e ↦
          let split = ap length (split_closed c (d ∷ s) e) in
          let same = counted_closed c d s e in omega arith
      | inr e ↦
          let split = ap length (split_attached c (d ∷ s) e) in
          let kept = length-attach c (split_lines (d ∷ s)) (omega arith) in
          let same = counted_attached c d s e in omega arith
    ]

pub line_count_lem : (s : Bytes) → line_count s ≡ length (lines_of s)
unfolding line_count lines_of count_lines
line_count_lem [] = refl
line_count_lem (c ∷ s) = sym (length-split_lines c s)

index_closed : (c : ℕ) (s : Bytes) → (c == newline) ≡ true → index_line (c ∷ s) ≡ some 0
unfolding index_line
index_closed c s e = rw (e) refl

abbrev next_index : Option ℕ → Option ℕ
next_index none = none
next_index (some i) = some (suc i)

index_attached :
    (c : ℕ) (s : Bytes) → (c == newline) ≡ false → index_line (c ∷ s) ≡ next_index (index_line s)
unfolding index_line
index_attached c s e = elim (Option-cases (index_line s)) [
  | inl m ↦ rw (e, m) refl
  | inr (j, m) ↦ rw (e, m) refl
]

next_none : (o : Option ℕ) → next_index o ≡ none → o ≡ none
next_none none e = refl
next_none (some i) e = absurd (cc)

-- A text without a newline is one line.
pub only_line :
    (c : ℕ) (s : Bytes)
    → index_line (c ∷ s) ≡ none
    → (split_lines (c ∷ s) ≡ (c ∷ s) ∷ []) × (is_closed (c ∷ s) ≡ false)
unfolding attach split_lines
only_line c [] e = elim (Bool-cases (c == newline)) [
  | inl t ↦ let found = sym (index_closed c [] t) ∙ e in absurd (cc)
  | inr t ↦ (split_attached c [] t, t)
]
only_line c (d ∷ s) e = elim (Bool-cases (c == newline)) [
  | inl t ↦ let found = sym (index_closed c (d ∷ s) t) ∙ e in absurd (cc)
  | inr t ↦
      let (rest, ends) =
        only_line d s (next_none (index_line (d ∷ s)) (sym (index_attached c (d ∷ s) t) ∙ e)) in
      (split_attached c (d ∷ s) t ∙ ap (attach c) rest, ends)
]

next_some : (o : Option ℕ) (i : ℕ) → next_index o ≡ some i → (j : ℕ) × (o ≡ some j) × (i ≡ suc j)
next_some none i e = absurd (cc)
next_some (some j) i e = (j, refl, cc)

closed_head : (c : ℕ) (s : Bytes) → is_closed s ≡ true → is_closed (c ∷ s) ≡ true
closed_head c [] h = absurd (cc)
closed_head c (d ∷ s) h = h

first_index : (i : ℕ) → ◌≡◌ {A = Option ℕ} (some i) (some 0) → i ≡ 0
first_index i e = cc

no_index :
    (i : ℕ)
    → index_line [] ≡ some i
    → (split_lines [] ≡ take (suc i) [] ∷ split_lines (drop (suc i) []))
      × (is_closed (take (suc i) []) ≡ true)
      × (suc i ≤ 0)
unfolding index_line
no_index i e = absurd (cc)

-- The first line of a text with a newline.
pub first_line :
    (s : Bytes) (i : ℕ)
    → index_line s ≡ some i
    → (split_lines s ≡ take (suc i) s ∷ split_lines (drop (suc i) s))
      × (is_closed (take (suc i) s) ≡ true)
      × (suc i ≤ length s)
unfolding attach
first_line [] i e = no_index i e
first_line (c ∷ s) i e = elim (Bool-cases (c == newline)) [
  | inl t ↦
      let here : i ≡ 0 = first_index i (sym e ∙ index_closed c s t) in
      rw (here) (split_closed c s t, t, omega arith)
  | inr t ↦
      let (j, m, next) = next_some (index_line s) i (sym (index_attached c s t) ∙ e) in
      let (rest, closed, inside) = first_line s j m in
      rw (next) (
        split_attached c s t ∙ ap (attach c) rest,
        closed_head c (take (suc j) s) closed,
        omega arith,
      )
]
