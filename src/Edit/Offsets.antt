-- ===== src/Edit/Offsets.antt =====
-- Where the loop of applyLineRange finds the offsets of a range.
use mathlib.Core.Path.{subst}
use mcpx.Base.{
  ℕ, zero, suc, ◌+◌, ◌-◌, ◌≤◌, ◌<◌, ◌≡◌, refl, sym, ap, ◌∙◌, true, false, Option, none, some, List,
  [], ◌∷◌, if◌then◌else◌, ◌==◌, take, drop, length, Bytes, arith, Bool-cases, Option-cases, inl,
  inr, append-nil, length-append, length-take, length-drop, drop-drop,
}
use mcpx.Edit.Lines.{is_closed, index_line, Cut, line_end, last_cut, scan}
use mcpx.Edit.Split.{split_lines, concat, nth, only_line, first_line}

abbrev pub size : ℕ → List Bytes → ℕ
size k ls = length (concat (take k ls))

-- Where a cut of the lines from an offset ends.
abbrev pub EndsAt : Cut → ℕ → ℕ → List Bytes → Type 0
EndsAt cut start k ls =
    (cut.to ≡ start + size (suc k) ls) × (cut.had_newline ≡ is_closed (nth k ls))

no_lines : (s : Bytes) → length s ≡ 0 → length (split_lines s) ≡ 0
unfolding split_lines
no_lines [] h = refl
no_lines (c ∷ s) h = absurd (omega arith)

only :
    (s : Bytes)
    → 1 ≤ length (split_lines s)
    → index_line s ≡ none
    → (split_lines s ≡ s ∷ []) × (is_closed s ≡ false)
unfolding split_lines
only [] h e = absurd (omega arith)
only (c ∷ s) h e = only_line c s e

last-EndsAt :
    (s : Bytes) (start from : ℕ) (o : Option ℕ)
    → start ≤ length s
    → 1 ≤ length (split_lines (drop start s))
    → index_line (drop start s) ≡ o
    → EndsAt (last_cut from start s o) start 0 (split_lines (drop start s))
last-EndsAt s start from none inside h e =
    let (line, ends) = only (drop start s) h e in
    let all_of = length-drop start s in
    let no_more = append-nil (drop start s) in rw (line) (rw (no_more) (omega arith), sym ends)
last-EndsAt s start from (some i) inside h e =
    let (line, ends, fits) = first_line (drop start s) i e in
    let no_more = append-nil (take (suc i) (drop start s)) in
    let measured = length-take (suc i) (drop start s) in
    rw (line) (rw (no_more) (omega arith), sym ends)

next_start : (s : Bytes) (start i : ℕ) → drop (suc (start + i)) s ≡ drop (suc i) (drop start s)
next_start s start i =
    let same : start + suc i ≡ suc (start + i) = omega arith in
    sym (rw (← same) (drop-drop (suc i) start s))

scan_step :
    (s : Bytes) (first k line start from i : ℕ)
    → index_line (drop start s) ≡ some i
    → scan s first (suc (suc k)) line start from
      ≡ scan s first (suc k) (suc line) (suc (start + i)) (if line == first then start else from)
unfolding scan
scan_step s first k line start from i e =
    ap
      (λ o.
        scan s first (suc k) (suc line) (suc (line_end start s o))
          (if line == first then start else from))
      e

pub scan-EndsAt :
    (s : Bytes) (first k line start from : ℕ)
    → start ≤ length s
    → suc k ≤ length (split_lines (drop start s))
    → EndsAt (scan s first (suc k) line start from) start k (split_lines (drop start s))
unfolding scan
scan-EndsAt s first zero line start from inside h =
    last-EndsAt s start _ (index_line (drop start s)) inside (omega arith) refl
scan-EndsAt s first (suc k) line start from inside h =
    elim (Option-cases (index_line (drop start s))) [
      | inl e ↦
          let (only_one, ends) = only (drop start s) (omega arith) e in
          let short : length (split_lines (drop start s)) ≡ 1 = rw (only_one) refl in
          absurd (omega arith)
      | inr (i, e) ↦
          let (line_split, ends, fits) = first_line (drop start s) i e in
          let rest = split_lines (drop (suc i) (drop start s)) in
          let there = next_start s start i in
          let all_of = length-drop start s in
          let count : length (split_lines (drop start s)) ≡ suc (length rest) =
            rw (line_split) refl in
          let later =
            scan-EndsAt s first k (suc line) (suc (start + i))
              (if line == first then start else from) (omega arith) (rw (there) (omega arith)) in
          let (to, had) =
            subst
              (λ x.
                EndsAt
                  (scan s first (suc k) (suc line) (suc (start + i))
                    (if line == first then start else from))
                  (suc (start + i)) k (split_lines x))
              there later in
          let measured = length-take (suc i) (drop start s) in
          let joined = length-append (take (suc i) (drop start s)) (concat (take (suc k) rest)) in
          let cut =
            scan s first (suc k) (suc line) (suc (start + i))
              (if line == first then start else from) in
          let size_of : size (suc (suc k)) (take (suc i) (drop start s) ∷ rest)
              ≡ suc i + size (suc k) rest =
            omega arith in
          subst (λ x. EndsAt x start (suc k) (split_lines (drop start s)))
            (sym (scan_step s first k line start from i e))
            (subst (λ x. EndsAt cut start (suc k) x) (sym line_split) (to ∙ omega arith, had))
    ]

last_cut-from : (f start : ℕ) (s : Bytes) (o : Option ℕ) → (last_cut f start s o).from ≡ f
last_cut-from f start s none = refl
last_cut-from f start s (some i) = refl

passed : (line first start from : ℕ) → first < line → (if line == first then start else from) ≡ from
passed line first start from past =
    let apart : (line == first) ≡ false = ground arith in rw (apart) refl

reached :
    (line first start from : ℕ) → line ≡ first → (if line == first then start else from) ≡ start
reached line first start from at =
    let same : (line == first) ≡ true = ground arith in rw (same) refl

-- Behind the first line of the range the start stays.
scan_kept :
    (s : Bytes) (first k line start from : ℕ)
    → first < line
    → (scan s first (suc k) line start from).from ≡ from
unfolding scan
scan_kept s first zero line start from past =
    last_cut-from _ start s (index_line (drop start s)) ∙ passed line first start from past
scan_kept s first (suc k) line start from past =
    scan_kept s first k (suc line) _ _ (omega arith) ∙ passed line first start from past

-- The start of the range is behind the lines before it.
pub from-scan :
    (s : Bytes) (first k line start from : ℕ)
    → start ≤ length s
    → suc k ≤ length (split_lines (drop start s))
    → line ≤ first
    → first ≤ line + k
    → (scan s first (suc k) line start from).from
      ≡ start + size (first - line) (split_lines (drop start s))
unfolding scan
from-scan s first zero line start from inside h low high =
    let here : first - line ≡ 0 = omega arith in
    let none_before : size (first - line) (split_lines (drop start s)) ≡ 0 = rw (here) refl in
    last_cut-from _ start s (index_line (drop start s))
    ∙ reached line first start from (omega arith)
    ∙ omega arith
from-scan s first (suc k) line start from inside h low high =
    elim (Option-cases (index_line (drop start s))) [
      | inl e ↦
          let (only_one, ends) = only (drop start s) (omega arith) e in
          let short : length (split_lines (drop start s)) ≡ 1 = rw (only_one) refl in
          absurd (omega arith)
      | inr (i, e) ↦
          let (line_split, ends, fits) = first_line (drop start s) i e in
          let rest = split_lines (drop (suc i) (drop start s)) in
          let there = next_start s start i in
          let all_of = length-drop start s in
          let count : length (split_lines (drop start s)) ≡ suc (length rest) =
            rw (line_split) refl in
          elim (Bool-cases (line == first)) [
            | inl m ↦
                let same : line ≡ first = ground arith in
                let here : first - line ≡ 0 = omega arith in
                let none_before : size (first - line) (split_lines (drop start s)) ≡ 0 =
                  rw (here) refl in
                scan_kept s first k (suc line) _ _ (omega arith)
                ∙ reached line first start from same
                ∙ omega arith
            | inr m ↦
                let apart : line < first = ground arith in
                let before : first - line ≡ suc (first - suc line) = omega arith in
                let later =
                  from-scan s first k (suc line) (suc (start + i))
                    (if line == first then start else from) (omega arith) (rw (there) (omega arith))
                    (omega arith) (omega arith) in
                let measured = length-take (suc i) (drop start s) in
                let joined =
                  length-append (take (suc i) (drop start s))
                    (concat (take (first - suc line) rest)) in
                let size_of : size (first - line) (split_lines (drop start s))
                    ≡ suc i + size (first - suc line) rest =
                  rw (before) (rw (line_split) (omega arith)) in
                let moved : size (first - suc line) (split_lines (drop (suc (start + i)) s))
                    ≡ size (first - suc line) rest =
                  ap (λ x. size (first - suc line) (split_lines x)) there in
                ap (λ (c : Cut). c.from) (scan_step s first k line start from i e)
                ∙ later
                ∙ omega arith
          ]
    ]
