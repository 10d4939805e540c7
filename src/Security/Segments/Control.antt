-- ===== src/Security/Segments/Control.antt =====
-- No control operator is hidden inside a segment.
use mcpx.Base.{
  ℕ, ◌≡◌, ◌≢◌, refl, sym, ◌∙◌, Bool, true, false, not, ◌&&◌, ◌||◌, List, [], ◌∷◌, arith,
  if◌then◌else◌, Bool-cases, inl, inr, ◌==◌, All, All-append, All-trim_space, Bytes, str_eq,
  trim_space, is_blank,
}
use mathlib.Core.Bool.{false≢true}
use mcpx.Security.Segments.{
  Operator, newline, CommandSegment, Segments, safe, unsafe, Scan, start, Outcome, next, stop,
  append_segment, keep, split, starts_with, end_line, unquoted, step, finish, some_segments,
  dangling, scan, command_segments,
}

-- A byte that opens no quotation, no escape and no redirection from a heredoc.
abbrev pub IsPlain : ℕ → Type 0
IsPlain c = (c ≢ 39) × (c ≢ 34) × (c ≢ 92) × (c ≢ b'<')

-- A byte that is no control operator, no backtick and no line end.
abbrev pub IsInert : ℕ → Type 0
IsInert c = (c ≢ b'|') × (c ≢ b'&') × (c ≢ b';') × (c ≢ 96) × (c ≢ 10) × (c ≢ 13)

abbrev pub AllInert : CommandSegment → Type 0
AllInert s = All IsInert s.command

record Clean (st : Scan) : Type 0 where
  unquoted_here : st.quote ≡ 0
  unescaped : st.escaped ≡ false
  segment_inert : All IsInert st.segment
  segments_inert : All AllInert st.segments

data CleanOutcome : Outcome → Type 0 where
  goes : {st : Scan} → Clean st → CleanOutcome (next st)
  refuses : CleanOutcome (stop unsafe)

clean_split :
    (op : Operator) (skips : Bool) (st : Scan) → Clean st → CleanOutcome (split op skips st)
unfolding split append_segment
clean_split op skips st h = elim (Bool-cases (str_eq (trim_space st.segment) [])) [
  | inl e ↦ rw (e, split, append_segment) refuses
  | inr e ↦
      rw (e, split, append_segment)
        (goes (record {
          unquoted_here = h.unquoted_here;
          unescaped = h.unescaped;
          segment_inert = tt;
          segments_inert =
              All-append AllInert st.segments _ h.segments_inert
                (All-trim_space IsInert st.segment h.segment_inert, tt);
        }))
]

clean_end_line : (skips : Bool) (st : Scan) → Clean st → CleanOutcome (end_line skips st)
unfolding end_line
clean_end_line skips st h = elim (Bool-cases (is_blank st.segment)) [
  | inl e ↦ rw e (
      goes (record {
        unquoted_here = h.unquoted_here;
        unescaped = h.unescaped;
        segment_inert = tt;
        segments_inert = h.segments_inert;
      }))
  | inr e ↦ rw e (clean_split newline skips st h)
]

clean_keep : (c : ℕ) (st : Scan) → IsInert c → Clean st → CleanOutcome (next (keep c st))
unfolding keep
clean_keep c st k h = goes (record {
  unquoted_here = h.unquoted_here;
  unescaped = h.unescaped;
  segment_inert = All-append IsInert st.segment (c ∷ []) h.segment_inert (k, tt);
  segments_inert = h.segments_inert;
})

clean_if :
    (b : Bool) (x y : Outcome)
    → (b ≡ true → CleanOutcome x)
    → (b ≡ false → CleanOutcome y)
    → CleanOutcome (if b then x else y)
clean_if true x y hx hy = hx refl
clean_if false x y hx hy = hy refl

inert :
    (c : ℕ)
    → (c == b'|') ≡ false
    → (c == 96) ≡ false
    → (c == 10) ≡ false
    → (c == 13) ≡ false
    → (c == b'&') ≡ false
    → (c == b';') ≡ false
    → IsInert c
inert c a b d e f g = ground arith

clean_unquoted :
    (c : ℕ) (rest : Bytes) (st : Scan) → IsPlain c → Clean st → CleanOutcome (unquoted c rest st)
unfolding unquoted
clean_unquoted c rest st p h =
    clean_if (c == 92) _ _ (λ e. absurd (ground arith))
      λ e₁.
        clean_if (c == 39 || c == 34) _ _ (λ e. absurd (ground arith))
          λ e₂.
            clean_if (c == b'|') _ _
              (λ e.
                clean_if (starts_with b'|' rest) _ _ (λ _. clean_split _ _ st h)
                  (λ _. clean_split _ _ st h))
              λ e₃.
                clean_if (c == b'<') _ _ (λ e. absurd (ground arith))
                  λ e₄.
                    clean_if (c == 96) _ _ (λ e. refuses)
                      λ e₅.
                        clean_if (c == 10) _ _ (λ e. clean_end_line _ st h)
                          λ e₆.
                            clean_if (c == 13) _ _ (λ e. clean_end_line _ st h)
                              λ e₇.
                                clean_if (c == b'$' && starts_with b'(' rest) _ _ (λ e. refuses)
                                  λ e₈.
                                    clean_if (c == b'&') _ _
                                      (λ e.
                                        clean_if (starts_with b'&' rest) _ _
                                          (λ _. clean_split _ _ st h) (λ _. refuses))
                                      λ e₉.
                                        clean_if (c == b';') _ _ (λ e. clean_split _ _ st h)
                                          λ e₁₀. clean_keep c st (inert c e₃ e₅ e₆ e₇ e₉ e₁₀) h

clean_step :
    (c : ℕ) (rest : Bytes) (st : Scan) → IsPlain c → Clean st → CleanOutcome (step c rest st)
unfolding step
clean_step c rest st p h =
    clean_if st.skip _ _
      (λ e. goes (record {
        unquoted_here = h.unquoted_here;
        unescaped = h.unescaped;
        segment_inert = h.segment_inert;
        segments_inert = h.segments_inert;
      }))
      λ e₁.
        clean_if st.escaped _ _ (λ e. absurd (false≢true (sym h.unescaped ∙ e)))
          λ e₂.
            clean_if (st.quote == 39) _ _ (λ e. absurd (ground (arith, h.unquoted_here)))
              λ e₃.
                clean_if (st.quote == 34) _ _ (λ e. absurd (ground (arith, h.unquoted_here)))
                  λ e₄. clean_unquoted c rest st p h

-- What a result of the scan promises.
abbrev pub SegmentsInert : Segments → Type 0
SegmentsInert (safe segments) = All AllInert segments
SegmentsInert unsafe = Unit

inert_some_segments :
    (segments : List CommandSegment)
    → All AllInert segments
    → SegmentsInert (some_segments segments)
unfolding some_segments
inert_some_segments [] h = tt
inert_some_segments (s ∷ segments) h = h

inert_if :
    (b : Bool) (x y : Segments)
    → SegmentsInert x
    → SegmentsInert y
    → SegmentsInert (if b then x else y)
inert_if true x y hx hy = hx
inert_if false x y hx hy = hy

inert_finish : (st : Scan) → Clean st → SegmentsInert (finish st)
unfolding finish
inert_finish st h = inert_if (not (st.quote == 0) || st.escaped) _ _ tt (
    inert_if (not (str_eq (trim_space st.segment) [])) _ _
      (All-append AllInert st.segments _ h.segments_inert
        (All-trim_space IsInert st.segment h.segment_inert, tt))
      (inert_if (dangling st.last_operator) _ _ tt
        (inert_some_segments st.segments h.segments_inert)))

inert_scan :
    (command : Bytes) (st : Scan) → All IsPlain command → Clean st → SegmentsInert (scan command st)
unfolding scan
inert_scan [] st p h = inert_finish st h
inert_scan (c ∷ rest) st (p, ps) h =
    go (step c rest st) (clean_step c rest st p h) (inert_scan rest)
  where
    go :
        (o : Outcome)
        → CleanOutcome o
        → ((st : Scan) → All IsPlain rest → Clean st → SegmentsInert (scan rest st))
        → SegmentsInert (elim o [ next st' ↦ scan rest st' | stop r ↦ r ])
    go _ (goes {st = st'} k) ih = ih st' ps k
    go _ refuses ih = tt

-- In a command with no quotation mark, backslash or `<`, an accepted split leaves no control
-- operator, backtick or line end inside any segment.
pub command_segments-SegmentsInert :
    (command : Bytes) → All IsPlain command → SegmentsInert (command_segments command)
unfolding command_segments
command_segments-SegmentsInert command p =
    inert_scan command start p
      (record { unquoted_here = refl; unescaped = refl; segment_inert = tt; segments_inert = tt })
