-- ===== src/Operation/Page/Walk.antt =====
-- A client that follows the cursors of `Result`.
use mcpx.Base.{
  ℕ, zero, suc, ◌+◌, ◌-◌, ◌≤◌, ◌≡◌, refl, ◌∙◌, ap, true, false, Option, none, some, [], ◌∷◌, ◌++◌,
  arith, Bool-cases, inl, inr, ltb, leb, length, take, drop, is_blank, length-drop, take-all,
  take-append-drop_add, Bytes, All, ◌<◌,
}
use mcpx.Operation.Page.{
  max_int, itoa, parse_cursor, Document, whole, part, ResultPage, effective_limit, min_offset,
  page_at, result_page,
}
use mcpx.Operation.Page.Cursor.{IsNumber, itoa-IsNumber, parse_cursor-itoa}

abbrev pub content : Document → Bytes
content (whole b) = b
content (part b offset next more) = b

abbrev pub prepend : Bytes → Option Bytes → Option Bytes
prepend b none = none
prepend b (some r) = some (b ++ r)

abbrev join_rest : (Bytes → Option Bytes) → Bytes → Bytes → Option Bytes
join_rest next b [] = some b
join_rest next b (c ∷ s) = prepend b (next (c ∷ s))

abbrev walk_page : (Bytes → Option Bytes) → Option ResultPage → Option Bytes
walk_page next none = none
walk_page next (some p) = join_rest next (content p.document) p.next_cursor

-- Ask for pages from a cursor on until a page has no next cursor, and join what they hold.
unfoldable pub walk : (Bytes → Bytes) → ℕ → Bytes → ℕ → Bytes → Option Bytes
walk encoded zero raw limit cursor = none
walk encoded (suc f) raw limit cursor =
    walk_page (walk encoded f raw limit) (result_page encoded raw cursor limit)

effective_limit_pos : (limit : ℕ) → 0 < effective_limit limit
unfolding effective_limit
effective_limit_pos limit = ground arith

-- The page of a result that does not fit.
result_page_big :
    (encoded : Bytes → Bytes) (raw cursor : Bytes) (limit o : ℕ)
    → leb (length raw) (effective_limit limit) ≡ false
    → parse_cursor cursor ≡ some o
    → result_page encoded raw cursor limit ≡ some (page_at encoded raw (effective_limit limit) o)
unfolding result_page
result_page_big encoded raw cursor limit o big p = ground arith

page_at_more :
    (encoded : Bytes → Bytes) (raw : Bytes) (l o : ℕ)
    → o + l < length raw
    → page_at encoded raw l o ≡ record {
      document = part (encoded (take l (drop o raw))) o (o + l) true;
      next_cursor = itoa (o + l);
    }
unfolding page_at
page_at_more encoded raw l o h =
    let k : o + l - o ≡ l = omega arith in
    let a : ltb (length raw) o ≡ false = ground arith in
    let b : ltb (length raw) (o + l) ≡ false = ground arith in
    let c : ltb (o + l) (length raw) ≡ true = ground arith in simp (a, b, c, k)

page_at_last :
    (encoded : Bytes → Bytes) (raw : Bytes) (l o : ℕ)
    → o ≤ length raw
    → length raw ≤ o + l
    → page_at encoded raw l o
      ≡ record { document = part (encoded (drop o raw)) o (length raw) false; next_cursor = [] }
unfolding page_at
page_at_last encoded raw l o h k =
    let a : ltb (length raw) o ≡ false = ground arith in
    let b : min_offset (o + l) (length raw) ≡ length raw = ground arith in
    let c : ltb (length raw) (length raw) ≡ false = ground arith in
    let d : take (length raw - o) (drop o raw) ≡ drop o raw =
      take-all (length raw - o) (drop o raw) (omega (arith, length-drop o raw)) in
    simp (a, b, c, d)

join_rest_number :
    (next : Bytes → Option Bytes) (b c : Bytes)
    → IsNumber c
    → join_rest next b c ≡ prepend b (next c)
join_rest_number next b [] h = absurd h
join_rest_number next b (c ∷ s) h = refl

-- A character whose encoding is one byte.
abbrev pub IsAscii : ℕ → Type 0
IsAscii c = c < 128

take-IsAscii : (n : ℕ) (s : Bytes) → All IsAscii s → All IsAscii (take n s)
take-IsAscii zero s h = tt
take-IsAscii (suc n) [] h = tt
take-IsAscii (suc n) (c ∷ s) (h, hs) = (h, take-IsAscii n s hs)

drop-IsAscii : (n : ℕ) (s : Bytes) → All IsAscii s → All IsAscii (drop n s)
drop-IsAscii zero s h = h
drop-IsAscii (suc n) [] h = tt
drop-IsAscii (suc n) (c ∷ s) (h, hs) = drop-IsAscii n s hs

module _ (encoded : Bytes → Bytes) (plain : (s : Bytes) → All IsAscii s → encoded s ≡ s) where
  walk_from :
      (f : ℕ) (raw : Bytes) (limit : ℕ) (cursor : Bytes) (o : ℕ)
      → All IsAscii raw
      → length raw ≤ max_int
      → leb (length raw) (effective_limit limit) ≡ false
      → parse_cursor cursor ≡ some o
      → o ≤ length raw
      → length raw - o < f
      → walk encoded f raw limit cursor ≡ some (drop o raw)
  unfolding walk
  walk_from zero raw limit cursor o ascii small big p fits room = absurd (omega arith)
  walk_from (suc f) raw limit cursor o ascii small big p fits room =
      elim (Bool-cases (ltb (o + effective_limit limit) (length raw))) [
        | inl more ↦
            let l = effective_limit limit in
            let more' : o + effective_limit limit < length raw = ground arith in
            rw
              (
                result_page_big encoded raw cursor limit o big p,
                page_at_more encoded raw (effective_limit limit) o more',
                plain (take l (drop o raw))
                    (take-IsAscii l (drop o raw) (drop-IsAscii o raw ascii)),
              )
              (join_rest_number (walk encoded f raw limit) (take l (drop o raw)) (itoa (o + l))
                  (itoa-IsNumber (o + l))
                ∙ ap (prepend (take l (drop o raw))) (
                    walk_from f raw limit (itoa (o + l)) (o + l) ascii small big
                      (parse_cursor-itoa (o + l) (omega arith)) (omega arith)
                      (omega (arith, effective_limit_pos limit)))
                ∙ ap some (take-append-drop_add o l raw))
        | inr last ↦ rw (
          result_page_big encoded raw cursor limit o big p,
          page_at_last encoded raw (effective_limit limit) o fits (ground arith),
          plain (drop o raw) (drop-IsAscii o raw ascii),
        )
      ]

  -- Where the encoding of a string keeps a text of ASCII characters, following the cursors from the
  -- start yields a stored result of such characters, whole and in order, whatever the limit; as many
  -- requests as the result has bytes, and one more, are always enough.
  pub walk_whole :
      (raw : Bytes) (limit fuel : ℕ)
      → All IsAscii raw
      → length raw ≤ max_int
      → length raw < fuel
      → walk encoded fuel raw limit [] ≡ some raw
  walk_whole raw limit zero ascii small room = absurd (omega arith)
  walk_whole raw limit (suc f) ascii small room =
      elim (Bool-cases (leb (length raw) (effective_limit limit))) [
        | inl fits ↦ unfold walk result_page in rw fits
        | inr big ↦
            walk_from (suc f) raw limit [] 0 ascii small big (unfold parse_cursor is_blank in refl)
              (omega arith) (omega arith)
      ]
