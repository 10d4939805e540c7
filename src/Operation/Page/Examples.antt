-- ===== src/Operation/Page/Examples.antt =====
-- Short results and their cursors, and a result whose page border cuts a character.
use mcpx.Base.{
  ◌≡◌, refl, some, none, true, [], ◌∷◌, ◌++◌, arith, codes, is_blank, Bytes, if◌then◌else◌, ltb,
  All,
}
use mcpx.Operation.Page.{itoa, parse_cursor, result_page, part}
use mcpx.Operation.Page.Cursor.{parse_cursor-itoa}
use mcpx.Operation.Page.Walk.{IsAscii, walk, walk_whole}

-- An encoding that puts U+FFFD in place of every byte that is not ASCII.
abbrev replacing : Bytes → Bytes
replacing [] = []
replacing (c ∷ s) = (if ltb c 128 then c ∷ [] else 239 ∷ 191 ∷ 189 ∷ []) ++ replacing s

replacing_plain : (s : Bytes) → All IsAscii s → replacing s ≡ s
replacing_plain [] h = refl
replacing_plain (c ∷ s) (h, hs) = let rest = replacing_plain s hs in ground arith

first_page :
    result_page replacing (codes "abcde") [] 2
    ≡ some (record { document = part (codes "ab") 0 2 true; next_cursor = codes "2" })
unfolding result_page parse_cursor is_blank
first_page = refl

negative_cursor : parse_cursor (codes "-1") ≡ none
unfolding parse_cursor is_blank
negative_cursor = refl

parse_cursor-itoa_example : parse_cursor (itoa 65536) ≡ some 65536
parse_cursor-itoa_example = parse_cursor-itoa 65536 (omega arith)

walk_whole_example : walk replacing 6 (codes "abcde") 2 [] ≡ some (codes "abcde")
walk_whole_example =
    walk_whole replacing replacing_plain (codes "abcde") 2 6
      (omega arith, (omega arith, (omega arith, (omega arith, (omega arith, tt))))) (omega arith)
      (omega arith)

-- The two bytes of a character on two pages do not come back.
cut_character :
    walk replacing 3 (195 ∷ 169 ∷ []) 1 [] ≡ some (239 ∷ 191 ∷ 189 ∷ 239 ∷ 191 ∷ 189 ∷ [])
unfolding walk result_page parse_cursor is_blank
cut_character = refl
