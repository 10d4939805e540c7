-- ===== src/Operation/Page.antt =====
-- internal/operation/service.go: `Result`, the bounded pages of a stored result, and `parseCursor`.
-- A limit that is not positive is 0 here. The step's lookup is the caller's: `raw` is the document.
-- The parameter `encoded` is what encoding/json leaves of the bytes of a string: a page may cut a
-- character, and json.Marshal does not keep the bytes of half a character.
pub mod Cursor
pub mod Walk
pub mod Examples
use Prim.Native.Nat.{◌/◌, ◌%◌, ◌^◌}
use mcpx.Base.{
  ℕ, zero, suc, ◌+◌, ◌-◌, ◌*◌, ◌<◌, Bool, true, false, not, ◌&&◌, Option, none, some, List, [], ◌∷◌,
  if◌then◌else◌, ltb, leb, ◌==◌, length, take, drop, Bytes, is_blank,
}

abbrev pub default_result_bytes : ℕ
default_result_bytes = 65536

abbrev pub max_result_bytes : ℕ
max_result_bytes = 262144

-- The largest value of Go's int.
abbrev pub max_int : ℕ
max_int = 9223372036854775807

-- strconv.Itoa for an int that is not negative: 19 digits hold every such int.
digits : ℕ → ℕ → Bytes → Bytes
digits zero n out = out
digits (suc f) n out =
    let more = digits f (n / 10) ((b'0' + n % 10) ∷ out) in
    if ltb n 10 then (b'0' + n % 10) ∷ out else more

pub itoa : ℕ → Bytes
unfolding digits
itoa n = digits 19 n []

scan : Bytes → ℕ → Option ℕ
scan [] v = some v
scan (c ∷ s) v = if leb b'0' c && leb c b'9' then scan s (v * 10 + (c - b'0')) else none

-- The digits behind the sign: at least one.
magnitude : Bytes → Option ℕ
unfolding scan
magnitude [] = none
magnitude (c ∷ s) = scan (c ∷ s) 0

in_range : Option ℕ → Option ℕ
in_range none = none
in_range (some v) = if leb v max_int then some v else none

is_zero : Option ℕ → Option ℕ
is_zero none = none
is_zero (some v) = if v == 0 then some 0 else none

-- strconv.Atoi followed by the test for a negative value: `-0` is the only accepted text with a
-- minus sign, up to leading zeros.
natural : Bytes → Option ℕ
unfolding magnitude in_range is_zero
natural [] = none
natural (c ∷ s) =
    if c == b'-'
    then is_zero (magnitude s)
    else if c == b'+'
    then in_range (magnitude s)
    else in_range (magnitude (c ∷ s))

-- parseCursor
unfoldable pub parse_cursor : Bytes → Option ℕ
unfolding natural
parse_cursor cursor = if is_blank cursor then some 0 else natural cursor

-- The document of a page: the whole result, or the object with the chunk and the offsets.
pub data Document : Type 0 where
  whole : Bytes → Document
  part : Bytes → ℕ → ℕ → Bool → Document

pub record ResultPage : Type 0 where
  pub document : Document
  pub next_cursor : Bytes

pub effective_limit : ℕ → ℕ
effective_limit limit =
    let l = if limit == 0 then default_result_bytes else limit in
    if ltb max_result_bytes l then max_result_bytes else l

abbrev min_offset : ℕ → ℕ → ℕ
min_offset a b = if ltb b a then b else a

-- The page of `raw` at an offset, for a result that does not fit.
page_at : (Bytes → Bytes) → Bytes → ℕ → ℕ → ResultPage
unfolding itoa
page_at encoded raw limit cursor_offset =
    let offset = min_offset cursor_offset (length raw) in
    let end = min_offset (offset + limit) (length raw) in
    record {
      document =
          part (encoded (take (end - offset) (drop offset raw))) offset end (ltb end (length raw));
      next_cursor = if ltb end (length raw) then itoa end else [];
    }

-- Result: `none` is the error of an invalid cursor.
unfoldable pub result_page : (Bytes → Bytes) → Bytes → Bytes → ℕ → Option ResultPage
unfolding effective_limit page_at
result_page encoded raw cursor limit =
    let l = effective_limit limit in
    if leb (length raw) l
    then some (record { document = whole raw; next_cursor = [] })
    else elim (parse_cursor cursor) [
      | none ↦ none
      | some offset ↦ some (page_at encoded raw l offset)
    ]
