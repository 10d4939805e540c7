-- ===== src/Security/Segments.antt =====
-- internal/security/commands.go: `commandSegments` and `quotedHeredocCommandEnd`. The indices of
-- the loop become the unread rest of the command and `segment`, which is command[start:index];
-- `skip` stands for an `index++` inside a case.
pub mod Control
pub mod Examples
use mcpx.Base.{
  ℕ, Bool, true, false, not, ◌&&◌, ◌||◌, Option, none, some, List, [], ◌∷◌, ◌++◌, if◌then◌else◌,
  ◌==◌, Bytes, codes, str_eq, trim_space, is_blank,
}

-- `last` is the empty operator.
pub data Operator : Type 0 where
  and_then or_else pipe semicolon newline last : Operator

pub record CommandSegment : Type 0 where
  pub command : Bytes
  pub operator : Operator

pub data Segments : Type 0 where
  safe : List CommandSegment → Segments
  unsafe : Segments

pub record Scan : Type 0 where
  pub segments : List CommandSegment
  pub segment : Bytes
  pub quote : ℕ
  pub escaped : Bool
  pub skip : Bool
  pub last_operator : Operator

abbrev pub start : Scan
start = record {
  segments = [];
  segment = [];
  quote = 0;
  escaped = false;
  skip = false;
  last_operator = last;
}

pub data Outcome : Type 0 where
  next : Scan → Outcome
  stop : Segments → Outcome

-- strings.TrimSuffix(line, "\r")
trim_cr : Bytes → Bytes
trim_cr [] = []
trim_cr (c ∷ []) = if c == 13 then [] else c ∷ []
trim_cr (c ∷ d ∷ s) = c ∷ trim_cr (d ∷ s)

-- The loop over the lines of a heredoc's body; `line` is the line so far.
closes : Bytes → Bytes → Bytes → Bool
unfolding trim_cr
closes delimiter line [] = str_eq (trim_cr line) delimiter
closes delimiter line (c ∷ s) =
    let on = closes delimiter (line ++ c ∷ []) s in
    let down = closes delimiter [] s in
    if c == 10 then (if str_eq (trim_cr line) delimiter then is_blank s else down) else on

-- Behind a carriage return at the end of the first line.
after_return : Bytes → Bytes → Bool
unfolding closes
after_return delimiter [] = false
after_return delimiter (d ∷ s) = d == 10 && closes delimiter [] s

-- Behind the delimiter: blanks, and the end of the line.
opens_body : Bytes → Bytes → Bool
unfolding closes after_return
opens_body delimiter [] = false
opens_body delimiter (c ∷ s) =
    let further = opens_body delimiter s in
    if c == b' ' || c == 9
    then further
    else if c == 10
    then closes delimiter [] s
    else if c == 13
    then after_return delimiter s
    else false

-- The loop over the delimiter, up to its closing quote.
delimited : ℕ → Bytes → Bytes → Bool
unfolding opens_body
delimited quote delimiter [] = false
delimited quote delimiter (c ∷ s) =
    let further = delimited quote (delimiter ++ c ∷ []) s in
    if c == quote
    then not (str_eq delimiter []) && opens_body delimiter s
    else if c == 10 || c == 13
    then false
    else further

-- quotedHeredocCommandEnd, for the rest of the command behind the first `<`: where it succeeds the
-- end is that of the whole command.
unfoldable pub quoted_heredoc : Bytes → Bool
unfolding delimited
quoted_heredoc (a ∷ quote ∷ c ∷ s) =
    a == b'<' && (quote == 39 || quote == 34) && delimited quote [] (c ∷ s)
quoted_heredoc _ = false

-- appendSegment, and the reset of `start`.
pub append_segment : Operator → Scan → Option Scan
append_segment op st =
    let segment = trim_space st.segment in
    if str_eq segment []
    then none
    else some (record st {
      segments = st.segments ++ record { command = segment; operator = op } ∷ [];
      segment = [];
      last_operator = op;
    })

keep : ℕ → Scan → Scan
keep c st = record st { segment = st.segment ++ c ∷ [] }

split : Operator → Bool → Scan → Outcome
unfolding append_segment
split op skips st = elim (append_segment op st) [
  | none ↦ stop unsafe
  | some st' ↦ next (record st' { skip = skips })
]

abbrev starts_with : ℕ → Bytes → Bool
starts_with c [] = false
starts_with c (d ∷ s) = c == d

-- A line end: blank lines are passed over.
end_line : Bool → Scan → Outcome
unfolding split
end_line skips st =
    if is_blank st.segment
    then next (record st { segment = []; skip = skips })
    else split newline skips st

-- Inside double quotes.
in_double : ℕ → Bytes → Scan → Outcome
unfolding keep
in_double c rest st =
    if c == 92
    then next (keep c (record st { escaped = true }))
    else if c == 34
    then next (keep c (record st { quote = 0 }))
    else if c == 96
    then stop unsafe
    else if c == b'$' && starts_with b'(' rest
    then stop unsafe
    else next (keep c st)

heredoc : ℕ → Bytes → Scan → Outcome
unfolding append_segment
heredoc c rest st = elim (append_segment last (record st { segment = st.segment ++ c ∷ rest })) [
  | none ↦ stop unsafe
  | some st' ↦ stop (safe st'.segments)
]

-- Outside quotes.
unquoted : ℕ → Bytes → Scan → Outcome
unfolding keep split end_line heredoc
unquoted c rest st =
    if c == 92
    then next (keep c (record st { escaped = true }))
    else if c == 39 || c == 34
    then next (keep c (record st { quote = c }))
    else if c == b'|'
    then (if starts_with b'|' rest then split or_else true st else split pipe false st)
    else if c == b'<'
    then (if quoted_heredoc rest
        then heredoc c rest st
        else if starts_with b'<' rest
        then stop unsafe
        else next (keep c st))
    else if c == 96
    then stop unsafe
    else if c == 10
    then end_line false st
    else if c == 13
    then end_line (starts_with 10 rest) st
    else if c == b'$' && starts_with b'(' rest
    then stop unsafe
    else if c == b'&'
    then (if starts_with b'&' rest then split and_then true st else stop unsafe)
    else if c == b';'
    then split semicolon false st
    else next (keep c st)

-- The body of the loop at the byte `c`.
pub step : ℕ → Bytes → Scan → Outcome
unfolding keep in_double unquoted
step c rest st =
    if st.skip
    then next (record st { skip = false })
    else if st.escaped
    then next (keep c (record st { escaped = false }))
    else if st.quote == 39
    then next (keep c (record st { quote = if c == 39 then 0 else st.quote }))
    else if st.quote == 34
    then in_double c rest st
    else unquoted c rest st

dangling : Operator → Bool
dangling newline = false
dangling last = false
dangling _ = true

some_segments : List CommandSegment → Segments
some_segments [] = unsafe
some_segments (s ∷ segments) = safe (s ∷ segments)

-- Behind the loop.
pub finish : Scan → Segments
unfolding dangling some_segments
finish st =
    let tail = trim_space st.segment in
    if not (st.quote == 0) || st.escaped
    then unsafe
    else if not (str_eq tail [])
    then safe (st.segments ++ record { command = tail; operator = last } ∷ [])
    else if dangling st.last_operator
    then unsafe
    else some_segments st.segments

pub scan : Bytes → Scan → Segments
unfolding step finish
scan [] st = finish st
scan (c ∷ rest) st = elim (step c rest st) [ next st' ↦ scan rest st' | stop r ↦ r ]

-- commandSegments
unfoldable pub command_segments : Bytes → Segments
unfolding scan
command_segments command = scan command start
