-- ===== src/Approval/Once.antt =====
-- Processes that share the table, and how often an item is consumed.
use mcpx.Base.{
  ℕ, ◌+◌, ◌-◌, ◌≤◌, ◌≡◌, refl, Bool, true, false, not, ◌&&◌, Option, none, some, List, [], ◌∷◌,
  if◌then◌else◌, ltb, inl, inr, arith, sym, str_eq→eq, Bool-cases, Bytes, str_eq,
}
use mcpx.Approval.Store.{
  Pending, Row, Store, PutResult, stored, is_open, is_live, pending_ttl, unix_milli, map_rows,
  expire_row, prune_rows, prune, find_pending, get_pending, remove_row, add_row, filled, new_row,
  insert_item, fold_item, put_filled, put_pending, consume_row, consume_rows, has_live, take_item,
  take_found, consume, get, list_remote_session,
}

-- A call, with what the clock, the random source and the database give it.
pub data Call : Type 0 where
  putting :
      (prune_fails find_fails fails : Bool) (fresh_id fresh_token : Bytes) (now later : ℕ)
      (created : Option ℕ) (p : Pending)
      → Call
  consuming : (prune_fails get_fails fails : Bool) (now later : ℕ) (id : Bytes) → Call
  getting : (prune_fails get_fails : Bool) (now later : ℕ) (id : Bytes) → Call
  listing : (prune_fails fails : Bool) (now later : ℕ) (session : Bytes) → Call

pub data Answer : Type 0 where
  of_put : PutResult → Answer
  of_item : Option Pending → Answer
  of_items : List Pending → Answer

unfoldable pub call : Call → Store → Store × Answer
unfolding put_pending consume get list_remote_session
call (putting prune_fails find_fails fails fresh_id fresh_token now later created p) s =
    let (t, r) =
      put_pending prune_fails find_fails fails fresh_id fresh_token now later created p s in
    (t, of_put r)
call (consuming prune_fails get_fails fails now later id) s =
    let (t, r) = consume prune_fails get_fails fails now later id s in (t, of_item r)
call (getting prune_fails get_fails now later id) s =
    let (t, r) = get prune_fails get_fails now later id s in (t, of_item r)
call (listing prune_fails fails now later session) s =
    let (t, r) = list_remote_session prune_fails fails now later session s in (t, of_items r)

abbrev pub rows_of : Option (List Row) → List Row
rows_of none = []
rows_of (some rows) = rows

abbrev pub store_of : List Pending → List Row → Store
store_of items rows = record { by_id = items; db = some rows }

abbrev pub one_if : Bool → ℕ
one_if true = 1
one_if false = 0

-- Whether the call is a successful Consume of the ID, or stored an item of it.
unfoldable pub takes : Bytes → Call → Answer → ℕ
takes id (consuming _ _ _ _ _ i) (of_item (some p)) = one_if (str_eq i id)
takes id _ _ = 0

unfoldable pub puts : Bytes → Answer → ℕ
puts id (of_put (stored p)) = one_if (str_eq p.id id)
puts id _ = 0

-- Calls one behind another on one table, each by a process with a map of its own, which is arbitrary.
unfoldable pub taken : Bytes → List (List Pending × Call) → List Row → ℕ
unfolding call takes
taken id [] rows = 0
taken id ((items, c) ∷ calls) rows =
    let (t, r) = call c (store_of items rows) in takes id c r + taken id calls (rows_of t.db)

pub put_count : Bytes → List (List Pending × Call) → List Row → ℕ
unfolding call puts
put_count id [] rows = 0
put_count id ((items, c) ∷ calls) rows =
    let (t, r) = call c (store_of items rows) in puts id r + put_count id calls (rows_of t.db)

-- The number of rows of the ID that are pending.
pub waiting : Bytes → List Row → ℕ
waiting id [] = 0
waiting id (r ∷ rows) = one_if (str_eq r.payload.id id && is_open r.status) + waiting id rows

abbrev counted : Bytes → Row → ℕ
counted id r = one_if (str_eq r.payload.id id && is_open r.status)

expire_counted : (id : Bytes) (now : ℕ) (r : Row) → counted id (expire_row now r) ≤ counted id r
unfolding expire_row
expire_counted id now r = ground arith

expire_waiting :
    (id : Bytes) (now : ℕ) (rows : List Row)
    → waiting id (map_rows (expire_row now) rows) ≤ waiting id rows
unfolding map_rows waiting
expire_waiting id now [] = omega arith
expire_waiting id now (r ∷ rows) =
    let head = expire_counted id now r in let tail = expire_waiting id now rows in omega arith

waiting-prune :
    (fails : Bool) (now : ℕ) (items : List Pending) (rows : List Row) (id : Bytes)
    → waiting id (rows_of (prune fails now (store_of items rows)).db) ≤ waiting id rows
unfolding prune prune_rows
waiting-prune true now items rows id = omega arith
waiting-prune false now items rows id = expire_waiting id (unix_milli now) rows

not_counted : (b : Bool) → one_if (b && false) ≡ 0
not_counted false = refl
not_counted true = refl

counted_open : (b : Bool) → one_if (b && true) ≡ one_if b
counted_open false = refl
counted_open true = refl

consume_waiting :
    (id i : Bytes) (now : ℕ) (rows : List Row)
    → waiting id (consume_rows i now rows) ≤ waiting id rows
unfolding consume_rows waiting consume_row
consume_waiting id i now [] = omega arith
consume_waiting id i now (r ∷ rows) =
    let tail = consume_waiting id i now rows in
    elim (Bool-cases (str_eq r.payload.id i && is_live now r)) [
      | inl m ↦ rw (m) (let closed = not_counted (str_eq r.payload.id id) in omega arith)
      | inr m ↦ rw (m) (omega arith)
    ]

-- An UPDATE that affects a row.
live_consumed :
    (id : Bytes) (now : ℕ) (rows : List Row)
    → has_live id now rows ≡ true
    → 1 + waiting id (consume_rows id now rows) ≤ waiting id rows
unfolding has_live consume_rows waiting consume_row is_live
live_consumed id now [] h = absurd (cc)
live_consumed id now (r ∷ rows) h =
    let rest = consume_waiting id id now rows in
    elim (Bool-cases (str_eq r.payload.id id && is_live now r)) [
      | inl m ↦ rw (m) (
          let closed = not_counted (str_eq r.payload.id id) in
          let open_row : one_if (str_eq r.payload.id id && is_open r.status) ≡ 1 = ground arith in
          omega arith)
      | inr m ↦ rw (m) (let tail = live_consumed id now rows (ground arith) in omega arith)
    ]

remove_waiting : (id i : Bytes) (rows : List Row) → waiting id (remove_row i rows) ≤ waiting id rows
unfolding remove_row waiting
remove_waiting id i [] = omega arith
remove_waiting id i (r ∷ rows) =
    let tail = remove_waiting id i rows in
    elim (Bool-cases (str_eq r.payload.id i)) [
      | inl m ↦ rw (m) (omega arith)
      | inr m ↦ rw (m) (omega arith)
    ]

waiting-add_row :
    (id : Bytes) (r : Row) (rows : List Row)
    → waiting id (add_row r rows) ≡ counted id r + waiting id rows
unfolding waiting add_row
waiting-add_row id r [] = omega arith
waiting-add_row id r (q ∷ rows) =
    let rest = waiting-add_row id r rows in
    elim (Bool-cases (ltb (unix_milli r.payload.created_at) (unix_milli q.payload.created_at))) [
      | inl e ↦ rw (e) (omega arith)
      | inr e ↦ rw (e) (omega arith)
    ]

insert_waiting :
    (fails : Bool) (p : Pending) (items : List Pending) (rows : List Row) (id : Bytes)
    → let (t, r) = insert_item fails p (store_of items rows) (some rows) in
      waiting id (rows_of t.db) ≤ puts id (of_put r) + waiting id rows
unfolding insert_item new_row waiting puts
insert_waiting true p items rows id = omega arith
insert_waiting false p items rows id =
    let removed = remove_waiting id p.id rows in
    let added = waiting-add_row id (new_row p) (remove_row p.id rows) in
    let new = counted_open (str_eq p.id id) in omega arith

fold_waiting :
    (fails : Bool) (p : Pending) (items : List Pending) (rows : List Row) (o : Option Pending)
    (id : Bytes)
    → let (t, r) = fold_item fails p (store_of items rows) o in
      waiting id (rows_of t.db) ≤ puts id (of_put r) + waiting id rows
unfolding fold_item puts
fold_waiting fails p items rows (some old) id = omega arith
fold_waiting fails p items rows none id = insert_waiting fails p items rows id

-- The rows behind the pruning of a call.
abbrev pruned : Bool → ℕ → List Row → List Row
pruned fails now rows = if fails then rows else map_rows (expire_row (unix_milli now)) rows

taken_waiting :
    (id i : Bytes) (now : ℕ) (rows : List Row)
    → has_live i now rows ≡ true
    → one_if (str_eq i id) + waiting id (consume_rows i now rows) ≤ waiting id rows
taken_waiting id i now rows live = elim (Bool-cases (str_eq i id)) [
  | inl m ↦
      let same = str_eq→eq i id m in
      rw (m) (rw same (live_consumed id now rows (rw (sym same) live)))
  | inr m ↦ rw (m) (let kept = consume_waiting id i now rows in omega arith)
]

taking_waiting :
    (prune_fails get_fails fails : Bool) (now later : ℕ) (i : Bytes) (items : List Pending)
    (rows : List Row) (o : Option Pending) (id : Bytes)
    → let (t, r) = take_found fails later i (store_of items rows) o in
      takes id (consuming prune_fails get_fails fails now later i) (of_item r)
        + waiting id (rows_of t.db)
      ≤ waiting id rows
unfolding take_found take_item takes
taking_waiting prune_fails get_fails fails now later i items rows none id = omega arith
taking_waiting prune_fails get_fails true now later i items rows (some p) id = omega arith
taking_waiting prune_fails get_fails false now later i items rows (some p) id =
    elim (Bool-cases (has_live i (unix_milli later) rows)) [
      | inl m ↦ rw (m) (taken_waiting id i (unix_milli later) rows m)
      | inr m ↦ rw (m) (let kept = consume_waiting id i (unix_milli later) rows in omega arith)
    ]

waiting-call :
    (c : Call) (items : List Pending) (rows : List Row) (id : Bytes)
    → let (t, r) = call c (store_of items rows) in
      takes id c r + waiting id (rows_of t.db) ≤ puts id r + waiting id rows
unfolding call takes puts put_pending put_filled consume get list_remote_session
waiting-call (putting prune_fails find_fails fails fresh_id fresh_token now later created p) items
      rows id =
    let before = waiting-prune prune_fails now items rows id in
    let q = filled fresh_id fresh_token now created p in
    let s = prune prune_fails now (store_of items rows) in
    let folded =
      fold_waiting fails q s.by_id (pruned prune_fails now rows)
        (if not (str_eq q.content_key []) && ltb (now - q.created_at) pending_ttl
          then find_pending find_fails later q.remote_session q.content_key s
          else none)
        id in
    omega arith
waiting-call (consuming prune_fails get_fails fails now later i) items rows id =
    let before = waiting-prune prune_fails now items rows id in
    let s = prune prune_fails now (store_of items rows) in
    let took =
      taking_waiting prune_fails get_fails fails now later i s.by_id (pruned prune_fails now rows)
        (get_pending get_fails later i s) id in
    omega arith
waiting-call (getting prune_fails get_fails now later i) items rows id =
    let before = waiting-prune prune_fails now items rows id in omega arith
waiting-call (listing prune_fails fails now later session) items rows id =
    let before = waiting-prune prune_fails now items rows id in omega arith

-- Processes that share one table of approvals, each with a map in memory of any content, consume the
-- items of an ID together at most as often as the ID was pending at first and was stored by them:
-- an item that is stored once is consumed at most once, whatever fails and whatever the clocks read.
pub consumed_once :
    (id : Bytes) (calls : List (List Pending × Call)) (rows : List Row)
    → taken id calls rows ≤ put_count id calls rows + waiting id rows
unfolding taken put_count
consumed_once id [] rows = omega arith
consumed_once id ((items, c) ∷ calls) rows =
    let (t, r) = call c (store_of items rows) in
    let step = waiting-call c items rows id in
    let rest = consumed_once id calls (rows_of t.db) in omega arith
