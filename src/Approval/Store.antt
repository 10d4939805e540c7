-- ===== src/Approval/Store.antt =====
-- internal/approval/store.go. A store has the map in memory and, if it is persistent, the table of a
-- database that other processes use too. Times are nanoseconds, and milliseconds in the table; each
-- operation reads the clock at `now` and again at `later`. The random IDs are arguments. The payload
-- of a row is the item itself, since its encoding as JSON is read back by the same type.
use Prim.Native.Nat.{◌/◌}
use mcpx.Base.{
  ℕ, ◌+◌, ◌-◌, ◌*◌, Bool, true, false, not, ◌&&◌, Option, none, some, List, [], ◌∷◌, ◌++◌,
  if◌then◌else◌, ltb, leb, any, Bytes, codes, str_eq,
}

pub record DeleteFile : Type 0 where
  pub path : Bytes
  pub sha256 : Bytes
  pub size : ℕ

pub record Pending : Type 0 where
  pub id : Bytes
  pub tool : Bytes
  pub summary : Bytes
  pub command : Bytes
  pub command_yield_ms : ℕ
  pub purpose : Bytes
  pub scope : Bytes
  pub command_digest : Bytes
  pub work_dir : Bytes
  pub request_id : Bytes
  pub workspace : Bytes
  pub remote_session : Bytes
  pub principal : Bytes
  pub confirmation_token : Bytes
  pub content_key : Bytes
  pub delete_files : List DeleteFile
  pub created_at : ℕ

pub data RowStatus : Type 0 where
  is_pending is_consumed is_expired : RowStatus

-- A row of the table `approvals`.
pub record Row : Type 0 where
  pub payload : Pending
  pub status : RowStatus
  pub expires_at : ℕ
  pub consumed_at : Option ℕ

pub record Store : Type 0 where
  pub by_id : List Pending
  pub db : Option (List Row)

-- In nanoseconds.
abbrev pub pending_ttl : ℕ
pending_ttl = 30 * 60 * 1000000000

abbrev pub unix_milli : ℕ → ℕ
unix_milli t = t / 1000000

pub content_key_of : Pending → Bytes
content_key_of p =
    if str_eq p.tool (codes "command_execute")
    then p.principal ++ 0 ∷ p.command ++ 0 ∷ p.scope
    else if str_eq p.tool (codes "edit_delete")
    then p.content_key
    else []

abbrev pub is_open : RowStatus → Bool
is_open is_pending = true
is_open _ = false

-- `status = 'pending' AND expires_at > ?`
unfoldable pub is_live : ℕ → Row → Bool
is_live now r = is_open r.status && ltb now r.expires_at

unfoldable pub prune_map : ℕ → List Pending → List Pending
prune_map now [] = []
prune_map now (p ∷ items) =
    let rest = prune_map now items in
    if leb pending_ttl (now - p.created_at) then rest else p ∷ rest

unfoldable pub expire_row : ℕ → Row → Row
expire_row now r =
    if is_open r.status && leb r.expires_at now then record r { status = is_expired } else r

unfoldable pub map_rows : (Row → Row) → List Row → List Row
map_rows f [] = []
map_rows f (r ∷ rows) = f r ∷ map_rows f rows

-- pruneLocked; `fails` is whether its UPDATE fails, which is ignored.
unfoldable pub prune_rows : Bool → ℕ → Option (List Row) → Option (List Row)
unfolding map_rows expire_row
prune_rows fails now none = none
prune_rows fails now (some rows) =
    some (if fails then rows else map_rows (expire_row (unix_milli now)) rows)

unfoldable pub prune : Bool → ℕ → Store → Store
unfolding prune_map prune_rows
prune fails now s = record { by_id = prune_map now s.by_id; db = prune_rows fails now s.db }

unfoldable pub find_in : (Pending → Bool) → List Pending → Option Pending
find_in test [] = none
find_in test (p ∷ items) = if test p then some p else find_in test items

-- A SELECT of the first live row.
unfoldable pub live_row : (Pending → Bool) → ℕ → List Row → Option Pending
unfolding is_live
live_row test now [] = none
live_row test now (r ∷ rows) =
    if test r.payload && is_live now r then some r.payload else live_row test now rows

unfoldable pub or_row :
    Bool → (Pending → Bool) → ℕ → Option Pending → Option (List Row) → Option Pending
unfolding live_row
or_row fails test now (some p) rows = some p
or_row fails test now none none = none
or_row fails test now none (some rows) = if fails then none else live_row test (unix_milli now) rows

abbrev pub same_content : Bytes → Bytes → Pending → Bool
same_content session key p = str_eq p.remote_session session && str_eq p.content_key key

-- findPendingLocked
unfoldable pub find_pending : Bool → ℕ → Bytes → Bytes → Store → Option Pending
unfolding find_in or_row
find_pending fails later session key s =
    or_row fails (same_content session key) later (find_in (same_content session key) s.by_id) s.db

abbrev pub has_id : Bytes → Pending → Bool
has_id id p = str_eq p.id id

-- getLocked
unfoldable pub get_pending : Bool → ℕ → Bytes → Store → Option Pending
unfolding find_in or_row
get_pending fails later id s = or_row fails (has_id id) later (find_in (has_id id) s.by_id) s.db

-- delete(s.byID, id)
unfoldable pub remove_id : Bytes → List Pending → List Pending
remove_id id [] = []
remove_id id (p ∷ items) =
    let rest = remove_id id items in if str_eq p.id id then rest else p ∷ rest

unfoldable pub remove_row : Bytes → List Row → List Row
remove_row id [] = []
remove_row id (r ∷ rows) =
    let rest = remove_row id rows in if str_eq r.payload.id id then rest else r ∷ rest

abbrev pub or_new : Bytes → Bytes → Bytes
or_new [] fresh = fresh
or_new (c ∷ s) fresh = c ∷ s

-- What PutPending fills in; `created` is the item's own time, none for the zero time.
unfoldable pub filled : Bytes → Bytes → ℕ → Option ℕ → Pending → Pending
unfolding content_key_of
filled fresh_id fresh_token now created p = record p {
  id = or_new p.id fresh_id;
  created_at = elim created [ none ↦ now | some t ↦ t ];
  content_key = or_new p.content_key (content_key_of p);
  confirmation_token = or_new p.confirmation_token fresh_token;
}

pub data PutResult : Type 0 where
  stored existing : Pending → PutResult
  not_stored : PutResult

unfoldable pub new_row : Pending → Row
new_row p = record {
  payload = p;
  status = is_pending;
  expires_at = unix_milli (p.created_at + pending_ttl);
  consumed_at = none;
}

-- The rows stand in the order of `created_at`, by which the queries sort them.
unfoldable pub add_row : Row → List Row → List Row
add_row r [] = r ∷ []
add_row r (q ∷ rows) =
    let rest = add_row r rows in
    if ltb (unix_milli r.payload.created_at) (unix_milli q.payload.created_at)
    then r ∷ q ∷ rows
    else q ∷ rest

-- INSERT OR REPLACE, and the map.
unfoldable pub insert_item : Bool → Pending → Store → Option (List Row) → Store × PutResult
unfolding new_row add_row
insert_item fails p s none = (record s { by_id = p ∷ remove_id p.id s.by_id }, stored p)
insert_item fails p s (some rows) = if fails then (s, not_stored) else (
  record {
    by_id = p ∷ remove_id p.id s.by_id;
    db = some (add_row (new_row p) (remove_row p.id rows));
  },
  stored p,
)

unfoldable pub fold_item : Bool → Pending → Store → Option Pending → Store × PutResult
unfolding insert_item
fold_item fails p s (some old) = (s, existing old)
fold_item fails p s none = insert_item fails p s s.db

-- An item past its time is not folded onto one that waits.
unfoldable pub put_filled : Bool → Bool → ℕ → ℕ → Pending → Store → Store × PutResult
unfolding fold_item find_pending
put_filled find_fails fails now later p s = fold_item fails p s (
    if not (str_eq p.content_key []) && ltb (now - p.created_at) pending_ttl
    then find_pending find_fails later p.remote_session p.content_key s
    else none)

-- PutPending
unfoldable pub put_pending :
    Bool → Bool → Bool → Bytes → Bytes → ℕ → ℕ → Option ℕ → Pending → Store → Store × PutResult
unfolding put_filled filled prune
put_pending prune_fails find_fails fails fresh_id fresh_token now later created p s =
    put_filled find_fails fails now later (filled fresh_id fresh_token now created p)
      (prune prune_fails now s)

unfoldable pub consume_row : ℕ → Row → Row
consume_row now r = record r { status = is_consumed; consumed_at = some now }

unfoldable pub consume_rows : Bytes → ℕ → List Row → List Row
unfolding is_live consume_row
consume_rows id now [] = []
consume_rows id now (r ∷ rows) =
    (if str_eq r.payload.id id && is_live now r then consume_row now r else r)
    ∷ consume_rows id now rows

unfoldable pub has_live : Bytes → ℕ → List Row → Bool
unfolding is_live
has_live id now rows = any (λ (r : Row). str_eq r.payload.id id && is_live now r) rows

-- Behind a successful look-up. The ID is the primary key: the UPDATE affects one row or none.
unfoldable pub take_item :
    Bool → ℕ → Bytes → Pending → Store → Option (List Row) → Store × Option Pending
unfolding has_live consume_rows
take_item fails later id p s none = (record s { by_id = remove_id id s.by_id }, some p)
take_item fails later id p s (some rows) =
    if fails
    then (s, none)
    else if has_live id (unix_milli later) rows
    then (
      record { by_id = remove_id id s.by_id; db = some (consume_rows id (unix_milli later) rows) },
      some p,
    )
    else (record s { db = some (consume_rows id (unix_milli later) rows) }, none)

unfoldable pub take_found : Bool → ℕ → Bytes → Store → Option Pending → Store × Option Pending
unfolding take_item
take_found fails later id s none = (s, none)
take_found fails later id s (some p) = take_item fails later id p s s.db

-- Consume
unfoldable pub consume : Bool → Bool → Bool → ℕ → ℕ → Bytes → Store → Store × Option Pending
unfolding take_found get_pending prune
consume prune_fails get_fails fails now later id s =
    let t = prune prune_fails now s in
    take_found fails later id t (get_pending get_fails later id t)

-- Get
unfoldable pub get : Bool → Bool → ℕ → ℕ → Bytes → Store → Store × Option Pending
unfolding get_pending prune
get prune_fails get_fails now later id s =
    let t = prune prune_fails now s in (t, get_pending get_fails later id t)

unfoldable pub session_items : Bytes → List Pending → List Pending
session_items session [] = []
session_items session (p ∷ items) =
    let rest = session_items session items in
    if str_eq p.remote_session session then p ∷ rest else rest

unfoldable pub session_rows : Bytes → ℕ → List Row → List Pending
unfolding is_live
session_rows session now [] = []
session_rows session now (r ∷ rows) =
    let rest = session_rows session now rows in
    if str_eq r.payload.remote_session session && is_live now r then r.payload ∷ rest else rest

unfoldable pub list_from : Bool → ℕ → Bytes → List Pending → Option (List Row) → List Pending
unfolding session_items session_rows
list_from fails later session items none = session_items session items
list_from fails later session items (some rows) =
    if fails then [] else session_rows session (unix_milli later) rows

-- ListRemoteSession
unfoldable pub list_remote_session : Bool → Bool → ℕ → ℕ → Bytes → Store → Store × List Pending
unfolding list_from prune
list_remote_session prune_fails fails now later session s =
    let t = prune prune_fails now s in (t, list_from fails later session t.by_id t.db)
