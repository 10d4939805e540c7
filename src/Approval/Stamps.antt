-- ===== src/Approval/Stamps.antt =====
-- The calls keep the times of the table.
use mcpx.Base.{
  ltb, ℕ, ◌≡◌, refl, Bool, true, false, Option, none, some, List, [], ◌∷◌, inl, inr, arith,
  Bool-cases, Bytes, str_eq, All,
}
use mcpx.Approval.Store.{
  Pending, Row, Store, unix_milli, prune, get_pending, remove_row, add_row, filled, new_row,
  insert_item, fold_item, put_filled, put_pending, consume_row, consume_rows, has_live, take_item,
  take_found, consume, get, list_remote_session,
}
use mcpx.Approval.Once.{Call, putting, consuming, getting, listing, call, rows_of}
use mcpx.Approval.Fresh.{IsStamped, prune_stamps}

consume_stamps :
    (id : Bytes) (now : ℕ) (rows : List Row)
    → All IsStamped rows
    → All IsStamped (consume_rows id now rows)
unfolding consume_rows consume_row
consume_stamps id now [] h = tt
consume_stamps id now (r ∷ rows) (h, hs) = (ground arith, consume_stamps id now rows hs)

remove_stamps :
    (id : Bytes) (rows : List Row) → All IsStamped rows → All IsStamped (remove_row id rows)
unfolding remove_row
remove_stamps id [] h = tt
remove_stamps id (r ∷ rows) (h, hs) = elim (Bool-cases (str_eq r.payload.id id)) [
  | inl m ↦ rw (m) (remove_stamps id rows hs)
  | inr m ↦ rw (m) (h, remove_stamps id rows hs)
]

add_stamps :
    (r : Row) (rows : List Row) → IsStamped r → All IsStamped rows → All IsStamped (add_row r rows)
unfolding add_row
add_stamps r [] h hs = (h, tt)
add_stamps r (q ∷ rows) h (k, ks) =
    elim (Bool-cases (ltb (unix_milli r.payload.created_at) (unix_milli q.payload.created_at))) [
      | inl e ↦ rw (e) (h, (k, ks))
      | inr e ↦ rw (e) (k, add_stamps r rows h ks)
    ]

insert_stamps :
    (fails : Bool) (p : Pending) (s : Store) (db : Option (List Row))
    → All IsStamped (rows_of s.db)
    → s.db ≡ db
    → All IsStamped (rows_of (insert_item fails p s db).0.db)
unfolding insert_item new_row
insert_stamps fails p s none h e = h
insert_stamps true p s (some rows) h e = h
insert_stamps false p s (some rows) h e =
    add_stamps (new_row p) (remove_row p.id rows) refl (remove_stamps p.id rows (rw e at h))

fold_stamps :
    (fails : Bool) (p : Pending) (s : Store) (o : Option Pending)
    → All IsStamped (rows_of s.db)
    → All IsStamped (rows_of (fold_item fails p s o).0.db)
unfolding fold_item
fold_stamps fails p s (some q) h = h
fold_stamps fails p s none h = insert_stamps fails p s s.db h refl

take_item_stamps :
    (fails : Bool) (later : ℕ) (id : Bytes) (p : Pending) (s : Store) (db : Option (List Row))
    → s.db ≡ db
    → All IsStamped (rows_of db)
    → All IsStamped (rows_of (take_item fails later id p s db).0.db)
unfolding take_item
take_item_stamps fails later id p s none e h = rw e tt
take_item_stamps true later id p s (some rows) e h = rw e h
take_item_stamps false later id p s (some rows) e h =
    elim (Bool-cases (has_live id (unix_milli later) rows)) [
      | inl m ↦ rw (m) (consume_stamps id (unix_milli later) rows h)
      | inr m ↦ rw (m) (consume_stamps id (unix_milli later) rows h)
    ]

take_stamps :
    (fails : Bool) (later : ℕ) (id : Bytes) (s : Store) (o : Option Pending)
    → All IsStamped (rows_of s.db)
    → All IsStamped (rows_of (take_found fails later id s o).0.db)
unfolding take_found
take_stamps fails later id s none h = h
take_stamps fails later id s (some p) h = take_item_stamps fails later id p s s.db refl h

pub call_stamps :
    (c : Call) (s : Store) → All IsStamped (rows_of s.db) → All IsStamped (rows_of (call c s).0.db)
unfolding call put_pending put_filled consume get list_remote_session prune
call_stamps (putting prune_fails find_fails fails fresh_id fresh_token now later created p) s h =
    fold_stamps fails (filled fresh_id fresh_token now created p) (prune prune_fails now s) _
      (prune_stamps prune_fails now s.db h)
call_stamps (consuming prune_fails get_fails fails now later id) s h =
    take_stamps fails later id (prune prune_fails now s)
      (get_pending get_fails later id (prune prune_fails now s))
      (prune_stamps prune_fails now s.db h)
call_stamps (getting prune_fails get_fails now later id) s h = prune_stamps prune_fails now s.db h
call_stamps (listing prune_fails fails now later session) s h = prune_stamps prune_fails now s.db h
