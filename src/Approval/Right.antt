-- ===== src/Approval/Right.antt =====
-- What one call answers.
use mcpx.Base.{
  ℕ, ◌-◌, ◌≤◌, ◌≡◌, refl, Bool, true, false, not, ◌&&◌, Option, none, some, List, [], ◌∷◌, ltb, leb,
  inl, inr, arith, Bool-cases, Bytes, str_eq, str_eq→eq, All,
}
use mcpx.Approval.Store.{
  Pending, Row, Store, PutResult, stored, existing, not_stored, is_live, unix_milli, pending_ttl,
  prune_map, same_content, has_id, session_items, session_rows, list_from, prune_rows, prune,
  find_pending, get_pending, filled, insert_item, fold_item, put_filled, put_pending, has_live,
  take_item, take_found, consume, get, list_remote_session,
}
use mcpx.Approval.Once.{
  Call, putting, consuming, getting, listing, Answer, of_put, of_item, of_items, call, rows_of,
}
use mcpx.Approval.Fresh.{IsStamped, InTime, or_found, prune_stamps, live_InTime}

abbrev pub is_ordered : Call → Bool
is_ordered (putting _ _ _ _ _ now later _ _) = leb now later
is_ordered (consuming _ _ _ now later _) = leb now later
is_ordered (getting _ _ now later _) = leb now later
is_ordered (listing _ _ now later _) = leb now later

-- A stored item is the given one. An item that the given one is folded onto is of the same session and
-- content, and the thirty minutes of neither are over when the call starts.
abbrev pub RightPut : ℕ → Pending → PutResult → Type 0
RightPut now p (stored q) = q ≡ p
RightPut now p (existing q) =
    (q.remote_session ≡ p.remote_session)
    × (q.content_key ≡ p.content_key)
    × (str_eq p.content_key [] ≡ false)
    × InTime now q
    × InTime now p
RightPut now p not_stored = Unit

abbrev pub RightItem : ℕ → Bytes → Option Pending → Type 0
RightItem now id none = Unit
RightItem now id (some p) = (p.id ≡ id) × InTime now p

pub Right : Call → Answer → Type 0
unfolding filled
Right (putting _ _ _ fresh_id fresh_token now later created p) (of_put r) =
    RightPut now (filled fresh_id fresh_token now created p) r
Right (consuming _ _ _ now later id) (of_item o) = RightItem now id o
Right (getting _ _ now later id) (of_item o) = RightItem now id o
Right (listing _ _ now later session) (of_items items) =
    All (λ (p : Pending). (p.remote_session ≡ session) × InTime now p) items
Right _ _ = ⊥

found_item :
    (now : ℕ) (id : Bytes) (o : Option Pending)
    → ((p : Pending) → o ≡ some p → (has_id id p ≡ true) × InTime now p)
    → RightItem now id o
found_item now id none h = tt
found_item now id (some p) h = let (same, fresh) = h p refl in (str_eq→eq p.id id same, fresh)

take_item_Right :
    (fails : Bool) (now later : ℕ) (id : Bytes) (p : Pending) (s : Store) (db : Option (List Row))
    → RightItem now id (some p)
    → RightItem now id (take_item fails later id p s db).1
unfolding take_item
take_item_Right fails now later id p s none h = h
take_item_Right true now later id p s (some rows) h = tt
take_item_Right false now later id p s (some rows) h =
    elim (Bool-cases (has_live id (unix_milli later) rows)) [ inl m ↦ rw (m) h | inr m ↦ rw (m) tt ]

take_Right :
    (fails : Bool) (now later : ℕ) (id : Bytes) (s : Store) (o : Option Pending)
    → RightItem now id o
    → RightItem now id (take_found fails later id s o).1
unfolding take_found
take_Right fails now later id s none h = tt
take_Right fails now later id s (some p) h = take_item_Right fails now later id p s s.db h

insert_Right :
    (fails : Bool) (now : ℕ) (p : Pending) (s : Store) (db : Option (List Row))
    → RightPut now p (insert_item fails p s db).1
unfolding insert_item
insert_Right fails now p s none = refl
insert_Right true now p s (some rows) = tt
insert_Right false now p s (some rows) = refl

fold_Right :
    (fails : Bool) (now : ℕ) (p : Pending) (s : Store) (o : Option Pending)
    → ((q : Pending) → o ≡ some q → RightPut now p (existing q))
    → RightPut now p (fold_item fails p s o).1
unfolding fold_item
fold_Right fails now p s none h = insert_Right fails now p s s.db
fold_Right fails now p s (some q) h = h q refl

session_items_Right :
    (session : Bytes) (now : ℕ) (items : List Pending)
    → All
        (λ (p : Pending). (p.remote_session ≡ session) × InTime now p)
        (session_items session (prune_map now items))
unfolding session_items prune_map
session_items_Right session now [] = tt
session_items_Right session now (p ∷ items) =
    let rest = session_items_Right session now items in
    elim (Bool-cases (leb pending_ttl (now - p.created_at))) [
      | inl m ↦ rw (m) rest
      | inr m ↦ rw (m) (elim (Bool-cases (str_eq p.remote_session session)) [
        | inl t ↦ rw (t) ((str_eq→eq p.remote_session session t, ground arith), rest)
        | inr t ↦ rw (t) rest
      ])
    ]

session_rows_Right :
    (session : Bytes) (now later : ℕ) (rows : List Row)
    → now ≤ later
    → All IsStamped rows
    → All
        (λ (p : Pending). (p.remote_session ≡ session) × InTime now p)
        (session_rows session (unix_milli later) rows)
unfolding session_rows
session_rows_Right session now later [] order stamps = tt
session_rows_Right session now later (r ∷ rows) order (stamp, stamps) =
    let rest = session_rows_Right session now later rows order stamps in
    elim (Bool-cases (str_eq r.payload.remote_session session && is_live (unix_milli later) r)) [
      | inl m ↦ rw (m) (
        (
          str_eq→eq r.payload.remote_session session (ground arith),
          live_InTime now later r order stamp (ground arith),
        ),
        rest,
      )
      | inr m ↦ rw (m) rest
    ]

list_Right :
    (fails : Bool) (session : Bytes) (now later : ℕ) (items : List Pending) (db : Option (List Row))
    → now ≤ later
    → All IsStamped (rows_of db)
    → All
        (λ (p : Pending). (p.remote_session ≡ session) × InTime now p)
        (list_from fails later session (prune_map now items) db)
unfolding list_from
list_Right fails session now later items none order stamps = session_items_Right session now items
list_Right true session now later items (some rows) order stamps = tt
list_Right false session now later items (some rows) order stamps =
    session_rows_Right session now later rows order stamps

put_Right :
    (find_fails fails : Bool) (now later : ℕ) (p : Pending) (items : List Pending)
    (db : Option (List Row))
    → now ≤ later
    → All IsStamped (rows_of db)
    → RightPut now p
        (put_filled find_fails fails now later p
          (record { by_id = prune_map now items; db = db })).1
unfolding put_filled find_pending
put_Right find_fails fails now later p items db order stamps =
    elim (Bool-cases (not (str_eq p.content_key []) && ltb (now - p.created_at) pending_ttl)) [
      | inl m ↦ rw (m) (
          fold_Right fails now p (record { by_id = prune_map now items; db = db }) _
            (λ q e.
              let (same, fresh) =
                or_found find_fails (same_content p.remote_session p.content_key) now later items db
                  q order stamps e in
              (
                str_eq→eq q.remote_session p.remote_session (ground arith),
                str_eq→eq q.content_key p.content_key (ground arith),
                ground arith,
                fresh,
                ground arith,
              )))
      | inr m ↦
          rw (m) (insert_Right fails now p (record { by_id = prune_map now items; db = db }) db)
    ]

pub call-Right :
    (c : Call) (s : Store)
    → is_ordered c ≡ true
    → All IsStamped (rows_of s.db)
    → Right c (call c s).1
unfolding Right call put_pending consume get list_remote_session prune get_pending
call-Right (putting prune_fails find_fails fails fresh_id fresh_token now later created p) s order
      stamps =
    put_Right find_fails fails now later (filled fresh_id fresh_token now created p) s.by_id
      (prune_rows prune_fails now s.db) (ground arith) (prune_stamps prune_fails now s.db stamps)
call-Right (consuming prune_fails get_fails fails now later id) s order stamps =
    take_Right fails now later id (prune prune_fails now s) _ (
      found_item now id _ (λ p e.
        or_found get_fails (has_id id) now later s.by_id (prune_rows prune_fails now s.db) p
          (ground arith) (prune_stamps prune_fails now s.db stamps) e))
call-Right (getting prune_fails get_fails now later id) s order stamps = found_item now id _ (λ p e.
    or_found get_fails (has_id id) now later s.by_id (prune_rows prune_fails now s.db) p
      (ground arith) (prune_stamps prune_fails now s.db stamps) e)
call-Right (listing prune_fails fails now later session) s order stamps =
    list_Right fails session now later s.by_id (prune_rows prune_fails now s.db) (ground arith)
      (prune_stamps prune_fails now s.db stamps)
