-- ===== src/Approval/Fresh.antt =====
-- What the lookups find: items that fulfil the test, and none past its time.
use mcpx.Base.{
  ℕ, ◌+◌, ◌-◌, ◌≤◌, ◌<◌, ◌≡◌, ap, sym, ◌∙◌, Bool, true, false, ◌&&◌, Option, none, some, List, [],
  ◌∷◌, leb, inl, inr, arith, Bool-cases, Option-cases, All,
}
use mcpx.Approval.Store.{
  Pending, Row, is_live, unix_milli, pending_ttl, find_in, live_row, or_row, prune_map, map_rows,
  expire_row, prune_rows,
}
use mcpx.Approval.Once.{rows_of}

-- The time of a row is its item's.
abbrev pub IsStamped : Row → Type 0
IsStamped r = r.expires_at ≡ unix_milli (r.payload.created_at + pending_ttl)

abbrev pub InTime : ℕ → Pending → Type 0
InTime now p = now < p.created_at + pending_ttl

milli_order : (a b : ℕ) → unix_milli a < unix_milli b → a < b
milli_order a b h = omega arith

pub live_InTime :
    (now later : ℕ) (r : Row)
    → now ≤ later
    → IsStamped r
    → is_live (unix_milli later) r ≡ true
    → InTime now r.payload
unfolding is_live
live_InTime now later r order stamp live =
    let before : unix_milli later < unix_milli (r.payload.created_at + pending_ttl) =
      ground arith in
    let late = milli_order later (r.payload.created_at + pending_ttl) before in omega arith

find_found :
    (test : Pending → Bool) (now : ℕ) (items : List Pending) (p : Pending)
    → find_in test (prune_map now items) ≡ some p
    → (test p ≡ true) × InTime now p
unfolding find_in prune_map
find_found test now [] p e = absurd (cc)
find_found test now (q ∷ items) p e = elim (Bool-cases (leb pending_ttl (now - q.created_at))) [
  | inl m ↦ find_found test now items p (ground arith)
  | inr m ↦ elim (Bool-cases (test q)) [
    | inl t ↦
        let same : q ≡ p = ground arith in
        let unspent : now < q.created_at + pending_ttl = ground arith in
        (ap test (sym same) ∙ t, rw (← same) unspent)
    | inr t ↦ find_found test now items p (ground arith)
  ]
]

live_found :
    (test : Pending → Bool) (now later : ℕ) (rows : List Row) (p : Pending)
    → now ≤ later
    → All IsStamped rows
    → live_row test (unix_milli later) rows ≡ some p
    → (test p ≡ true) × InTime now p
unfolding live_row
live_found test now later [] p order stamps e = absurd (cc)
live_found test now later (r ∷ rows) p order (stamp, stamps) e =
    elim (Bool-cases (test r.payload && is_live (unix_milli later) r)) [
      | inl m ↦
          let same : r.payload ≡ p = ground arith in
          let fresh = live_InTime now later r order stamp (ground arith) in
          (ap test (sym same) ∙ ground arith, rw (← same) fresh)
      | inr m ↦ live_found test now later rows p order stamps (ground arith)
    ]

or_found-row :
    (fails : Bool) (test : Pending → Bool) (now later : ℕ) (db : Option (List Row)) (p : Pending)
    → now ≤ later
    → All IsStamped (rows_of db)
    → or_row fails test later none db ≡ some p
    → (test p ≡ true) × InTime now p
unfolding or_row
or_found-row fails test now later none p order stamps e = absurd (cc)
or_found-row true test now later (some rows) p order stamps e = absurd (cc)
or_found-row false test now later (some rows) p order stamps e =
    live_found test now later rows p order stamps e

pub or_found :
    (fails : Bool) (test : Pending → Bool) (now later : ℕ) (items : List Pending)
    (db : Option (List Row)) (p : Pending)
    → now ≤ later
    → All IsStamped (rows_of db)
    → or_row fails test later (find_in test (prune_map now items)) db ≡ some p
    → (test p ≡ true) × InTime now p
unfolding or_row
or_found fails test now later items db p order stamps e =
    elim (Option-cases (find_in test (prune_map now items))) [
      | inl m ↦ or_found-row fails test now later db p order stamps (rw (← m) e)
      | inr (q, m) ↦ find_found test now items p (m ∙ (rw m at e))
    ]

pub expired_stamp : (now : ℕ) (r : Row) → IsStamped r → IsStamped (expire_row now r)
unfolding expire_row
expired_stamp now r e = ground arith

pub map_stamps :
    (f : Row → Row) (rows : List Row)
    → ((r : Row) → IsStamped r → IsStamped (f r))
    → All IsStamped rows
    → All IsStamped (map_rows f rows)
unfolding map_rows
map_stamps f [] keeps h = tt
map_stamps f (r ∷ rows) keeps (h, hs) = (keeps r h, map_stamps f rows keeps hs)

pub prune_stamps :
    (fails : Bool) (now : ℕ) (db : Option (List Row))
    → All IsStamped (rows_of db)
    → All IsStamped (rows_of (prune_rows fails now db))
unfolding prune_rows
prune_stamps fails now none h = tt
prune_stamps true now (some rows) h = h
prune_stamps false now (some rows) h =
    map_stamps (expire_row (unix_milli now)) rows (expired_stamp (unix_milli now)) h
