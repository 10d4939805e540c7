-- ===== src/Idempotency/Settled/Marks.antt =====
-- An owner that gives up settles its key, whatever becomes of the statement.
use mcpx.Base.{
  ℕ, ◌≡◌, refl, ◌∙◌, ap, Bool, true, false, not, Option, none, some, Bool-cases, inl, inr, arith,
  Bytes, str_eq, str_eq_refl, is_blank,
}
use mathlib.Core.Bool.{false≢true}
use mcpx.Idempotency.Store.{
  in_doubt, Key, valid, identity, Record, Flight, Store, find_record, find_flight, find_uncertain,
  update_row, affects, satisfies, finish_flight,
}
use mcpx.Idempotency.Claim.{Environment, claim, is_pending}
use mcpx.Idempotency.Finish.{mark_in_doubt, bury, bury_flight, mark_row, has_print, marked}
use mcpx.Idempotency.Settled.{settled, settled_record, is_owner}
use mcpx.Idempotency.Settled.Rows.{find_record-update_row, changed}
use mcpx.Idempotency.Settled.Owners.{finish_flight-settled}
use mcpx.Idempotency.Settled.Keeps.{bury_flight-settled, has_mark-of_text}
use mcpx.Idempotency.Settled.Runs.{Run, settled_forever}

-- A record that an UPDATE reaches is settled by it.
changed-settled :
    (test : Record → Bool) (change : Record → Record) (o : Option Record)
    → ((r : Record) → is_pending (change r).state ≡ false)
    → satisfies test o ≡ true
    → settled_record (changed test change o) ≡ true
unfolding changed settled_record satisfies
changed-settled test change none done h = absurd (false≢true h)
changed-settled test change (some r) done h = rw (h) (ap not (done r))

affected-settled :
    (key : Key) (test : Record → Bool) (change : Record → Record) (s : Store)
    → ((r : Record) → (change r).key ≡ r.key)
    → ((r : Record) → is_pending (change r).state ≡ false)
    → affects key test s.table ≡ true
    → settled key (record s { table = update_row key test change s.table }) ≡ true
unfolding settled affects
affected-settled key test change s same done h =
    let e =
      ap settled_record (find_record-update_row key test change s.table same)
      ∙ changed-settled test change (find_record key s.table) done h in
    ground arith

-- The tombstone of a flight that ends without a record of it.
bury_marks :
    (key : Key) (print : Bytes) (f : Flight) (s : Store)
    → is_blank print ≡ false
    → f.print ≡ print
    → settled key (bury_flight (identity key) print s (some f)) ≡ true
unfolding settled bury_flight find_uncertain
bury_marks key print f s b e =
    let same = ap (λ p. str_eq p print) e ∙ str_eq_refl print in
    let own = str_eq_refl (identity key) in
    let text = has_mark-of_text print b in rw (same, own, text) refl

kept_flight-settled :
    (key : Key) (print : Bytes) (f : Flight) (s : Store)
    → is_blank print ≡ false
    → find_flight (identity key) s.flights ≡ some f
    → f.print ≡ print
    → settled key (bury (identity key) print s) ≡ true
unfolding bury
kept_flight-settled key print f s b own e =
    ap (λ o. settled key (bury_flight (identity key) print s o)) own ∙ bury_marks key print f s b e

in_doubt_row : ℕ → Option Bytes → Record → Record
in_doubt_row now metadata r = record r {
  state = in_doubt;
  metadata = marked metadata r;
  updated_at = now;
}

ended-settled :
    (now : ℕ) (key : Key) (print : Bytes) (metadata : Option Bytes) (s : Store)
    → is_blank print ≡ false
    → affects key (has_print print) s.table ≡ true
    → settled key (
        bury (identity key) print (
          finish_flight (identity key) (record s {
            table = update_row key (has_print print) (in_doubt_row now metadata) s.table;
          })))
      ≡ true
unfolding bury in_doubt_row is_pending
ended-settled now key print metadata s b h =
    let row =
      affected-settled key (has_print print) (in_doubt_row now metadata) s (λ r. refl) (λ r. refl)
        h in
    let ended = finish_flight-settled key (identity key) _ row in
    bury_flight-settled key (identity key) print _ _ (has_mark-of_text print b) ended

mark_row-bury :
    (fails rows_unknown : Bool) (now : ℕ) (key : Key) (print : Bytes) (metadata : Option Bytes)
    (f : Flight) (s : Store)
    → is_blank print ≡ false
    → find_flight (identity key) s.flights ≡ some f
    → f.print ≡ print
    → settled key
        (bury (identity key) print (mark_row fails rows_unknown now key print metadata s).0)
      ≡ true
unfolding mark_row in_doubt_row
mark_row-bury true rows_unknown now key print metadata f s b own e =
    kept_flight-settled key print f s b own e
mark_row-bury false true now key print metadata f s b own e =
    kept_flight-settled key print f _ b own e
mark_row-bury false false now key print metadata f s b own e =
    elim (Bool-cases (affects key (has_print print) s.table)) [
      | inl h ↦ rw (h) (ended-settled now key print metadata s b h)
      | inr h ↦ rw (h) (kept_flight-settled key print f _ b own e)
    ]

-- Once the owner of a flight has marked its request as in doubt, whether the statement worked or
-- not, no run of the operations on this store gives the key to an owner again.
pub in_doubt_is_final :
    (fails rows_unknown : Bool) (now : ℕ) (key : Key) (print : Bytes) (metadata : Option Bytes)
    (f : Flight) (s t : Store)
    → valid key ≡ true
    → is_blank print ≡ false
    → find_flight (identity key) s.flights ≡ some f
    → f.print ≡ print
    → Run (mark_in_doubt fails rows_unknown now key print metadata s).0 t
    → (env : Environment) (again : Bytes) (ttl : ℕ) → is_owner (claim env key again ttl t).1 ≡ false
unfolding mark_in_doubt
in_doubt_is_final fails rows_unknown now key print metadata f s t v b own e run env again ttl =
    settled_forever key _ t
      (rw (v, b) (mark_row-bury fails rows_unknown now key print metadata f s b own e)) run env
      again ttl
