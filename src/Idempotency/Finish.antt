-- ===== src/Idempotency/Finish.antt =====
-- internal/idempotency/store.go: Complete, UpdatePending, Abandon, MarkInDoubt, Wait and Lookup.
-- `fails` is whether the statement fails, `rows_unknown` whether the count of its rows is not to be had.
use mcpx.Base.{
  ℕ, Bool, true, false, not, ◌&&◌, ◌||◌, Option, none, some, ◌∷◌, if◌then◌else◌, Bytes, codes,
  str_eq, is_blank,
}
use mcpx.Idempotency.Store.{
  State, pending, succeeded, failed, in_doubt, unknown, Key, valid, identity, Record, Flight, Store,
  find_flight, Read, found, missing, broken, get, update_row, delete_row, affects, without,
  finish_flight, Failure, invalid, database, disappeared, not_terminal, still_pending, canceled,
  doubtful,
}
use mcpx.Idempotency.Claim.{Claim, claim_wait, is_pending}

abbrev pub Done : Type 0
Done = Option Failure

abbrev pub json : Option Bytes → Bytes
json none = codes "{}"
json (some text) = text

unfoldable pub is_terminal : State → Bool
is_terminal pending = false
is_terminal unknown = false
is_terminal _ = true

unfoldable pub has_print : Bytes → Record → Bool
has_print print r = str_eq r.fingerprint print

unfoldable pub pending_print : Bytes → Record → Bool
unfolding is_pending
pending_print print r = str_eq r.fingerprint print && is_pending r.state

-- Store.Complete
unfoldable pub complete :
    Bool → Bool → ℕ → Key → Bytes → State → Option Bytes → Option Bytes → Store → Store × Done
unfolding is_terminal has_print
complete fails rows_unknown now key print state response metadata s =
    if not (valid key) || is_blank print
    then (s, some invalid)
    else if not (is_terminal state)
    then (s, some not_terminal)
    else if fails
    then (s, some database)
    else (let s' = record s {
      table =
          update_row key (has_print print)
            (λ r. record r {
              state = state;
              response = json response;
              metadata = json metadata;
              updated_at = now;
            })
            s.table;
    } in
        if rows_unknown
        then (s', some database)
        else if not (affects key (has_print print) s.table)
        then (s', some disappeared)
        else (finish_flight (identity key) s', none))

-- Store.UpdatePending
unfoldable pub update_pending :
    Bool → ℕ → Key → Bytes → Option Bytes → Option Bytes → Store → Store × Done
unfolding pending_print
update_pending fails now key print response metadata s =
    if not (valid key) || is_blank print
    then (s, some invalid)
    else if fails
    then (s, some database)
    else (
      record s {
        table =
            update_row key (pending_print print)
              (λ r. record r {
                response = json response;
                metadata = json metadata;
                updated_at = now;
              })
              s.table;
      },
      none,
    )

-- Store.Abandon
unfoldable pub abandon : Bool → Bool → Key → Bytes → Store → Store × Done
unfolding pending_print
abandon fails rows_unknown key print s =
    if not (valid key) || is_blank print
    then (s, some invalid)
    else if fails
    then (s, some database)
    else (let s' = record s { table = delete_row key (pending_print print) s.table } in
        if rows_unknown
        then (s', some database)
        else if affects key (pending_print print) s.table
        then (finish_flight (identity key) s', none)
        else (s', none))

-- The deferred function of MarkInDoubt.
unfoldable pub bury_flight : Bytes → Bytes → Store → Option Flight → Store
bury_flight id print s none = s
bury_flight id print s (some f) =
    if str_eq f.print print
    then record s {
      uncertain = (id, print) ∷ s.uncertain;
      flights = without id s.flights;
      closed = f.done ∷ s.closed;
    }
    else s

unfoldable pub bury : Bytes → Bytes → Store → Store
unfolding bury_flight
bury id print s = bury_flight id print s (find_flight id s.flights)

abbrev pub marked : Option Bytes → Record → Bytes
marked none r = r.metadata
marked (some metadata) r = metadata

-- The body of MarkInDoubt.
unfoldable pub mark_row : Bool → Bool → ℕ → Key → Bytes → Option Bytes → Store → Store × Done
unfolding has_print
mark_row fails rows_unknown now key print metadata s =
    if fails
    then (s, some database)
    else (let s' = record s {
      table =
          update_row key (has_print print)
            (λ r. record r { state = in_doubt; metadata = marked metadata r; updated_at = now })
            s.table;
    } in
        if rows_unknown
        then (s', some database)
        else if not (affects key (has_print print) s.table)
        then (s', some disappeared)
        else (finish_flight (identity key) s', none))

-- Store.MarkInDoubt
unfoldable pub mark_in_doubt : Bool → Bool → ℕ → Key → Bytes → Option Bytes → Store → Store × Done
unfolding mark_row bury
mark_in_doubt fails rows_unknown now key print metadata s =
    if not (valid key) || is_blank print
    then (s, some invalid)
    else (let (s', result) = mark_row fails rows_unknown now key print metadata s in
        (bury (identity key) print s', result))

pub data Waited : Type 0 where
  record_of : Record → Waited
  record_but : Record → Failure → Waited
  no_record : Failure → Waited

unfoldable pub waited : Read → Waited
waited missing = no_record database
waited broken = no_record database
waited (found r) = elim r.state [
  | succeeded ↦ record_of r
  | failed ↦ record_of r
  | pending ↦ record_but r doubtful
  | in_doubt ↦ record_but r doubtful
  | unknown ↦ record_but r doubtful
]

-- Store.Wait, behind its `select`: `expires` is whether the context ended before the channel was
-- closed.
unfoldable pub wait : Bool → Bool → Claim → Key → Store → Waited
unfolding waited
wait expires fails (claim_wait done) key s =
    if expires then no_record canceled else waited (get fails key s)
wait expires fails _ key s = no_record still_pending

-- Store.Lookup
unfoldable pub lookup : Bool → Key → Store → Read
lookup fails key s = if not (valid key) then broken else get fails key s
