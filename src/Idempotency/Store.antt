-- ===== src/Idempotency/Store.antt =====
-- internal/idempotency/store.go: keys, records, the table of the database and the maps in memory.
-- Times are in milliseconds, as the table keeps them: a difference of two of them reaches the lease
-- exactly when that of the times in nanoseconds does. A channel is its number.
use mcpx.Base.{
  ℕ, suc, Bool, true, false, not, ◌&&◌, Option, none, some, List, [], ◌∷◌, ◌++◌, if◌then◌else◌,
  Bytes, str_eq, is_blank,
}

pub data State : Type 0 where
  pending succeeded failed in_doubt unknown : State

pub record Key : Type 0 where
  pub remote_session : Bytes
  pub principal : Bytes
  pub operation : Bytes
  pub value : Bytes

-- Key.valid
unfoldable pub valid : Key → Bool
valid key =
    not (is_blank key.remote_session)
    && not (is_blank key.principal)
    && not (is_blank key.operation)
    && not (is_blank key.value)

-- Key.identity
unfoldable pub identity : Key → Bytes
identity key = key.remote_session ++ 0 ∷ key.principal ++ 0 ∷ key.operation ++ 0 ∷ key.value

-- The `WHERE` of the statements.
unfoldable pub same_key : Key → Key → Bool
same_key a b =
    str_eq a.remote_session b.remote_session
    && str_eq a.principal b.principal
    && str_eq a.operation b.operation
    && str_eq a.value b.value

pub record Record : Type 0 where
  pub key : Key
  pub fingerprint : Bytes
  pub state : State
  pub response : Bytes
  pub metadata : Bytes
  pub created_at : ℕ
  pub updated_at : ℕ
  pub expires_at : ℕ

pub record Flight : Type 0 where
  pub owner : Bytes
  pub print : Bytes
  pub done : ℕ

-- `table` is clean_idempotency_records; `made` counts the channels made, `closed` has the closed ones.
pub record Store : Type 0 where
  pub table : List Record
  pub flights : List Flight
  pub uncertain : List (Bytes × Bytes)
  pub made : ℕ
  pub closed : List ℕ

unfoldable pub find_record : Key → List Record → Option Record
unfolding same_key
find_record key [] = none
find_record key (r ∷ rows) = if same_key r.key key then some r else find_record key rows

unfoldable pub find_flight : Bytes → List Flight → Option Flight
find_flight id [] = none
find_flight id (f ∷ flights) = if str_eq f.owner id then some f else find_flight id flights

-- The empty text for a missing entry, as a Go map gives it.
unfoldable pub find_uncertain : Bytes → List (Bytes × Bytes) → Bytes
find_uncertain id [] = []
find_uncertain id ((i, print) ∷ entries) = if str_eq i id then print else find_uncertain id entries

unfoldable pub without : Bytes → List Flight → List Flight
without id [] = []
without id (f ∷ flights) =
    let rest = without id flights in if str_eq f.owner id then rest else f ∷ rest

pub data Read : Type 0 where
  found : Record → Read
  missing broken : Read

unfoldable pub read_of : Bool → Option Record → Read
read_of true row = broken
read_of false none = missing
read_of false (some r) = found r

-- Store.get; `fails` is whether the query fails for another reason than a missing row.
unfoldable pub get : Bool → Key → Store → Read
unfolding find_record read_of
get fails key s = read_of fails (find_record key s.table)

-- An UPDATE of the row of a key, where it satisfies a test. The key is the table's primary key, so
-- that the first row with it is the only one.
unfoldable pub update_row : Key → (Record → Bool) → (Record → Record) → List Record → List Record
unfolding same_key
update_row key test change [] = []
update_row key test change (r ∷ rows) =
    if same_key r.key key
    then (if test r then change r else r) ∷ rows
    else r ∷ update_row key test change rows

-- A DELETE of the same.
unfoldable pub delete_row : Key → (Record → Bool) → List Record → List Record
unfolding same_key
delete_row key test [] = []
delete_row key test (r ∷ rows) =
    if same_key r.key key then (if test r then rows else r ∷ rows) else r ∷ delete_row key test rows

unfoldable pub satisfies : (Record → Bool) → Option Record → Bool
satisfies test none = false
satisfies test (some r) = test r

-- Whether they affect a row.
unfoldable pub affects : Key → (Record → Bool) → List Record → Bool
unfolding find_record satisfies
affects key test rows = satisfies test (find_record key rows)

-- Store.setFlight
unfoldable pub set_flight : Bytes → Bytes → Store → Store
unfolding without
set_flight id print s = record s {
  flights = record { owner = id; print = print; done = s.made } ∷ without id s.flights;
  made = suc s.made;
}

unfoldable pub end_flight : Bytes → Store → Option Flight → Store
unfolding without
end_flight id s none = s
end_flight id s (some f) = record s { flights = without id s.flights; closed = f.done ∷ s.closed }

-- Store.finishFlight
unfoldable pub finish_flight : Bytes → Store → Store
unfolding find_flight end_flight
finish_flight id s = end_flight id s (find_flight id s.flights)

pub data Failure : Type 0 where
  invalid database disappeared unknown_state not_terminal still_pending canceled doubtful : Failure
