-- ===== src/Idempotency/Claim.antt =====
-- internal/idempotency/store.go: Claim and claimTerminal. What the statements meet is the argument
-- `env`: the clock, which of them fail, and what other goroutines and processes do to the store
-- between the first look at it and the first write.
use mcpx.Base.{
  ℕ, ◌+◌, ◌-◌, Bool, true, false, not, ◌&&◌, ◌||◌, Option, none, some, [], ◌∷◌, if◌then◌else◌, ◌==◌,
  leb, Bytes, codes, str_eq, is_blank,
}
use mcpx.Idempotency.Store.{
  State, pending, succeeded, failed, in_doubt, unknown, Key, valid, identity, Record, Flight, Store,
  find_flight, find_uncertain, Read, found, missing, broken, get, update_row, affects, set_flight,
  Failure, invalid, database, unknown_state,
}

pub data Claim : Type 0 where
  claim_owner claim_replay claim_pending claim_in_doubt : Record → Claim
  claim_wait : ℕ → Claim
  claim_conflict : Option Record → Claim

pub record Environment : Type 0 where
  pub now : ℕ
  pub read_fails : Bool
  pub insert_fails : Bool
  pub update_fails : Bool
  pub rows_unknown : Bool
  pub reread_fails : Bool
  pub meanwhile : Store → Store

pub data Answer : Type 0 where
  claimed : Claim → Answer
  refused : Failure → Answer

abbrev pub pending_lease : ℕ
pending_lease = 30000

unfoldable pub terminal_claim : Record → State → Claim
terminal_claim r succeeded = claim_replay r
terminal_claim r failed = claim_replay r
terminal_claim r in_doubt = claim_in_doubt r
terminal_claim r _ = claim_pending r

-- claimTerminal
unfoldable pub claim_terminal : Record → Claim
unfolding terminal_claim
claim_terminal r = terminal_claim r r.state

-- Behind a takeover that changed no row.
unfoldable pub taken : Bytes → Read → Answer
unfolding claim_terminal
taken print missing = refused database
taken print broken = refused database
taken print (found r) =
    if not (str_eq r.fingerprint print)
    then claimed (claim_conflict (some r))
    else claimed (claim_terminal r)

unfoldable pub is_pending : State → Bool
is_pending pending = true
is_pending _ = false

-- The `AND` of the takeover's statement.
unfoldable pub unchanged : Bytes → Record → Record → Bool
unfolding is_pending
unchanged print r row =
    str_eq row.fingerprint print && is_pending row.state && row.updated_at == r.updated_at

unfoldable pub take_over : Environment → Key → Bytes → Record → Store → Store × Answer
unfolding taken
take_over env key print r s =
    if not (leb pending_lease (env.now - r.updated_at))
    then (s, claimed (claim_pending r))
    else if env.update_fails
    then (s, refused database)
    else (let s' = record s {
      table =
          update_row key (unchanged print r) (λ row. record row { updated_at = env.now }) s.table;
    } in
        if affects key (unchanged print r) s.table && not env.rows_unknown
        then (
          set_flight (identity key) print s',
          claimed (claim_owner (record r { updated_at = env.now })),
        )
        else (s', taken print (get env.reread_fails key s')))

unfoldable pub pending_flight :
    Environment → Key → Bytes → Record → Store → Option Flight → Store × Answer
unfolding take_over
pending_flight env key print r s none = take_over env key print r s
pending_flight env key print r s (some f) =
    if str_eq f.print print then (s, claimed (claim_wait f.done)) else take_over env key print r s

-- A pending record: its owner may run in this process.
unfoldable pub pending_record : Environment → Key → Bytes → Record → Store → Store × Answer
unfolding pending_flight
pending_record env key print r s =
    pending_flight env key print r s (find_flight (identity key) s.flights)

-- The `switch` on the record's state.
unfoldable pub claim_state : Environment → Key → Bytes → Record → Store → State → Store × Answer
unfolding pending_record
claim_state env key print r s succeeded = (s, claimed (claim_replay r))
claim_state env key print r s failed = (s, claimed (claim_replay r))
claim_state env key print r s in_doubt = (s, claimed (claim_in_doubt r))
claim_state env key print r s pending = pending_record env key print r s
claim_state env key print r s unknown = (s, refused unknown_state)

unfoldable pub claim_record : Environment → Key → Bytes → Record → Store → Store × Answer
unfolding claim_state
claim_record env key print r s =
    if not (str_eq r.fingerprint print)
    then (s, claimed (claim_conflict (some r)))
    else claim_state env key print r s r.state

-- The record read behind a failed INSERT.
unfoldable pub reread : Environment → Key → Bytes → Store → Read → Store × Answer
unfolding claim_record
reread env key print s (found r) = claim_record env key print r s
reread env key print s missing = (s, refused database)
reread env key print s broken = (s, refused database)

unfoldable pub new_record : ℕ → Key → Bytes → ℕ → Record
new_record now key print ttl = record {
  key = key;
  fingerprint = print;
  state = pending;
  response = codes "{}";
  metadata = codes "{}";
  created_at = now;
  updated_at = now;
  expires_at = now + (if ttl == 0 then 86400000 else ttl);
}

unfoldable pub any_row : Record → Bool
any_row r = true

unfoldable pub insert_record : Environment → Key → Bytes → ℕ → Store → Store × Answer
unfolding reread any_row
insert_record env key print ttl s =
    if env.insert_fails || affects key any_row s.table
    then reread env key print s (get env.reread_fails key s)
    else (let r = new_record env.now key print ttl in
        (
          set_flight (identity key) print (record s { table = r ∷ s.table }),
          claimed (claim_owner r),
        ))

-- Without a flight and a tombstone.
unfoldable pub claim_read : Environment → Key → Bytes → ℕ → Store → Read → Store × Answer
unfolding insert_record
claim_read env key print ttl s broken = (s, refused database)
claim_read env key print ttl s missing = insert_record env key print ttl (env.meanwhile s)
claim_read env key print ttl s (found r) = claim_record env key print r (env.meanwhile s)

-- With a tombstone, whose fingerprint is `mark`.
unfoldable pub recovered : Record → State → Claim
recovered r succeeded = claim_replay r
recovered r failed = claim_replay r
recovered r _ = claim_in_doubt (record r { state = in_doubt })

unfoldable pub claim_uncertain : Bytes → Read → Answer
unfolding recovered
claim_uncertain print missing = refused database
claim_uncertain print broken = refused database
claim_uncertain print (found r) =
    if not (str_eq r.fingerprint print)
    then claimed (claim_conflict (some r))
    else claimed (recovered r r.state)

unfoldable pub claim_unowned : Environment → Key → Bytes → ℕ → Store → Bytes → Store × Answer
unfolding claim_read claim_uncertain
claim_unowned env key print ttl s [] = claim_read env key print ttl s (get env.read_fails key s)
claim_unowned env key print ttl s (c ∷ mark) =
    if str_eq (c ∷ mark) print
    then (s, claim_uncertain print (get env.read_fails key s))
    else (s, claimed (claim_conflict none))

unfoldable pub claim_active : Environment → Key → Bytes → ℕ → Store → Option Flight → Store × Answer
unfolding claim_unowned
claim_active env key print ttl s none =
    claim_unowned env key print ttl s (find_uncertain (identity key) s.uncertain)
claim_active env key print ttl s (some f) =
    if str_eq f.print print
    then (s, claimed (claim_wait f.done))
    else (s, claimed (claim_conflict none))

-- Store.Claim
unfoldable pub claim : Environment → Key → Bytes → ℕ → Store → Store × Answer
unfolding claim_active
claim env key print ttl s =
    if not (valid key) || is_blank print
    then (s, refused invalid)
    else claim_active env key print ttl s (find_flight (identity key) s.flights)
