-- ===== src/Idempotency/Settled/Claims.antt =====
-- A claim keeps what is settled, where what happens meanwhile does.
use mcpx.Base.{
  ℕ, ◌≡◌, refl, sym, ◌∙◌, ap, true, false, ◌||◌, Option, none, some, List, [], ◌∷◌, Bool-cases, inl,
  inr, arith, Bytes, str_eq→eq,
}
use mathlib.Core.Bool.{false≢true}
use mcpx.Idempotency.Store.{
  State, pending, succeeded, failed, in_doubt, unknown, Key, identity, Record, Flight, Store,
  same_key, find_record, find_flight, find_uncertain, Read, found, missing, broken, get, affects,
  satisfies, set_flight,
}
use mcpx.Idempotency.Claim.{
  Environment, claim, claim_active, claim_unowned, claim_read, claim_record, claim_state,
  pending_record, pending_flight, take_over, insert_record, reread, unchanged, new_record, any_row,
}
use mcpx.Idempotency.Settled.{settled, settled_record}
use mcpx.Idempotency.Settled.Rows.{find_record-tail}
use mcpx.Idempotency.Settled.Owners.{from_parts}
use mcpx.Idempotency.Settled.Keeps.{update-settled}

set_flight-settled :
    (key : Key) (id print : Bytes) (s : Store)
    → settled key s ≡ true
    → settled key (set_flight id print s) ≡ true
unfolding set_flight settled
set_flight-settled key id print s h = h

take_over-settled :
    (env : Environment) (k : Key) (print : Bytes) (r : Record) (key : Key) (s : Store)
    → settled key s ≡ true
    → settled key (take_over env k print r s).0 ≡ true
unfolding take_over
take_over-settled env k print r key s h =
    let row =
      update-settled key k (unchanged print r) (λ u. record u { updated_at = env.now }) s
        (λ u. refl) (λ u p. p) h in
    let owned = set_flight-settled key (identity k) print _ row in ground arith

pending_record-settled :
    (env : Environment) (k : Key) (print : Bytes) (r : Record) (key : Key) (s : Store)
    (o : Option Flight)
    → settled key s ≡ true
    → settled key (pending_flight env k print r s o).0 ≡ true
unfolding pending_flight
pending_record-settled env k print r key s none h = take_over-settled env k print r key s h
pending_record-settled env k print r key s (some f) h =
    let row = take_over-settled env k print r key s h in ground arith

claim_state-settled :
    (env : Environment) (k : Key) (print : Bytes) (r : Record) (key : Key) (s : Store)
    (state : State)
    → settled key s ≡ true
    → settled key (claim_state env k print r s state).0 ≡ true
unfolding claim_state pending_record
claim_state-settled env k print r key s pending h =
    pending_record-settled env k print r key s (find_flight (identity k) s.flights) h
claim_state-settled env k print r key s succeeded h = h
claim_state-settled env k print r key s failed h = h
claim_state-settled env k print r key s in_doubt h = h
claim_state-settled env k print r key s unknown h = h

claim_record-settled :
    (env : Environment) (k : Key) (print : Bytes) (r : Record) (key : Key) (s : Store)
    → settled key s ≡ true
    → settled key (claim_record env k print r s).0 ≡ true
unfolding claim_record
claim_record-settled env k print r key s h =
    let row = claim_state-settled env k print r key s r.state h in ground arith

reread-settled :
    (env : Environment) (k : Key) (print : Bytes) (key : Key) (s : Store) (r : Read)
    → settled key s ≡ true
    → settled key (reread env k print s r).0 ≡ true
unfolding reread
reread-settled env k print key s (found r) h = claim_record-settled env k print r key s h
reread-settled env k print key s missing h = h
reread-settled env k print key s broken h = h

same_key→eq : (a b : Key) → same_key a b ≡ true → a ≡ b
unfolding same_key
same_key→eq a b h =
    let p = str_eq→eq a.remote_session b.remote_session (ground arith) in
    let q = str_eq→eq a.principal b.principal (ground arith) in
    let r = str_eq→eq a.operation b.operation (ground arith) in
    let t = str_eq→eq a.value b.value (ground arith) in
    λ i. record { remote_session = p i; principal = q i; operation = r i; value = t i }

any_row-settled : (o : Option Record) → settled_record o ≡ true → satisfies any_row o ≡ true
unfolding settled_record satisfies any_row
any_row-settled none h = absurd (false≢true h)
any_row-settled (some r) h = refl

-- A new row is under a key that had none.
inserted-settled :
    (key : Key) (r : Record) (rows : List Record)
    → affects r.key any_row rows ≡ false
    → settled_record (find_record key rows) ≡ true
    → settled_record (find_record key (r ∷ rows)) ≡ true
unfolding affects
inserted-settled key r rows a h = elim (Bool-cases (same_key r.key key)) [
  | inl e ↦
      let f = ap (λ k. satisfies any_row (find_record k rows)) (same_key→eq r.key key e) in
      absurd (false≢true (sym a ∙ f ∙ any_row-settled (find_record key rows) h))
  | inr e ↦ ap settled_record (find_record-tail key r rows e) ∙ h
]

insert_record-settled :
    (env : Environment) (k : Key) (print : Bytes) (ttl : ℕ) (key : Key) (s : Store)
    → settled key s ≡ true
    → settled key (insert_record env k print ttl s).0 ≡ true
unfolding insert_record new_record set_flight settled
insert_record-settled env k print ttl key s h =
    elim (Bool-cases (env.insert_fails || affects k any_row s.table)) [
      | inl e ↦ rw (e) (reread-settled env k print key s (get env.reread_fails k s) h)
      | inr e ↦ rw (e) (
          let r = new_record env.now k print ttl in
          from_parts key s (record s { table = r ∷ s.table }) refl
            (inserted-settled key r s.table (ground arith)) h)
    ]

claim_read-settled :
    (env : Environment) (k : Key) (print : Bytes) (ttl : ℕ) (key : Key) (s : Store) (r : Read)
    → settled key s ≡ true
    → settled key (env.meanwhile s) ≡ true
    → settled key (claim_read env k print ttl s r).0 ≡ true
unfolding claim_read
claim_read-settled env k print ttl key s broken h m = h
claim_read-settled env k print ttl key s missing h m =
    insert_record-settled env k print ttl key (env.meanwhile s) m
claim_read-settled env k print ttl key s (found r) h m =
    claim_record-settled env k print r key (env.meanwhile s) m

claim_unowned-settled :
    (env : Environment) (k : Key) (print : Bytes) (ttl : ℕ) (key : Key) (s : Store) (tomb : Bytes)
    → settled key s ≡ true
    → settled key (env.meanwhile s) ≡ true
    → settled key (claim_unowned env k print ttl s tomb).0 ≡ true
unfolding claim_unowned
claim_unowned-settled env k print ttl key s [] h m =
    claim_read-settled env k print ttl key s (get env.read_fails k s) h m
claim_unowned-settled env k print ttl key s (c ∷ tomb) h m = ground arith

claim_active-settled :
    (env : Environment) (k : Key) (print : Bytes) (ttl : ℕ) (key : Key) (s : Store)
    (o : Option Flight)
    → settled key s ≡ true
    → settled key (env.meanwhile s) ≡ true
    → settled key (claim_active env k print ttl s o).0 ≡ true
unfolding claim_active
claim_active-settled env k print ttl key s none h m =
    claim_unowned-settled env k print ttl key s (find_uncertain (identity k) s.uncertain) h m
claim_active-settled env k print ttl key s (some f) h m = ground arith

pub claim-settled :
    (env : Environment) (k : Key) (print : Bytes) (ttl : ℕ) (key : Key) (s : Store)
    → settled key s ≡ true
    → settled key (env.meanwhile s) ≡ true
    → settled key (claim env k print ttl s).0 ≡ true
unfolding claim
claim-settled env k print ttl key s h m =
    let active =
      claim_active-settled env k print ttl key s (find_flight (identity k) s.flights) h m in
    ground arith
