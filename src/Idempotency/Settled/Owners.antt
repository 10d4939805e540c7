-- ===== src/Idempotency/Settled/Owners.antt =====
-- A settled key has no owner, and what is kept of it.
use mcpx.Base.{
  ℕ, ◌≡◌, refl, sym, ap, true, false, not, ◌||◌, Option, none, some, [], ◌∷◌, Bool-cases, inl, inr,
  arith, Bytes, str_eq, is_blank,
}
use mathlib.Core.Bool.{false≢true}
use mcpx.Idempotency.Store.{
  State, pending, succeeded, failed, in_doubt, unknown, Key, valid, identity, Record, Flight, Store,
  find_record, find_flight, find_uncertain, Read, found, missing, broken, get, read_of,
  finish_flight, end_flight,
}
use mcpx.Idempotency.Claim.{
  Environment, claimed, claim, claim_active, claim_unowned, claim_uncertain, claim_read,
  claim_record, claim_state, recovered, is_pending,
}
use mcpx.Idempotency.Settled.{settled, settled_record, has_mark, is_owner}
use mcpx.Idempotency.Settled.Rows.{not-true}

state-no_owner :
    (env : Environment) (key : Key) (print : Bytes) (r : Record) (s : Store) (state : State)
    → is_pending state ≡ false
    → is_owner (claim_state env key print r s state).1 ≡ false
unfolding claim_state is_pending is_owner
state-no_owner env key print r s pending h = absurd (false≢true (sym h))
state-no_owner env key print r s succeeded h = refl
state-no_owner env key print r s failed h = refl
state-no_owner env key print r s in_doubt h = refl
state-no_owner env key print r s unknown h = refl

record-no_owner :
    (env : Environment) (key : Key) (print : Bytes) (r : Record) (s : Store)
    → is_pending r.state ≡ false
    → is_owner (claim_record env key print r s).1 ≡ false
unfolding claim_record is_owner
record-no_owner env key print r s h = elim (Bool-cases (str_eq r.fingerprint print)) [
  | inl e ↦ rw (e) (state-no_owner env key print r s r.state h)
  | inr e ↦ rw (e) refl
]

recovered-no_owner : (r : Record) (state : State) → is_owner (claimed (recovered r state)) ≡ false
unfolding recovered is_owner
recovered-no_owner r pending = refl
recovered-no_owner r succeeded = refl
recovered-no_owner r failed = refl
recovered-no_owner r in_doubt = refl
recovered-no_owner r unknown = refl

pub uncertain-no_owner : (print : Bytes) (r : Read) → is_owner (claim_uncertain print r) ≡ false
unfolding claim_uncertain is_owner
uncertain-no_owner print missing = refl
uncertain-no_owner print broken = refl
uncertain-no_owner print (found r) = elim (Bool-cases (str_eq r.fingerprint print)) [
  | inl e ↦ rw (e) (recovered-no_owner r r.state)
  | inr e ↦ rw (e) refl
]

read-no_owner :
    (env : Environment) (key : Key) (print : Bytes) (ttl : ℕ) (s : Store) (o : Option Record)
    → settled_record o ≡ true
    → is_owner (claim_read env key print ttl s (read_of env.read_fails o)).1 ≡ false
unfolding claim_read is_owner settled_record read_of
read-no_owner env key print ttl s none h = absurd (false≢true h)
read-no_owner env key print ttl s (some r) h = elim (Bool-cases env.read_fails) [
  | inl e ↦ rw (e) refl
  | inr e ↦
      rw (e) (record-no_owner env key print r (env.meanwhile s) (not-true (is_pending r.state) h))
]

unowned-no_owner :
    (env : Environment) (key : Key) (print : Bytes) (ttl : ℕ) (s : Store) (mark : Bytes)
    → has_mark mark || settled_record (find_record key s.table) ≡ true
    → is_owner (claim_unowned env key print ttl s mark).1 ≡ false
unfolding claim_unowned is_owner has_mark get
unowned-no_owner env key print ttl s [] h =
    read-no_owner env key print ttl s (find_record key s.table) h
unowned-no_owner env key print ttl s (c ∷ mark) h = elim (Bool-cases (str_eq (c ∷ mark) print)) [
  | inl e ↦ rw (e) (uncertain-no_owner print (get env.read_fails key s))
  | inr e ↦ rw (e) refl
]

active-no_owner :
    (env : Environment) (key : Key) (print : Bytes) (ttl : ℕ) (s : Store) (o : Option Flight)
    → settled key s ≡ true
    → is_owner (claim_active env key print ttl s o).1 ≡ false
unfolding claim_active is_owner settled
active-no_owner env key print ttl s none h =
    unowned-no_owner env key print ttl s (find_uncertain (identity key) s.uncertain) h
active-no_owner env key print ttl s (some f) h = elim (Bool-cases (str_eq f.print print)) [
  | inl e ↦ rw (e) refl
  | inr e ↦ rw (e) refl
]

-- A settled key has no owner.
pub claim-no_owner :
    (env : Environment) (key : Key) (print : Bytes) (ttl : ℕ) (s : Store)
    → settled key s ≡ true
    → is_owner (claim env key print ttl s).1 ≡ false
unfolding claim is_owner
claim-no_owner env key print ttl s h = elim (Bool-cases (not (valid key) || is_blank print)) [
  | inl e ↦ rw (e) refl
  | inr e ↦ rw (e) (active-no_owner env key print ttl s (find_flight (identity key) s.flights) h)
]

-- The key is settled whatever else changes, as long as its tombstone and its record are.
pub from_parts :
    (key : Key) (s t : Store)
    → t.uncertain ≡ s.uncertain
    → (settled_record (find_record key s.table) ≡ true
        → settled_record (find_record key t.table) ≡ true)
    → settled key s ≡ true
    → settled key t ≡ true
unfolding settled
from_parts key s t same keeps h =
    let e = ap (λ u. has_mark (find_uncertain (identity key) u)) same in ground arith

end_flight-settled :
    (key : Key) (id : Bytes) (s : Store) (o : Option Flight)
    → settled key s ≡ true
    → settled key (end_flight id s o) ≡ true
unfolding end_flight settled
end_flight-settled key id s none h = h
end_flight-settled key id s (some f) h = h

pub finish_flight-settled :
    (key : Key) (id : Bytes) (s : Store)
    → settled key s ≡ true
    → settled key (finish_flight id s) ≡ true
unfolding finish_flight
finish_flight-settled key id s h = end_flight-settled key id s (find_flight id s.flights) h
