-- ===== src/Idempotency/Exclusion.antt =====
-- While an owner is at work, nobody else is let in.
use mcpx.Base.{
  ℕ, ◌≡◌, refl, sym, ◌∙◌, ap, Bool, true, false, Option, none, some, [], ◌∷◌, Bool-cases, inl, inr,
  arith, Bytes, str_eq, str_eq→eq, str_eq_refl, is_blank,
}
use mathlib.Core.Bool.{false≢true}
use mcpx.Idempotency.Store.{
  State, pending, succeeded, failed, in_doubt, unknown, Key, valid, identity, Record, Flight, Store,
  find_flight, find_uncertain, update_row, set_flight, get, Read, found, missing, broken,
}
use mcpx.Idempotency.Claim.{
  Environment, Answer, claimed, claim_wait, claim_conflict, claim, claim_active, claim_unowned,
  claim_read, claim_record, claim_state, pending_record, pending_flight, take_over, taken,
  claim_terminal, terminal_claim, insert_record, reread, unchanged, new_record,
}
use mcpx.Idempotency.Settled.{is_owner}
use mcpx.Idempotency.Settled.Owners.{uncertain-no_owner}

printed : Bytes → Option Flight → Bool
printed print none = false
printed print (some f) = str_eq f.print print

-- An owner's claim leaves a flight with the claim's fingerprint.
abbrev Guarded : Key → Bytes → Store × Answer → Type 0
Guarded key print x =
    is_owner x.1 ≡ true → printed print (find_flight (identity key) x.0.flights) ≡ true

set_flight-guards :
    (key : Key) (print : Bytes) (s : Store)
    → printed print (find_flight (identity key) (set_flight (identity key) print s).flights) ≡ true
unfolding set_flight find_flight printed
set_flight-guards key print s = rw (str_eq_refl (identity key)) (str_eq_refl print)

-- An answer without an owner promises nothing.
no_owner-Guarded :
    (key : Key) (print : Bytes) (x : Store × Answer) → is_owner x.1 ≡ false → Guarded key print x
no_owner-Guarded key print x none_in o = absurd (false≢true (sym none_in ∙ o))

terminal-no_owner :
    (r : Record) (state : State) → is_owner (claimed (terminal_claim r state)) ≡ false
unfolding terminal_claim is_owner
terminal-no_owner r pending = refl
terminal-no_owner r succeeded = refl
terminal-no_owner r failed = refl
terminal-no_owner r in_doubt = refl
terminal-no_owner r unknown = refl

taken-no_owner : (print : Bytes) (r : Read) → is_owner (taken print r) ≡ false
unfolding taken claim_terminal is_owner
taken-no_owner print missing = refl
taken-no_owner print broken = refl
taken-no_owner print (found r) = elim (Bool-cases (str_eq r.fingerprint print)) [
  | inl e ↦ rw (e) (terminal-no_owner r r.state)
  | inr e ↦ rw (e) refl
]

take_over-Guarded :
    (env : Environment) (key : Key) (print : Bytes) (r : Record) (s : Store)
    → Guarded key print (take_over env key print r s)
unfolding take_over is_owner
take_over-Guarded env key print r s o =
    let t = record s {
      table =
          update_row key (unchanged print r) (λ row. record row { updated_at = env.now }) s.table;
    } in
    let guard = set_flight-guards key print t in
    let closed_out = taken-no_owner print (get env.reread_fails key t) in ground arith

pending_flight-Guarded :
    (env : Environment) (key : Key) (print : Bytes) (r : Record) (s : Store) (o : Option Flight)
    → Guarded key print (pending_flight env key print r s o)
unfolding pending_flight is_owner
pending_flight-Guarded env key print r s none h = take_over-Guarded env key print r s h
pending_flight-Guarded env key print r s (some f) h =
    let over = take_over-Guarded env key print r s in ground arith

claim_state-Guarded :
    (env : Environment) (key : Key) (print : Bytes) (r : Record) (s : Store) (state : State)
    → Guarded key print (claim_state env key print r s state)
unfolding claim_state pending_record is_owner
claim_state-Guarded env key print r s pending h =
    pending_flight-Guarded env key print r s (find_flight (identity key) s.flights) h
claim_state-Guarded env key print r s succeeded h = absurd (false≢true h)
claim_state-Guarded env key print r s failed h = absurd (false≢true h)
claim_state-Guarded env key print r s in_doubt h = absurd (false≢true h)
claim_state-Guarded env key print r s unknown h = absurd (false≢true h)

claim_record-Guarded :
    (env : Environment) (key : Key) (print : Bytes) (r : Record) (s : Store)
    → Guarded key print (claim_record env key print r s)
unfolding claim_record is_owner
claim_record-Guarded env key print r s h =
    let inner = claim_state-Guarded env key print r s r.state in ground arith

reread-Guarded :
    (env : Environment) (key : Key) (print : Bytes) (s : Store) (r : Read)
    → Guarded key print (reread env key print s r)
unfolding reread is_owner
reread-Guarded env key print s (found r) h = claim_record-Guarded env key print r s h
reread-Guarded env key print s missing h = absurd (false≢true h)
reread-Guarded env key print s broken h = absurd (false≢true h)

insert_record-Guarded :
    (env : Environment) (key : Key) (print : Bytes) (ttl : ℕ) (s : Store)
    → Guarded key print (insert_record env key print ttl s)
unfolding insert_record is_owner
insert_record-Guarded env key print ttl s h =
    let inner = reread-Guarded env key print s (get env.reread_fails key s) in
    let t = record s { table = new_record env.now key print ttl ∷ s.table } in
    let guard = set_flight-guards key print t in ground arith

claim_read-Guarded :
    (env : Environment) (key : Key) (print : Bytes) (ttl : ℕ) (s : Store) (r : Read)
    → Guarded key print (claim_read env key print ttl s r)
unfolding claim_read is_owner
claim_read-Guarded env key print ttl s broken h = absurd (false≢true h)
claim_read-Guarded env key print ttl s missing h =
    insert_record-Guarded env key print ttl (env.meanwhile s) h
claim_read-Guarded env key print ttl s (found r) h =
    claim_record-Guarded env key print r (env.meanwhile s) h

claim_unowned-Guarded :
    (env : Environment) (key : Key) (print : Bytes) (ttl : ℕ) (s : Store) (tomb : Bytes)
    → Guarded key print (claim_unowned env key print ttl s tomb)
unfolding claim_unowned is_owner
claim_unowned-Guarded env key print ttl s [] h =
    claim_read-Guarded env key print ttl s (get env.read_fails key s) h
claim_unowned-Guarded env key print ttl s (c ∷ tomb) h =
    let turned = uncertain-no_owner print (get env.read_fails key s) in ground arith

claim_active-Guarded :
    (env : Environment) (key : Key) (print : Bytes) (ttl : ℕ) (s : Store) (o : Option Flight)
    → Guarded key print (claim_active env key print ttl s o)
unfolding claim_active is_owner
claim_active-Guarded env key print ttl s none h =
    claim_unowned-Guarded env key print ttl s (find_uncertain (identity key) s.uncertain) h
claim_active-Guarded env key print ttl s (some f) h = ground arith

claim-Guarded :
    (env : Environment) (key : Key) (print : Bytes) (ttl : ℕ) (s : Store)
    → Guarded key print (claim env key print ttl s)
unfolding claim is_owner
claim-Guarded env key print ttl s h =
    let inner = claim_active-Guarded env key print ttl s (find_flight (identity key) s.flights) in
    ground arith

-- The answers to a claim that comes while another is at work: with the same fingerprint it waits
-- for the owner's channel, with another one it is a conflict.
pub data TurnedAway (print again : Bytes) : Answer → Type 0 where
  waits :
      (done : ℕ) → str_eq print again ≡ true → TurnedAway print again (claimed (claim_wait done))
  conflicts : str_eq print again ≡ false → TurnedAway print again (claimed (claim_conflict none))

turned_away :
    (env : Environment) (key : Key) (print again : Bytes) (ttl : ℕ) (s : Store) (o : Option Flight)
    → printed print o ≡ true
    → TurnedAway print again (claim_active env key again ttl s o).1
unfolding printed claim_active
turned_away env key print again ttl s none h = absurd (false≢true h)
turned_away env key print again ttl s (some f) h =
    let same = str_eq→eq f.print print h in
    elim (Bool-cases (str_eq f.print again)) [
      | inl e ↦ rw (e) (waits f.done (ap (λ p. str_eq p again) (sym same) ∙ e))
      | inr e ↦ rw (e) (conflicts (ap (λ p. str_eq p again) (sym same) ∙ e))
    ]

claimed_again :
    (env : Environment) (key : Key) (print again : Bytes) (ttl : ℕ) (s : Store)
    → valid key ≡ true
    → is_blank again ≡ false
    → TurnedAway print again
        (claim_active env key again ttl s (find_flight (identity key) s.flights)).1
    → TurnedAway print again (claim env key again ttl s).1
unfolding claim
claimed_again env key print again ttl s v b h = rw (v, b) h

-- After a claim that made its caller the owner, the next claim of the same key in this process, at
-- any time, with any failures and any valid fingerprint, makes no owner: it waits for the owner
-- where the fingerprint is the owner's, and is a conflict where it is not.
pub owner_excludes :
    (env later : Environment) (key : Key) (print again : Bytes) (ttl ttl_again : ℕ) (s : Store)
    → valid key ≡ true
    → is_blank again ≡ false
    → is_owner (claim env key print ttl s).1 ≡ true
    → TurnedAway print again (claim later key again ttl_again (claim env key print ttl s).0).1
owner_excludes env later key print again ttl ttl_again s v b h =
    claimed_again later key print again ttl_again (claim env key print ttl s).0 v b (
      turned_away later key print again ttl_again (claim env key print ttl s).0 _
        (claim-Guarded env key print ttl s h))
