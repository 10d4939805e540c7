-- ===== src/Idempotency/Replay.antt =====
-- What a repeated request gets: the stored outcome of the first.
use mcpx.Base.{
  ℕ, ◌≡◌, refl, ◌∙◌, ap, Bool, true, false, Option, none, some, List, [], ◌∷◌, Bool-cases, inl, inr,
  Bytes, str_eq, str_eq_refl, is_blank,
}
use mcpx.Idempotency.Store.{
  State, succeeded, failed, Key, valid, identity, Record, Flight, Store, find_record, find_flight,
  find_uncertain, update_row, affects, satisfies, finish_flight, end_flight, without, get, read_of,
  found,
}
use mcpx.Idempotency.Claim.{
  Environment, claim, claim_active, claim_unowned, claim_read, claim_record, claim_state,
  claim_replay, claimed,
}
use mcpx.Idempotency.Finish.{complete, has_print, json, is_terminal}
use mcpx.Idempotency.Settled.Rows.{find_record-update_row, changed}

-- A removed flight is not found again.
find_flight-without :
    (id : Bytes) (flights : List Flight) → find_flight id (without id flights) ≡ none
unfolding find_flight without
find_flight-without id [] = refl
find_flight-without id (f ∷ flights) = elim (Bool-cases (str_eq f.owner id)) [
  | inl e ↦ rw (e) (find_flight-without id flights)
  | inr e ↦ rw (e) (rw (e) (find_flight-without id flights))
]

end_flight-gone :
    (id : Bytes) (s : Store) (o : Option Flight)
    → find_flight id s.flights ≡ o
    → find_flight id (end_flight id s o).flights ≡ none
unfolding end_flight
end_flight-gone id s none e = e
end_flight-gone id s (some f) e = find_flight-without id s.flights

end_flight-rest :
    (id : Bytes) (s : Store) (o : Option Flight)
    → ((end_flight id s o).table ≡ s.table) × ((end_flight id s o).uncertain ≡ s.uncertain)
unfolding end_flight
end_flight-rest id s none = (refl, refl)
end_flight-rest id s (some f) = (refl, refl)

-- The state that a handler reports.
abbrev pub outcome_state : Bool → State
outcome_state true = succeeded
outcome_state false = failed

completed_row : ℕ → Bool → Option Bytes → Option Bytes → Record → Record
completed_row now ok response metadata r = record r {
  state = outcome_state ok;
  response = json response;
  metadata = json metadata;
  updated_at = now;
}

read_of-found : (fails : Bool) (r : Record) → fails ≡ false → read_of fails (some r) ≡ found r
unfolding read_of
read_of-found fails r h = rw (h) refl

state-replays :
    (env : Environment) (key : Key) (print : Bytes) (r : Record) (s : Store) (ok : Bool)
    → (claim_state env key print r s (outcome_state ok)).1 ≡ claimed (claim_replay r)
unfolding claim_state
state-replays env key print r s true = refl
state-replays env key print r s false = refl

-- A claim that finds a finished record.
finished-replays :
    (env : Environment) (key : Key) (print : Bytes) (ttl : ℕ) (r : Record) (ok : Bool) (s : Store)
    → valid key ≡ true
    → is_blank print ≡ false
    → env.read_fails ≡ false
    → find_flight (identity key) s.flights ≡ none
    → find_uncertain (identity key) s.uncertain ≡ []
    → find_record key s.table ≡ some r
    → r.fingerprint ≡ print
    → r.state ≡ outcome_state ok
    → (claim env key print ttl s).1 ≡ claimed (claim_replay r)
unfolding claim claim_active claim_unowned claim_read claim_record get
finished-replays env key print ttl r ok s v b reads idle clear row same state =
    let own = ap (λ p. str_eq p print) same ∙ str_eq_refl print in
    let answered = read_of-found env.read_fails r reads in
    rw (v, b, idle, clear, row, answered, own)
      (ap (λ x. (claim_state env key print r (env.meanwhile s) x).1) state
        ∙ state-replays env key print r (env.meanwhile s) ok)

changed-some :
    (test : Record → Bool) (change : Record → Record) (r : Record)
    → test r ≡ true
    → changed test change (some r) ≡ some (change r)
unfolding changed
changed-some test change r h = rw (h) refl

affects-some :
    (key : Key) (test : Record → Bool) (r : Record) (rows : List Record)
    → find_record key rows ≡ some r
    → test r ≡ true
    → affects key test rows ≡ true
unfolding affects satisfies
affects-some key test r rows row h = ap (satisfies test) row ∙ h

outcome-is_terminal : (ok : Bool) → is_terminal (outcome_state ok) ≡ true
unfolding is_terminal
outcome-is_terminal true = refl
outcome-is_terminal false = refl

-- A request that its owner has completed is answered from then on with what the owner stored: where
-- the pending record has the request's fingerprint and no tombstone stands, `Complete` succeeds, and
-- the next claim with this fingerprint that can read the record replays it, with the state, the
-- response and the metadata given to `Complete`.
pub complete-claim :
    (now : ℕ) (key : Key) (print : Bytes) (ok : Bool) (response metadata : Option Bytes)
    (r : Record) (s : Store) (env : Environment) (ttl : ℕ)
    → valid key ≡ true
    → is_blank print ≡ false
    → find_uncertain (identity key) s.uncertain ≡ []
    → find_record key s.table ≡ some r
    → r.fingerprint ≡ print
    → env.read_fails ≡ false
    → ((complete false false now key print (outcome_state ok) response metadata s).1 ≡ none)
      × ((claim env key print ttl
            (complete false false now key print (outcome_state ok) response metadata s).0).1
          ≡ claimed (
              claim_replay (record r {
                state = outcome_state ok;
                response = json response;
                metadata = json metadata;
                updated_at = now;
              })))
unfolding complete completed_row finish_flight
complete-claim now key print ok response metadata r s env ttl v b clear row same reads =
    let id = identity key in
    let t = record s {
      table = update_row key (has_print print) (completed_row now ok response metadata) s.table;
    } in
    let (tables, marks) = end_flight-rest id t (find_flight id t.flights) in
    let hit = ap (λ p. str_eq p print) same ∙ str_eq_refl print in
    let stored =
      find_record-update_row key (has_print print) (completed_row now ok response metadata) s.table
        (λ u. refl) in
    let replays =
      finished-replays env key print ttl (completed_row now ok response metadata r) ok
        (finish_flight id t) v b reads (end_flight-gone id t (find_flight id t.flights) refl)
        (ap (find_uncertain id) marks ∙ clear)
        (ap (find_record key) tables
          ∙ stored
          ∙ ap (changed (has_print print) (completed_row now ok response metadata)) row
          ∙ changed-some (has_print print) (completed_row now ok response metadata) r hit)
        same refl in
    let affected = affects-some key (has_print print) r s.table row hit in
    let ends = outcome-is_terminal ok in rw (v, b, ends, affected) (refl, replays)
