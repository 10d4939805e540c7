-- ===== src/Idempotency/Examples.antt =====
-- One request in a store.
use mcpx.Base.{some, ◌≡◌, refl, true, false, none, [], ◌∷◌, codes, is_blank}
use mcpx.Idempotency.Store.{
  get, affects, same_key, succeeded, pending, Key, Record, Flight, Store, valid, identity,
  find_flight, find_uncertain, find_record,
}
use mcpx.Idempotency.Claim.{claimed, claim_replay, Environment, claim, is_pending}
use mcpx.Idempotency.Finish.{complete, mark_in_doubt}
use mcpx.Idempotency.Replay.{complete-claim, outcome_state}
use mcpx.Idempotency.Exclusion.{TurnedAway, owner_excludes}
use mcpx.Idempotency.Settled.{settled, settled_record, has_mark, is_owner}
use mcpx.Idempotency.Settled.Runs.{rest, claims, settled_forever}
use mcpx.Idempotency.Settled.Marks.{in_doubt_is_final}

abbrev request : Key
request = record {
  remote_session = codes "r";
  principal = codes "p";
  operation = codes "edit";
  value = codes "1";
}

abbrev row : Record
row = record {
  key = request;
  fingerprint = codes "f";
  state = pending;
  response = codes "{}";
  metadata = codes "{}";
  created_at = 1;
  updated_at = 1;
  expires_at = 100;
}

abbrev running : Flight
running = record { owner = identity request; print = codes "f"; done = 0 }

abbrev busy : Store
busy = record { table = row ∷ []; flights = running ∷ []; uncertain = []; made = 1; closed = [] }

abbrev finished : Store
finished = record {
  table = record row { state = succeeded } ∷ [];
  flights = [];
  uncertain = [];
  made = 1;
  closed = 0 ∷ [];
}

-- Much later, with nothing that fails.
abbrev later : Environment
later = record {
  now = 1000000;
  read_fails = false;
  insert_fails = false;
  update_fails = false;
  rows_unknown = false;
  reread_fails = false;
  meanwhile = λ s. s;
}

settled_forever_example :
    is_owner (claim later request (codes "f") 0 (claim later request (codes "f") 0 finished).0).1
    ≡ false
unfolding settled settled_record find_uncertain has_mark find_record is_pending
settled_forever_example =
    settled_forever request finished (claim later request (codes "f") 0 finished).0 refl
      (claims later request (codes "f") 0 rest rest) later (codes "f") 0

in_doubt_is_final_example :
    is_owner
      (claim later request
        (codes "f")
        0
        (mark_in_doubt true false 2 request (codes "f") none busy).0).1
    ≡ false
unfolding valid is_blank find_flight identity
in_doubt_is_final_example =
    in_doubt_is_final true false 2 request (codes "f") none running busy
      (mark_in_doubt true false 2 request (codes "f") none busy).0 refl refl refl refl rest later
      (codes "f") 0

complete-claim_example :
    ((complete false false 5 request
        (codes "f")
        (outcome_state true)
        (some (codes "[]"))
        none
        busy).1
      ≡ none)
    × ((claim later request
          (codes "f")
          0
          (complete false false 5 request
            (codes "f")
            (outcome_state true)
            (some (codes "[]"))
            none
            busy).0).1
        ≡ claimed (
            claim_replay (record row {
              state = succeeded;
              response = codes "[]";
              metadata = codes "{}";
              updated_at = 5;
            })))
unfolding valid is_blank find_uncertain find_record same_key
complete-claim_example =
    complete-claim 5 request (codes "f") true (some (codes "[]")) none row busy later 0 refl refl
      refl refl refl refl

abbrev empty : Store
empty = record { table = []; flights = []; uncertain = []; made = 0; closed = [] }

owner_excludes_example :
    TurnedAway
      (codes "f")
      (codes "g")
      (claim later request (codes "g") 0 (claim later request (codes "f") 0 empty).0).1
unfolding valid is_blank claim find_uncertain find_flight get find_record affects is_owner
owner_excludes_example =
    owner_excludes later later request (codes "f") (codes "g") 0 0 empty refl refl refl
