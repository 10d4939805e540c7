-- ===== src/Idempotency/Settled/Keeps.antt =====
-- Every operation keeps what is settled.
use mcpx.Base.{
  ℕ, ◌≡◌, refl, sym, Bool, true, false, Option, none, some, List, [], ◌∷◌, Bool-cases, inl, inr,
  arith, Bytes, str_eq, is_blank,
}
use mathlib.Core.Bool.{false≢true}
use mcpx.Idempotency.Store.{
  State, pending, succeeded, failed, in_doubt, unknown, Key, identity, Record, Flight, Store,
  find_flight, find_uncertain, update_row, delete_row,
}
use mcpx.Idempotency.Claim.{is_pending}
use mcpx.Idempotency.Finish.{
  complete, update_pending, abandon, mark_in_doubt, bury, bury_flight, mark_row, is_terminal,
  has_print, pending_print, json, marked,
}
use mcpx.Idempotency.Settled.{settled, has_mark}
use mcpx.Idempotency.Settled.Rows.{update_row-settled, delete_row-settled}
use mcpx.Idempotency.Settled.Owners.{from_parts, finish_flight-settled}

terminal-not_pending : (state : State) → is_terminal state ≡ true → is_pending state ≡ false
unfolding is_terminal is_pending
terminal-not_pending pending h = absurd (false≢true h)
terminal-not_pending unknown h = absurd (false≢true h)
terminal-not_pending succeeded h = refl
terminal-not_pending failed h = refl
terminal-not_pending in_doubt h = refl

-- An UPDATE that leaves no record pending that was not.
pub update-settled :
    (key k : Key) (test : Record → Bool) (change : Record → Record) (s : Store)
    → ((r : Record) → (change r).key ≡ r.key)
    → ((r : Record) → is_pending r.state ≡ false → is_pending (change r).state ≡ false)
    → settled key s ≡ true
    → settled key (record s { table = update_row k test change s.table }) ≡ true
update-settled key k test change s same keeps h =
    from_parts key s (record s { table = update_row k test change s.table }) refl
      (update_row-settled key k test change s.table same keeps) h

completed : ℕ → State → Option Bytes → Option Bytes → Record → Record
completed now state response metadata r = record r {
  state = state;
  response = json response;
  metadata = json metadata;
  updated_at = now;
}

pub complete-settled :
    (fails rows_unknown : Bool) (now : ℕ) (k : Key) (print : Bytes) (state : State)
    (response metadata : Option Bytes) (key : Key) (s : Store)
    → settled key s ≡ true
    → settled key (complete fails rows_unknown now k print state response metadata s).0 ≡ true
unfolding complete completed
complete-settled fails rows_unknown now k print state response metadata key s h =
    elim (Bool-cases (is_terminal state)) [
      | inr e ↦ ground arith
      | inl e ↦
          let row =
            update-settled key k (has_print print) (completed now state response metadata) s
              (λ r. refl) (λ r p. terminal-not_pending state e) h in
          let ended = finish_flight-settled key (identity k) _ row in ground arith
    ]

pub update_pending-settled :
    (fails : Bool) (now : ℕ) (k : Key) (print : Bytes) (response metadata : Option Bytes)
    (key : Key) (s : Store)
    → settled key s ≡ true
    → settled key (update_pending fails now k print response metadata s).0 ≡ true
unfolding update_pending
update_pending-settled fails now k print response metadata key s h =
    let row =
      update-settled key k (pending_print print)
        (λ r. record r { response = json response; metadata = json metadata; updated_at = now }) s
        (λ r. refl) (λ r p. p) h in
    ground arith

pub abandon-settled :
    (fails rows_unknown : Bool) (k : Key) (print : Bytes) (key : Key) (s : Store)
    → settled key s ≡ true
    → settled key (abandon fails rows_unknown k print s).0 ≡ true
unfolding abandon pending_print
abandon-settled fails rows_unknown k print key s h =
    let row =
      from_parts key s (record s { table = delete_row k (pending_print print) s.table }) refl
        (delete_row-settled key k (pending_print print) s.table (λ r p. ground arith)) h in
    let ended = finish_flight-settled key (identity k) _ row in ground arith

-- A tombstone added leaves the tombstones.
has_mark-added :
    (id id' print : Bytes) (entries : List (Bytes × Bytes))
    → has_mark print ≡ true
    → has_mark (find_uncertain id entries) ≡ true
    → has_mark (find_uncertain id ((id', print) ∷ entries)) ≡ true
unfolding find_uncertain
has_mark-added id id' print entries p h = elim (Bool-cases (str_eq id' id)) [
  | inl e ↦ rw (e) p
  | inr e ↦ rw (e) h
]

pub bury_flight-settled :
    (key : Key) (id print : Bytes) (s : Store) (o : Option Flight)
    → has_mark print ≡ true
    → settled key s ≡ true
    → settled key (bury_flight id print s o) ≡ true
unfolding bury_flight settled
bury_flight-settled key id print s none p h = h
bury_flight-settled key id print s (some f) p h =
    let added = has_mark-added (identity key) id print s.uncertain p in
    elim (Bool-cases (str_eq f.print print)) [ inl e ↦ rw (e) (ground arith) | inr e ↦ rw (e) h ]

pub has_mark-of_text : (print : Bytes) → is_blank print ≡ false → has_mark print ≡ true
unfolding has_mark is_blank
has_mark-of_text [] h = absurd (false≢true (sym h))
has_mark-of_text (c ∷ print) h = refl

mark_row-settled :
    (fails rows_unknown : Bool) (now : ℕ) (k : Key) (print : Bytes) (metadata : Option Bytes)
    (key : Key) (s : Store)
    → settled key s ≡ true
    → settled key (mark_row fails rows_unknown now k print metadata s).0 ≡ true
unfolding mark_row is_pending
mark_row-settled fails rows_unknown now k print metadata key s h =
    let row =
      update-settled key k (has_print print)
        (λ r. record r { state = in_doubt; metadata = marked metadata r; updated_at = now }) s
        (λ r. refl) (λ r p. refl) h in
    let ended = finish_flight-settled key (identity k) _ row in ground arith

pub mark_in_doubt-settled :
    (fails rows_unknown : Bool) (now : ℕ) (k : Key) (print : Bytes) (metadata : Option Bytes)
    (key : Key) (s : Store)
    → settled key s ≡ true
    → settled key (mark_in_doubt fails rows_unknown now k print metadata s).0 ≡ true
unfolding mark_in_doubt bury
mark_in_doubt-settled fails rows_unknown now k print metadata key s h =
    let row = mark_row-settled fails rows_unknown now k print metadata key s h in
    elim (Bool-cases (is_blank print)) [
      | inl e ↦ ground arith
      | inr e ↦
          let t = (mark_row fails rows_unknown now k print metadata s).0 in
          let buried =
            bury_flight-settled key (identity k) print t (find_flight (identity k) t.flights)
              (has_mark-of_text print e) row in
          ground arith
    ]
