-- ===== src/Idempotency/Settled/Rows.antt =====
-- What the statements do to a settled record.
use mcpx.Base.{
  ◌≡◌, refl, sym, ◌∙◌, ap, Bool, true, false, not, Option, none, some, List, [], ◌∷◌, if◌then◌else◌,
  Bool-cases, inl, inr, arith,
}
use mathlib.Core.Bool.{false≢true}
use mcpx.Idempotency.Store.{Key, Record, same_key, find_record, update_row, delete_row}
use mcpx.Idempotency.Claim.{is_pending}
use mcpx.Idempotency.Settled.{settled_record}

abbrev IsSettled : Key → List Record → Type 0
IsSettled key rows = settled_record (find_record key rows) ≡ true

pub find_record-head :
    (key : Key) (r : Record) (rows : List Record)
    → same_key r.key key ≡ true
    → find_record key (r ∷ rows) ≡ some r
unfolding find_record
find_record-head key r rows e = rw (e) refl

pub find_record-tail :
    (key : Key) (r : Record) (rows : List Record)
    → same_key r.key key ≡ false
    → find_record key (r ∷ rows) ≡ find_record key rows
unfolding find_record
find_record-tail key r rows e = rw (e) refl

pub not-true : (b : Bool) → not b ≡ true → b ≡ false
not-true b h = ground arith

head_settled :
    (key : Key) (r : Record) (rows : List Record)
    → same_key r.key key ≡ true
    → IsSettled key (r ∷ rows)
    → is_pending r.state ≡ false
unfolding settled_record
head_settled key r rows e h =
    not-true (is_pending r.state) (sym (ap settled_record (find_record-head key r rows e)) ∙ h)

IsSettled-head :
    (key : Key) (r : Record) (rows : List Record)
    → same_key r.key key ≡ true
    → is_pending r.state ≡ false
    → IsSettled key (r ∷ rows)
unfolding settled_record
IsSettled-head key r rows e h = ap settled_record (find_record-head key r rows e) ∙ ap not h

-- Two heads with the same key, the second settled where the first is, over tails alike.
under_head :
    (key : Key) (r r' : Record) (rows rows' : List Record)
    → r'.key ≡ r.key
    → (is_pending r.state ≡ false → is_pending r'.state ≡ false)
    → (IsSettled key rows → IsSettled key rows')
    → IsSettled key (r ∷ rows)
    → IsSettled key (r' ∷ rows')
under_head key r r' rows rows' same head tail h = elim (Bool-cases (same_key r.key key)) [
  | inl e ↦
      IsSettled-head key r' rows' (ap (λ k. same_key k key) same ∙ e)
        (head (head_settled key r rows e h))
  | inr e ↦
      ap settled_record (find_record-tail key r' rows' (ap (λ k. same_key k key) same ∙ e))
      ∙ tail (sym (ap settled_record (find_record-tail key r rows e)) ∙ h)
]

pub update_row-settled :
    (key k : Key) (test : Record → Bool) (change : Record → Record) (rows : List Record)
    → ((r : Record) → (change r).key ≡ r.key)
    → ((r : Record) → is_pending r.state ≡ false → is_pending (change r).state ≡ false)
    → settled_record (find_record key rows) ≡ true
    → settled_record (find_record key (update_row k test change rows)) ≡ true
unfolding update_row
update_row-settled key k test change [] same keeps h = h
update_row-settled key k test change (r ∷ rows) same keeps h =
    elim (Bool-cases (same_key r.key k)) [
      | inl e ↦ elim (Bool-cases (test r)) [
        | inl t ↦ rw (e, t) (under_head key r (change r) rows rows (same r) (keeps r) (λ x. x) h)
        | inr t ↦ rw (e, t) h
      ]
      | inr e ↦ rw (e) (
          under_head key r r rows (update_row k test change rows) refl (λ x. x)
            (update_row-settled key k test change rows same keeps) h)
    ]

-- A record that is deleted is none that is settled.
drops_head :
    (key : Key) (r : Record) (rows : List Record)
    → is_pending r.state ≡ true
    → IsSettled key (r ∷ rows)
    → IsSettled key rows
drops_head key r rows p h = elim (Bool-cases (same_key r.key key)) [
  | inl e ↦ absurd (false≢true (sym (head_settled key r rows e h) ∙ p))
  | inr e ↦ sym (ap settled_record (find_record-tail key r rows e)) ∙ h
]

pub delete_row-settled :
    (key k : Key) (test : Record → Bool) (rows : List Record)
    → ((r : Record) → test r ≡ true → is_pending r.state ≡ true)
    → settled_record (find_record key rows) ≡ true
    → settled_record (find_record key (delete_row k test rows)) ≡ true
unfolding delete_row
delete_row-settled key k test [] only h = h
delete_row-settled key k test (r ∷ rows) only h = elim (Bool-cases (same_key r.key k)) [
  | inl e ↦ elim (Bool-cases (test r)) [
    | inl t ↦ rw (e, t) (drops_head key r rows (only r t) h)
    | inr t ↦ rw (e, t) h
  ]
  | inr e ↦ rw (e) (
      under_head key r r rows (delete_row k test rows) refl (λ x. x)
        (delete_row-settled key k test rows only) h)
]

unfoldable pub changed : (Record → Bool) → (Record → Record) → Option Record → Option Record
changed test change none = none
changed test change (some r) = some (if test r then change r else r)

-- The record that a statement changes is the one that a query finds behind it.
pub find_record-update_row :
    (key : Key) (test : Record → Bool) (change : Record → Record) (rows : List Record)
    → ((u : Record) → (change u).key ≡ u.key)
    → find_record key (update_row key test change rows) ≡ changed test change (find_record key rows)
unfolding update_row changed find_record
find_record-update_row key test change [] same = refl
find_record-update_row key test change (u ∷ rows) same = elim (Bool-cases (same_key u.key key)) [
  | inl e ↦ elim (Bool-cases (test u)) [
    | inl t ↦
        rw (e, t, find_record-head key (change u) rows (ap (λ k. same_key k key) (same u) ∙ e)) refl
    | inr t ↦ rw (e, t) (find_record-head key u rows e)
  ]
  | inr e ↦ rw (e) (
      find_record-tail key u (update_row key test change rows) e
      ∙ find_record-update_row key test change rows same)
]
