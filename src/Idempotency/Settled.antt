-- ===== src/Idempotency/Settled.antt =====
-- Records and tombstones that no operation makes executable again.
pub mod Rows
pub mod Owners
pub mod Keeps
pub mod Claims
pub mod Runs
pub mod Marks
use mcpx.Base.{Bool, true, false, not, ◌||◌, Option, none, some, [], ◌∷◌, Bytes}
use mcpx.Idempotency.Store.{Key, identity, Record, Store, find_record, find_uncertain}
use mcpx.Idempotency.Claim.{Answer, claimed, refused, claim_owner, is_pending}

unfoldable pub settled_record : Option Record → Bool
unfolding is_pending
settled_record none = false
settled_record (some r) = not (is_pending r.state)

unfoldable pub has_mark : Bytes → Bool
has_mark [] = false
has_mark (c ∷ mark) = true

-- The process has a tombstone for the key, or the table has a record that is not pending.
unfoldable pub settled : Key → Store → Bool
unfolding has_mark settled_record
settled key s =
    has_mark (find_uncertain (identity key) s.uncertain) || settled_record (find_record key s.table)

-- The answer that lets the caller execute.
unfoldable pub is_owner : Answer → Bool
is_owner (claimed (claim_owner r)) = true
is_owner _ = false
