-- ===== src/Oauth/Entries.antt =====
-- The entries of a key in a map that is an association list.
use mcpx.Base.{
  ℕ, ◌+◌, ◌≤◌, ◌≡◌, refl, some, List, [], ◌∷◌, ltb, Bool-cases, inl, inr, arith, Bytes, str_eq,
  str_eq→eq,
}
use mcpx.Oauth.Server.{AuthCode, RefreshGrant, delete, find, set, prune_codes}
use mcpx.Oauth.Refresh.{prune_refresh, evict, oldest_of}
use mcpx.Oauth.Calls.{one_if}

-- The number of entries of a key.
unfoldable pub entries_of {ℓ} : {A : Type ℓ} → Bytes → List (Bytes × A) → ℕ
entries_of key [] = 0
entries_of key ((k, v) ∷ entries) = one_if (str_eq k key) + entries_of key entries

pub entries_of-delete {ℓ} :
    {A : Type ℓ} (key k : Bytes) (m : List (Bytes × A))
    → entries_of key (delete k m) ≤ entries_of key m
unfolding entries_of delete
entries_of-delete key k [] = omega arith
entries_of-delete key k ((j, v) ∷ m) =
    let rest = entries_of-delete key k m in
    elim (Bool-cases (str_eq j k)) [ inl e ↦ rw (e) (omega arith) | inr e ↦ rw (e) (omega arith) ]

pub entries_of-delete_same {ℓ} :
    {A : Type ℓ} (key : Bytes) (m : List (Bytes × A)) → entries_of key (delete key m) ≡ 0
unfolding entries_of delete
entries_of-delete_same key [] = refl
entries_of-delete_same key ((j, v) ∷ m) =
    let rest = entries_of-delete_same key m in
    elim (Bool-cases (str_eq j key)) [ inl e ↦ rw (e) rest | inr e ↦ rw (e) (rw (e) (omega arith)) ]

pub entries_of-set {ℓ} :
    {A : Type ℓ} (key k : Bytes) (a : A) (m : List (Bytes × A))
    → entries_of key (set k a m) ≤ one_if (str_eq k key) + entries_of key m
unfolding entries_of set
entries_of-set key k a m = let rest = entries_of-delete key k m in omega arith

pub found_entry {ℓ} :
    {A : Type ℓ} (key : Bytes) (a : A) (m : List (Bytes × A))
    → find key m ≡ some a
    → 1 ≤ entries_of key m
unfolding find entries_of
found_entry key a [] e = absurd (cc)
found_entry key a ((k, v) ∷ m) e = elim (Bool-cases (str_eq k key)) [
  | inl h ↦ rw (h) (omega arith)
  | inr h ↦ let rest = found_entry key a m (ground arith) in omega arith
]

pub entries_of-prune_codes :
    (key : Bytes) (now : ℕ) (m : List (Bytes × AuthCode))
    → entries_of key (prune_codes now m) ≤ entries_of key m
unfolding entries_of prune_codes
entries_of-prune_codes key now [] = omega arith
entries_of-prune_codes key now ((k, v) ∷ m) =
    let rest = entries_of-prune_codes key now m in
    elim (Bool-cases (ltb v.code_expires_at now)) [
      | inl e ↦ rw (e) (omega arith)
      | inr e ↦ rw (e) (omega arith)
    ]

pub entries_of-prune_refresh :
    (key : Bytes) (now : ℕ) (m : List (Bytes × RefreshGrant))
    → entries_of key (prune_refresh now m) ≤ entries_of key m
unfolding entries_of prune_refresh
entries_of-prune_refresh key now [] = omega arith
entries_of-prune_refresh key now ((k, v) ∷ m) =
    let rest = entries_of-prune_refresh key now m in
    elim (Bool-cases (ltb v.grant_expires_at now)) [
      | inl e ↦ rw (e) (omega arith)
      | inr e ↦ rw (e) (omega arith)
    ]

pub entries_of-evict :
    (key : Bytes) (m : List (Bytes × RefreshGrant)) → entries_of key (evict m) ≤ entries_of key m
unfolding evict
entries_of-evict key m = let rest = entries_of-delete key (oldest_of [] 0 m) m in ground arith

pub delete_counts :
    {A : Type 0} (key k : Bytes) (m : List (Bytes × A))
    → 1 ≤ entries_of k m
    → one_if (str_eq k key) + entries_of key (delete k m) ≤ entries_of key m
delete_counts key k m h = elim (Bool-cases (str_eq k key)) [
  | inl e ↦
      let same = str_eq→eq k key e in
      let gone = entries_of-delete_same key m in
      let there : 1 ≤ entries_of key m = rw (← same) h in rw (e) (rw (same) (omega arith))
  | inr e ↦ rw (e) (let less = entries_of-delete key k m in omega arith)
]
