-- ===== src/Oauth/Eviction.antt =====
-- How the lengths of the maps change, and that an eviction makes room.
use mathlib.Core.Path.{subst}
use mcpx.Base.{
  ℕ, ◌≤◌, ◌<◌, ◌≡◌, refl, sym, ◌∙◌, ◌⊎◌, Bool, true, false, ◌||◌, some, List, [], ◌∷◌, leb, ltb,
  length, Bool-cases, inl, inr, arith, Bytes, str_eq, str_eq_refl, All,
}
use mcpx.Oauth.Server.{
  AuthCode, RefreshGrant, Server, delete, find, set, prune_codes, issue_code, max_pending_codes,
}
use mcpx.Oauth.Refresh.{prune_refresh, evict, oldest_of, max_refresh_tokens}
use mcpx.Oauth.Backed.{All-delete}

pub length-delete {ℓ} :
    {A : Type ℓ} (key : Bytes) (m : List (Bytes × A)) → length (delete key m) ≤ length m
unfolding delete
length-delete key [] = omega arith
length-delete key ((k, v) ∷ m) =
    let rest = length-delete key m in
    elim (Bool-cases (str_eq k key)) [ inl e ↦ rw (e) (omega arith) | inr e ↦ rw (e) (omega arith) ]

-- The keys of the entries, and whether one is the given key.
abbrev pub HasKey {ℓ} : {A : Type ℓ} → Bytes → List (Bytes × A) → Type 0
HasKey key [] = ⊥
HasKey key ((k, v) ∷ m) = (str_eq k key ≡ true) ⊎ HasKey key m

pub length-delete_there {ℓ} :
    {A : Type ℓ} (key : Bytes) (m : List (Bytes × A))
    → HasKey key m
    → length (delete key m) < length m
unfolding delete
length-delete_there key [] h = absurd h
length-delete_there key ((k, v) ∷ m) (inl e) =
    let rest = length-delete key m in rw (e) (omega arith)
length-delete_there key ((k, v) ∷ m) (inr h) =
    let rest = length-delete_there key m h in
    elim (Bool-cases (str_eq k key)) [ inl e ↦ rw (e) (omega arith) | inr e ↦ rw (e) (omega arith) ]

pub find-HasKey {ℓ} :
    {A : Type ℓ} (key : Bytes) (a : A) (m : List (Bytes × A)) → find key m ≡ some a → HasKey key m
unfolding find
find-HasKey key a [] e = absurd (cc)
find-HasKey key a ((k, v) ∷ m) e = elim (Bool-cases (str_eq k key)) [
  | inl t ↦ inl t
  | inr t ↦ inr (find-HasKey key a m (ground arith))
]

-- No key is empty.
abbrev pub IsKeyed {ℓ} : {A : Type ℓ} → Bytes × A → Type 0
IsKeyed (k, v) = str_eq k [] ≡ false

oldest-HasKey :
    (key : Bytes) (oldest : ℕ) (m : List (Bytes × RefreshGrant))
    → (oldest_of key oldest m ≡ key) ⊎ HasKey (oldest_of key oldest m) m
unfolding oldest_of
oldest-HasKey key oldest [] = inl refl
oldest-HasKey key oldest ((k, v) ∷ m) =
    elim (Bool-cases (str_eq key [] || ltb v.grant_expires_at oldest)) [
      | inl e ↦
          let step : oldest_of k v.grant_expires_at m ≡ oldest_of key oldest ((k, v) ∷ m) =
            rw (e) refl in
          inr (
            subst (λ x. HasKey x ((k, v) ∷ m)) step
              (elim (oldest-HasKey k v.grant_expires_at m) [
                | inl same ↦ inl (rw (same) (str_eq_refl k))
                | inr there ↦ inr there
              ]))
      | inr e ↦
          let step : oldest_of key oldest m ≡ oldest_of key oldest ((k, v) ∷ m) = rw (e) refl in
          elim (oldest-HasKey key oldest m) [
            | inl same ↦ inl (sym step ∙ same)
            | inr there ↦ inr (subst (λ x. HasKey x ((k, v) ∷ m)) step (inr there))
          ]
    ]

oldest_keyed :
    (key : Bytes) (oldest : ℕ) (m : List (Bytes × RefreshGrant))
    → All IsKeyed m
    → str_eq key [] ≡ false
    → str_eq (oldest_of key oldest m) [] ≡ false
unfolding oldest_of
oldest_keyed key oldest [] h e = e
oldest_keyed key oldest ((k, v) ∷ m) (h, hs) e =
    elim (Bool-cases (str_eq key [] || ltb v.grant_expires_at oldest)) [
      | inl t ↦ rw (t) (oldest_keyed k v.grant_expires_at m hs h)
      | inr t ↦ rw (t) (oldest_keyed key oldest m hs e)
    ]

evict_with :
    (m : List (Bytes × RefreshGrant)) (key : Bytes)
    → oldest_of [] 0 m ≡ key
    → str_eq key [] ≡ false
    → length (delete key m) < length m
    → length m ≤ max_refresh_tokens
    → length (evict m) < max_refresh_tokens
unfolding evict
evict_with m key e n less few = elim (Bool-cases (leb max_refresh_tokens (length m))) [
  | inl t ↦ rw (t, e, n) (omega arith)
  | inr t ↦ rw (t) (ground arith)
]

oldest_there :
    (k : Bytes) (v : RefreshGrant) (m : List (Bytes × RefreshGrant))
    → HasKey (oldest_of k v.grant_expires_at m) ((k, v) ∷ m)
oldest_there k v m = elim (oldest-HasKey k v.grant_expires_at m) [
  | inl same ↦ inl (rw (same) (str_eq_refl k))
  | inr there ↦ inr there
]

-- A map that is full has room for one behind the eviction.
pub evict_makes_room :
    (m : List (Bytes × RefreshGrant))
    → All IsKeyed m
    → length m ≤ max_refresh_tokens
    → length (evict m) < max_refresh_tokens
unfolding evict oldest_of
evict_makes_room [] h few = ground arith
evict_makes_room ((k, v) ∷ m) (h, hs) few =
    let key = oldest_of k v.grant_expires_at m in
    evict_with ((k, v) ∷ m) key refl (oldest_keyed k v.grant_expires_at m hs h)
      (length-delete_there key ((k, v) ∷ m) (oldest_there k v m)) few

pub All-evict : (m : List (Bytes × RefreshGrant)) → All IsKeyed m → All IsKeyed (evict m)
unfolding evict
All-evict m h = elim (Bool-cases (leb max_refresh_tokens (length m))) [
  | inl t ↦ rw (t) (elim (Bool-cases (str_eq (oldest_of [] 0 m) [])) [
    | inl e ↦ rw (e) h
    | inr e ↦ rw (e) (All-delete IsKeyed (oldest_of [] 0 m) m h)
  ])
  | inr t ↦ rw (t) h
]

pub All-prune_refresh {κ} :
    (P : Bytes × RefreshGrant → Type κ) (now : ℕ) (m : List (Bytes × RefreshGrant))
    → All P m
    → All P (prune_refresh now m) × (length (prune_refresh now m) ≤ length m)
unfolding prune_refresh
All-prune_refresh P now [] h = (tt, omega arith)
All-prune_refresh P now ((k, v) ∷ m) (h, hs) =
    let (rest, fewer) = All-prune_refresh P now m hs in
    elim (Bool-cases (ltb v.grant_expires_at now)) [
      | inl e ↦ rw (e) (rest, omega arith)
      | inr e ↦ rw (e) ((h, rest), omega arith)
    ]

length-prune_codes : (now : ℕ) (m : List (Bytes × AuthCode)) → length (prune_codes now m) ≤ length m
unfolding prune_codes
length-prune_codes now [] = omega arith
length-prune_codes now ((k, v) ∷ m) =
    let rest = length-prune_codes now m in
    elim (Bool-cases (ltb v.code_expires_at now)) [
      | inl e ↦ rw (e) (omega arith)
      | inr e ↦ rw (e) (omega arith)
    ]

pub issue_bounded :
    (accepted : Bool) (fresh client redirect challenge method resource scope : Bytes)
    (now later : ℕ) (s : Server)
    → length s.pending ≤ max_pending_codes
    → length
        (issue_code accepted fresh client redirect challenge method resource scope now later
          s).0.pending
      ≤ max_pending_codes
unfolding issue_code set
issue_bounded accepted fresh client redirect challenge method resource scope now later s h =
    let pruned = length-prune_codes now s.pending in
    let less = length-delete fresh (prune_codes now s.pending) in ground arith
