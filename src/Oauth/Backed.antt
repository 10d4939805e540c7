-- ===== src/Oauth/Backed.antt =====
-- What an access token for a code rests on.
use mcpx.Base.{
  ℕ, ◌+◌, ◌*◌, ◌≤◌, ◌≡◌, refl, sym, ap, ◌∙◌, Bool, true, false, not, ◌&&◌, ◌||◌, Option, none, some,
  List, [], ◌∷◌, leb, ltb, length, Bool-cases, inl, inr, arith, Bytes, codes, str_eq, str_eq→eq,
  All, All-imp, In,
}
use mcpx.Oauth.Pkce.{valid_challenge, verify_s256}
use mcpx.Oauth.Server.{
  AuthCode, Server, Claims, Result, ok, failed, delete, find, set, prune_codes, new_code,
  issue_code, exchange_code, redeem, max_pending_codes, second,
}
use mcpx.Oauth.Refresh.{exchange_refresh_token}
use mcpx.Oauth.Calls.{
  Call, issuing, exchanging, granting, rotating, Answer, of_code, of_access, call,
}
use mcpx.Oauth.Once.{granting_pending, rotate_pending}

-- A map's entries that are left fulfil what all fulfil.
pub All-delete {ℓ κ} :
    {A : Type ℓ} (P : Bytes × A → Type κ) (key : Bytes) (m : List (Bytes × A))
    → All P m
    → All P (delete key m)
unfolding delete
All-delete P key [] h = tt
All-delete P key ((k, v) ∷ m) (h, hs) = elim (Bool-cases (str_eq k key)) [
  | inl e ↦ rw (e) (All-delete P key m hs)
  | inr e ↦ rw (e) (h, All-delete P key m hs)
]

All-prune_codes {κ} :
    (P : Bytes × AuthCode → Type κ) (now : ℕ) (m : List (Bytes × AuthCode))
    → All P m
    → All P (prune_codes now m)
unfolding prune_codes
All-prune_codes P now [] h = tt
All-prune_codes P now ((k, v) ∷ m) (h, hs) = elim (Bool-cases (ltb v.code_expires_at now)) [
  | inl e ↦ rw (e) (All-prune_codes P now m hs)
  | inr e ↦ rw (e) (h, All-prune_codes P now m hs)
]

pub All-find {ℓ κ} :
    {A : Type ℓ} (P : Bytes × A → Type κ) (key : Bytes) (a : A) (m : List (Bytes × A))
    → All P m
    → find key m ≡ some a
    → P (key, a)
unfolding find
All-find P key a [] h e = absurd (cc)
All-find P key a ((k, v) ∷ m) (h, hs) e = elim (Bool-cases (str_eq k key)) [
  | inl t ↦
      let same = str_eq→eq k key t in let value : v ≡ a = ground arith in rw (← same, ← value) h
  | inr t ↦ All-find P key a m hs (ground arith)
]

-- The call stored the code under the key.
abbrev pub Made : Call → Bytes × AuthCode → Type 0
Made (issuing accepted fresh client redirect challenge method resource scope now later) (k, v) =
    (accepted ≡ true) × (fresh ≡ k) × (v ≡ new_code client redirect challenge resource scope later)
Made _ _ = ⊥

-- What happened: the calls with their answers, the newest first.
abbrev pub History : Type 0
History = List (Call × Answer)

-- A call that answered the key stored the code under it.
abbrev IsIssued : History → Bytes × AuthCode → Type 0
IsIssued history entry = (g : Call) × In (g, of_code (ok entry.0)) history × Made g entry

-- The call was to issue the code to the client for the redirect URI, which was accepted then, with a
-- challenge that the verifier fulfils, and 300 seconds have not gone by.
abbrev pub Backs : (Bytes → Bytes) → Bytes → Bytes → Bytes → Bytes → ℕ → Call → Type 0
Backs s256 key redirect client verifier now
      (issuing accepted fresh c r challenge method resource scope n later) =
    (accepted ≡ true)
    × (fresh ≡ key)
    × (c ≡ client)
    × (r ≡ redirect)
    × (verify_s256 s256 verifier challenge ≡ true)
    × (now ≤ later + 300 * second)
Backs s256 key redirect client verifier now _ = ⊥

abbrev pub Backed : (Bytes → Bytes) → History → Call → Answer → Type 0
Backed s256 history (exchanging key redirect client verifier resource now later)
      (of_access (ok token)) =
    (g : Call) × In (g, of_code (ok key)) history × Backs s256 key redirect client verifier now g
Backed s256 history _ _ = Unit

Made-Backs :
    (s256 : Bytes → Bytes) (key redirect client verifier : Bytes) (now : ℕ) (v : AuthCode)
    (g : Call)
    → Made g (key, v)
    → ltb v.code_expires_at now ≡ false
    → v.code_client ≡ client
    → v.redirect_uri ≡ redirect
    → verify_s256 s256 verifier v.code_challenge ≡ true
    → Backs s256 key redirect client verifier now g
unfolding new_code
Made-Backs s256 key redirect client verifier now v
      (issuing accepted fresh c r challenge method resource scope n later) (a, k, e) fresh_code
      same_client same_uri proof =
    let expiry : v.code_expires_at ≡ later + 300 * second =
      ap (λ (x : AuthCode). x.code_expires_at) e in
    (
      a,
      k,
      sym (ap (λ (x : AuthCode). x.code_client) e) ∙ same_client,
      sym (ap (λ (x : AuthCode). x.redirect_uri) e) ∙ same_uri,
      ap (verify_s256 s256 verifier) (sym (ap (λ (x : AuthCode). x.code_challenge) e)) ∙ proof,
      ground arith,
    )
Made-Backs s256 key redirect client verifier now v (exchanging _ _ _ _ _ _ _) m _ _ _ _ = absurd m
Made-Backs s256 key redirect client verifier now v (granting _ _ _ _ _ _ _) m _ _ _ _ = absurd m
Made-Backs s256 key redirect client verifier now v (rotating _ _ _ _ _ _ _) m _ _ _ _ = absurd m

if_access :
    (s256 : Bytes → Bytes) (history : History) (key redirect client verifier resource : Bytes)
    (now later : ℕ) (r : Result Bytes)
    → ((g : Call) × In (g, of_code (ok key)) history
        × Backs s256 key redirect client verifier now g)
    → Backed s256 history (exchanging key redirect client verifier resource now later) (of_access r)
if_access s256 history key redirect client verifier resource now later (ok token) h = h
if_access s256 history key redirect client verifier resource now later (failed e) h = tt

redeem-Backed :
    (s256 : Bytes → Bytes) (sign : Bytes → Claims → Option Bytes) (history : History)
    (key redirect client verifier resource : Bytes) (now later : ℕ) (s : Server)
    (o : Option AuthCode)
    → ((v : AuthCode) → o ≡ some v → IsIssued history (key, v))
    → Backed s256 history
        (exchanging key redirect client verifier resource now later)
        (of_access (redeem sign s256 o redirect client verifier resource now later s))
unfolding redeem
redeem-Backed s256 sign history key redirect client verifier resource now later s none h = tt
redeem-Backed s256 sign history key redirect client verifier resource now later s (some v) h =
    elim (Bool-cases (ltb v.code_expires_at now)) [
      | inl m ↦ rw (m) tt
      | inr m ↦
          rw (m)
            (elim (Bool-cases
              (not (str_eq v.code_client client) || not (str_eq v.redirect_uri redirect))) [
                | inl n ↦ rw (n) tt
                | inr n ↦ rw (n) (elim (Bool-cases (verify_s256 s256 verifier v.code_challenge)) [
                  | inl p ↦ rw (p) (
                      let (g, there, made) = h v refl in
                      let backs =
                        Made-Backs s256 key redirect client verifier now v g made (ground arith)
                          (str_eq→eq v.code_client client (ground arith))
                          (str_eq→eq v.redirect_uri redirect (ground arith)) p in
                      if_access s256 history key redirect client verifier resource now later _
                        (g, there, backs))
                  | inr p ↦ rw (p) tt
                ])
              ])
    ]

older :
    (c : Call × Answer) (history : History) (entry : Bytes × AuthCode)
    → IsIssued history entry
    → IsIssued (c ∷ history) entry
older c history entry (g, there, made) = (g, inr there, made)

-- The entries behind IssueCode are those of before and the new one.
issued_code :
    (P : Bytes × AuthCode → Type 0) (accepted : Bool)
    (fresh client redirect challenge method resource scope : Bytes) (now later : ℕ) (s : Server)
    → All P s.pending
    → (accepted ≡ true
        → (issue_code accepted fresh client redirect challenge method resource scope now later s).1
          ≡ ok fresh
        → P (fresh, new_code client redirect challenge resource scope later))
    → All P
        (issue_code accepted fresh client redirect challenge method resource scope now later
          s).0.pending
unfolding issue_code set
issued_code P accepted fresh client redirect challenge method resource scope now later s h new =
    let pruned = All-prune_codes P now s.pending h in
    elim (Bool-cases (not (str_eq method []) && not (str_eq method (codes "S256")))) [
      | inl m ↦ rw (m) h
      | inr m ↦ rw (m) (elim (Bool-cases (valid_challenge challenge)) [
        | inl n ↦ rw (n) (elim (Bool-cases accepted) [
          | inl p ↦
              rw (p)
                (elim (Bool-cases (leb max_pending_codes (length (prune_codes now s.pending)))) [
                  | inl q ↦ rw (q) pruned
                  | inr q ↦ rw (q) (
                    new p (rw (m, n, p, q) refl),
                    All-delete P fresh (prune_codes now s.pending) pruned,
                  )
                ])
          | inr p ↦ rw (p) h
        ])
        | inr n ↦ rw (n) h
      ])
    ]

module _ (s256 key_of : Bytes → Bytes) (sign : Bytes → Claims → Option Bytes) where
  call-IsIssued :
      (c : Call) (history : History) (s : Server)
      → All (IsIssued history) s.pending
      → All
          (IsIssued ((c, (call s256 key_of sign c s).1) ∷ history))
          (call s256 key_of sign c s).0.pending
  unfolding call exchange_code exchange_refresh_token
  call-IsIssued (issuing accepted fresh client redirect challenge method resource scope now later)
        history s h =
      let c = issuing accepted fresh client redirect challenge method resource scope now later in
      let e : Call × Answer = (c, (call s256 key_of sign c s).1) in
      issued_code (IsIssued (e ∷ history)) accepted fresh client redirect challenge method resource
        scope now later s
        (All-imp (IsIssued history) (IsIssued (e ∷ history)) s.pending (older e history) h)
        (λ a answered. (c, inl (ap (λ r. (c, of_code r)) (sym answered)), (a, refl, refl)))
  call-IsIssued (exchanging key redirect client verifier resource now later) history s h =
      let c = exchanging key redirect client verifier resource now later in
      let e : Call × Answer = (c, (call s256 key_of sign c s).1) in
      All-delete (IsIssued (e ∷ history)) key s.pending
        (All-imp (IsIssued history) (IsIssued (e ∷ history)) s.pending (older e history) h)
  call-IsIssued (granting disk tokens client resource scope now later) history s h =
      let c = granting disk tokens client resource scope now later in
      let e : Call × Answer = (c, (call s256 key_of sign c s).1) in
      rw (granting_pending key_of disk tokens client resource scope now later s)
        (All-imp (IsIssued history) (IsIssued (e ∷ history)) s.pending (older e history) h)
  call-IsIssued (rotating disk tokens token client resource now later) history s h =
      let c = rotating disk tokens token client resource now later in
      let e : Call × Answer = (c, (call s256 key_of sign c s).1) in
      rw
        (rotate_pending key_of sign disk tokens token client resource now later s
          (find (key_of token) s.refresh))
        (All-imp (IsIssued history) (IsIssued (e ∷ history)) s.pending (older e history) h)

  call-Backed :
      (c : Call) (history : History) (s : Server)
      → All (IsIssued history) s.pending
      → Backed s256 history c (call s256 key_of sign c s).1
  unfolding call exchange_code
  call-Backed (issuing accepted fresh client redirect challenge method resource scope now later)
        history s h =
      tt
  call-Backed (exchanging key redirect client verifier resource now later) history s h =
      redeem-Backed s256 sign history key redirect client verifier resource now later s
        (find key s.pending) (λ v e. All-find (IsIssued history) key v s.pending h e)
  call-Backed (granting disk tokens client resource scope now later) history s h = tt
  call-Backed (rotating disk tokens token client resource now later) history s h = tt

  -- Every call is backed by what happened before it.
  pub AllBacked : History → List Call → Server → Type 0
  unfolding call
  AllBacked history [] s = Unit
  AllBacked history (c ∷ calls) s =
      let (t, r) = call s256 key_of sign c s in
      Backed s256 history c r × AllBacked ((c, r) ∷ history) calls t

  all_backed :
      (history : History) (calls : List Call) (s : Server)
      → All (IsIssued history) s.pending
      → AllBacked history calls s
  unfolding AllBacked
  all_backed history [] s h = tt
  all_backed history (c ∷ calls) s h = (
    call-Backed c history s h,
    all_backed ((c, (call s256 key_of sign c s).1) ∷ history) calls (call s256 key_of sign c s).0
        (call-IsIssued c history s h),
  )

  -- On a server that has no pending code at first, every access token that ExchangeCode returns rests on
  -- an IssueCode before it that answered this code (a refused one does not count), for the same client and for the same redirect URI, which
  -- was accepted then; the verifier fulfils its challenge, and the exchange came within 300 seconds of it.
  pub access_backed : (calls : List Call) (s : Server) → s.pending ≡ [] → AllBacked [] calls s
  access_backed calls s empty = all_backed [] calls s (rw (empty) tt)
