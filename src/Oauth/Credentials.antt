-- ===== src/Oauth/Credentials.antt =====
-- What a client that Register answers authenticates with.
use mathlib.Core.Path.{subst}
use mcpx.Base.{
  ℕ, ◌≡◌, refl, ap, ◌∙◌, Bool, true, false, not, ◌&&◌, Option, none, some, List, [], if◌then◌else◌,
  leb, length, Bool-cases, inl, inr, arith, Bytes, codes, str_eq, str_eq_refl,
}
use mcpx.Oauth.Server.{find, set}
use mcpx.Oauth.Registry.{
  Url, Client, Registry, Outcome, done, refused, Refusal, still_drawing, limit_reached,
  unsupported_auth, validate_redirect_uris, draw_id, registered, store, with_id, register_validated,
  register, authenticates, authenticates_as, max_registered_clients, supported, or_none,
}

done_injective : (a b : Client) → ◌≡◌ {A = Outcome Client} (done a) (done b) → a ≡ b
done_injective a b e = cc

found_set : (id : Bytes) (c : Client) (m : List (Bytes × Client)) → find id (set id c m) ≡ some c
unfolding find set
found_set id c m = rw (str_eq_refl id) refl

-- What the token endpoint is to say of a secret.
abbrev pub expected : (Bytes → Bytes) → Bytes → Bytes → Bytes → Bool
expected digest method secret shown =
    if str_eq method (codes "none")
    then str_eq shown []
    else not (str_eq shown []) && str_eq (digest secret) (digest shown)

module _ (parse : Bytes → Option Url) (to_lower : Bytes → Bytes) (digest : Bytes → Bytes) where
  as_registered :
      (id secret method name shown : Bytes) (now : ℕ) (uris : List Bytes)
      → str_eq (digest secret) [] ≡ false
      → authenticates_as digest shown method
          (some (registered parse to_lower digest id secret method name now uris))
        ≡ expected digest method secret shown
  unfolding authenticates_as registered
  as_registered id secret method name shown now uris filled =
      elim (Bool-cases (str_eq method (codes "none"))) [
        | inl m ↦ rw (str_eq_refl method, m) refl
        | inr m ↦ rw (str_eq_refl method, m, filled) (ground arith)
      ]

  -- The answer of a registration, if it is a client, authenticates as is expected.
  abbrev pub Answers : Bytes → Bytes → Registry × Outcome Client → Type 0
  Answers secret shown (r, o) =
      (c : Client)
      → o ≡ done c
      → authenticates digest c.client_id shown c.auth_method r
        ≡ expected digest c.auth_method secret shown

  refused-Answers :
      (secret shown : Bytes) (r : Registry) (e : Refusal) → Answers secret shown (r, refused e)
  refused-Answers secret shown r e c h = absurd (cc)

  store-Answers :
      (saves : Bool) (id secret method name shown : Bytes) (now : ℕ) (uris : List Bytes)
      (r : Registry)
      → str_eq (digest secret) [] ≡ false
      → Answers secret shown (
          store parse to_lower digest saves
            (registered parse to_lower digest id secret method name now uris)
            r)
  unfolding store authenticates registered
  store-Answers false id secret method name shown now uris r filled c h = absurd (cc)
  store-Answers true id secret method name shown now uris r filled c h =
      let k = registered parse to_lower digest id secret method name now uris in
      let same : k ≡ c = done_injective k c h in
      subst
        (λ (x : Client).
          authenticates digest x.client_id shown x.auth_method
            (record { clients = set id k r.clients })
          ≡ expected digest x.auth_method secret shown)
        same
        (ap (authenticates_as digest shown method) (found_set id k r.clients)
          ∙ as_registered id secret method name shown now uris filled)

  with_id-Answers :
      (saves : Bool) (secret method name shown : Bytes) (now : ℕ) (uris : List Bytes) (r : Registry)
      (o : Option Bytes)
      → str_eq (digest secret) [] ≡ false
      → Answers secret shown (with_id parse to_lower digest saves secret method name now uris r o)
  unfolding with_id
  with_id-Answers saves secret method name shown now uris r none filled =
      refused-Answers secret shown r still_drawing
  with_id-Answers saves secret method name shown now uris r (some id) filled =
      store-Answers saves id secret method name shown now uris r filled

  validated-Answers :
      (saves : Bool) (ids : List Bytes) (secret method name shown : Bytes) (now : ℕ) (r : Registry)
      (o : Outcome (List Bytes))
      → str_eq (digest secret) [] ≡ false
      → Answers secret shown
          (register_validated parse to_lower digest saves ids secret method name now r o)
  unfolding register_validated
  validated-Answers saves ids secret method name shown now r (refused e) filled =
      refused-Answers secret shown r e
  validated-Answers saves ids secret method name shown now r (done uris) filled =
      elim (Bool-cases (supported parse to_lower digest method)) [
        | inl m ↦ rw (m) (elim (Bool-cases (leb max_registered_clients (length r.clients))) [
          | inl n ↦ rw (n) (refused-Answers secret shown r limit_reached)
          | inr n ↦ rw (n) (
              with_id-Answers saves secret method name shown now uris r
                (draw_id parse to_lower digest ids r.clients) filled)
        ])
        | inr m ↦ rw (m) (refused-Answers secret shown r unsupported_auth)
      ]

  -- Where the digest of the new secret is not empty, a client that Register answers authenticates with its
  -- method and exactly the secrets that are not empty and have that digest; a client with the method none
  -- exactly with the empty secret.
  pub register-authenticates :
      (saves : Bool) (ids uris : List Bytes) (secret method name shown : Bytes) (now : ℕ)
      (r : Registry) (c : Client)
      → str_eq (digest secret) [] ≡ false
      → (register parse to_lower digest saves ids uris secret method name now r).1 ≡ done c
      → authenticates digest c.client_id shown c.auth_method
          (register parse to_lower digest saves ids uris secret method name now r).0
        ≡ expected digest c.auth_method secret shown
  unfolding register
  register-authenticates saves ids uris secret method name shown now r c filled e =
      validated-Answers saves ids secret (or_none method) name shown now r
        (validate_redirect_uris parse to_lower uris) filled c e
