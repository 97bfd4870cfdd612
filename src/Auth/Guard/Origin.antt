-- ===== src/Auth/Guard/Origin.antt =====
-- Where the key of a request that passes comes from.
use stellar_yield_contracts.Base.{
  ◌⊎◌, ℕ, ◌≡◌, refl, ap, true, false, Option, none, some, List, arith, Bool-cases, inl, inr, Result,
  ok, find,
}
use stellar_yield_contracts.Base.Int.{ℤ, pos, ltb_ℤ}
use stellar_yield_contracts.Auth.Keys.{
  has_id, lookup_api_key_scope_by_id, ApiKey, KeyRow, Redis, AuthState, has_hash, is_revoked,
  lookup_api_key_by_plaintext,
}
use stellar_yield_contracts.Auth.Keys.Salted.{accept_row-some}
use stellar_yield_contracts.Auth.Guard.{
  Claims, get_client_ip, scope_cidrs, scope_contracts, contract_denied, check_use, AuthError,
  Options, Request, Verified, verified, token_expired, not_a_token, check_session,
  verify_admin_session, count_in, count_request, is_locked_out, key_answer, by_plaintext,
  session_or_key, by_session, by_token, by_bearer, require_api_key,
}
use stellar_yield_contracts.Auth.Guard.Checks.{
  IsAuthorized, check_key-same, check_scope-ok, session_answer-HasScope,
}
use stellar_yield_contracts.Auth.Cidr.{is_ip_allowed_by_cidrs}
use stellar_yield_contracts.Auth.Guard.Safety.{require_api_key-checks}

-- The scope of a session, among the rows of `api_keys`: the client's address and the vault are allowed by the
-- row that the session was made from, whose vaults the key goes on with; a session without a positive id
-- has no row.
abbrev pub InScope : (List ℕ → Option ℤ) → Request → List KeyRow → ApiKey → ApiKey → Type 0
InScope number req rows session k =
    let row = find (has_id session.id) rows in
    ((ltb_ℤ (pos 0) session.id ≡ true)
      × (is_ip_allowed_by_cidrs number (get_client_ip req) (scope_cidrs row) ≡ true)
      × (contract_denied (scope_contracts row) req.contract_id ≡ false)
      × (record session { allowed_contract_ids = scope_contracts row } ≡ k))
    ⊎ ((ltb_ℤ (pos 0) session.id ≡ false) × (session ≡ k))

pub check_session-InScope :
    (number : List ℕ → Option ℤ) (now : ℕ) (options : Options) (req : Request) (k k' : ApiKey)
    (s : AuthState)
    → check_session number now options req k s ≡ some (ok k')
    → InScope number req s.api_keys k k'
unfolding check_session
check_session-InScope number now options req k k' s h =
    let (used, scoped) =
      session_answer-HasScope number req k k' s (check_use now options req k) h in
    elim scoped [
      | inl (stored, passed) ↦
          let (ip, contract, same) =
            check_scope-ok number req k k' (lookup_api_key_scope_by_id k.id s) passed in
          inl (stored, ip, contract, same)
      | inr (derived, same) ↦ inr (derived, same)
    ]

-- Where the key of a request that passes comes from: it is the stored key whose hash is that of the token, or
-- that of a verified session, in its scope.
pub data HasOrigin (number : List ℕ → Option ℤ) (sha256 : List ℕ → List ℕ)
    (verify : List ℕ → Verified) (req : Request) (rows : List KeyRow) (token : List ℕ) (k : ApiKey)
    : Type 0 where
  from_key :
      (row : KeyRow)
      → find (has_hash (sha256 token)) rows ≡ some row
      → row.key ≡ k
      → HasOrigin number sha256 verify req rows token k
  from_session :
      (c : Claims) (session : ApiKey)
      → verify token ≡ verified c
      → verify_admin_session c ≡ some session
      → InScope number req rows session k
      → HasOrigin number sha256 verify req rows token k

lookup-found :
    (sha256 : List ℕ → List ℕ) (token : List ℕ) (s : AuthState) (k : ApiKey)
    → (lookup_api_key_by_plaintext sha256 token s).0 ≡ some k
    → (row : KeyRow) × (find (has_hash (sha256 token)) s.api_keys ≡ some row) × (row.key ≡ k)
unfolding lookup_api_key_by_plaintext
lookup-found sha256 token s k h =
    let up : (is_revoked (sha256 token) s.redis ≡ false) × (s.database_up ≡ true) =
      ground (arith, h) in
    let (row, found, same, fits) =
      accept_row-some sha256 token (find (has_hash (sha256 token)) s.api_keys) s k
        (ground (arith, h, up)) in
    (row, found, same)

count_in-api_keys : (o : Option Redis) (s : AuthState) → (count_in o s).1.api_keys ≡ s.api_keys
count_in-api_keys none s = refl
count_in-api_keys (some r) s = refl

module _ (number : List ℕ → Option ℤ) (sha256 : List ℕ → List ℕ) (verify : List ℕ → Verified)
    (now : ℕ) (options : Options) (req : Request) where
  abbrev Origin : AuthState → List ℕ → ApiKey → Type 0
  Origin s token k = HasOrigin number sha256 verify req s.api_keys token k

  key_answer-Origin :
      (token : List ℕ) (o : Option ApiKey) (s t : AuthState) (k : ApiKey)
      → ((k' : ApiKey) → o ≡ some k' → Origin s token k')
      → (key_answer number sha256 verify now options req (o, t)).0 ≡ ok k
      → Origin s token k
  key_answer-Origin token none s t k found h = ground (arith, h)
  key_answer-Origin token (some k₁) s t k found h =
      found k (ap some (check_key-same number now options req k₁ k h))

  by_plaintext-Origin :
      (token : List ℕ) (s : AuthState) (k : ApiKey)
      → (by_plaintext number sha256 verify now options req token s).0 ≡ ok k
      → Origin s token k
  unfolding by_plaintext
  by_plaintext-Origin token s k h =
      key_answer-Origin token (lookup_api_key_by_plaintext sha256 token s).0 s
        (lookup_api_key_by_plaintext sha256 token s).1 k
        (λ k' e.
          let (row, found, same) = lookup-found sha256 token s k' e in from_key row found same)
        h

  session_or_key-Origin :
      (token : List ℕ) (s : AuthState) (k : ApiKey) (o : Option (Result AuthError ApiKey))
      → ((k' : ApiKey) → o ≡ some (ok k') → Origin s token k')
      → (session_or_key number sha256 verify now options req token s o).0 ≡ ok k
      → Origin s token k
  session_or_key-Origin token s k none safe h = by_plaintext-Origin token s k h
  session_or_key-Origin token s k (some r) safe h = safe k (ap some h)

  by_session-Origin :
      (token : List ℕ) (s : AuthState) (k : ApiKey) (o : Option ApiKey)
      → ((session k' : ApiKey)
          → o ≡ some session
          → check_session number now options req session s ≡ some (ok k')
          → Origin s token k')
      → (by_session number sha256 verify now options req token s o).0 ≡ ok k
      → Origin s token k
  by_session-Origin token s k none safe h = by_plaintext-Origin token s k h
  by_session-Origin token s k (some session) safe h =
      session_or_key-Origin token s k (check_session number now options req session s)
        (λ k' e. safe session k' refl e) h

  by_token-Origin :
      (token : List ℕ) (s : AuthState) (k : ApiKey) (v : Verified)
      → verify token ≡ v
      → (by_token number sha256 verify now options req token s v).0 ≡ ok k
      → Origin s token k
  by_token-Origin token s k (verified c) e h =
      by_session-Origin token s k (verify_admin_session c)
        (λ session k' is_session passed.
          from_session c session e is_session
            (check_session-InScope number now options req session k' s passed))
        h
  by_token-Origin token s k token_expired e h = ground (arith, h)
  by_token-Origin token s k not_a_token e h = by_plaintext-Origin token s k h

  by_bearer-Origin :
      (s : AuthState) (k : ApiKey) (b : Option (List ℕ))
      → (by_bearer number sha256 verify now options req s b).0 ≡ ok k
      → (token : List ℕ) × (b ≡ some token) × Origin s token k
  by_bearer-Origin s k none h = ground (arith, h)
  by_bearer-Origin s k (some token) h =
      (token, refl, by_token-Origin token s k (verify token) refl h)

  -- Whatever the tables and the caches hold, a request that passes has shown a token, and carries a key that is
  -- not expired, allows the request's method, has the role that the route asks for and, where the route's
  -- least role is "readonly", at least that; a least role "admin" is not checked. The key is either
  -- the active one that is stored under the hash of the token, and then allows the client's address and the
  -- vault that the route names, or that of a verified session token, and then the stored row that the
  -- session was made from allows the address and the vault, unless the session has no positive id.
  pub require_api_key-IsAuthorized :
      (s : AuthState) (k : ApiKey)
      → (require_api_key number sha256 verify now options req s).0 ≡ ok k
      → IsAuthorized number now options req k
        × (token : List ℕ) × (req.bearer ≡ some token)
        × HasOrigin number sha256 verify req s.api_keys token k
  unfolding require_api_key
  require_api_key-IsAuthorized s k h = elim (Bool-cases (is_locked_out (count_request s).0)) [
    | inl locked ↦ ground (arith, rw locked at h)
    | inr free ↦
        let (token, shown, origin) =
          by_bearer-Origin (count_request s).1 k req.bearer (rw free at h) in
        (
          require_api_key-checks number sha256 verify now options req s k h,
          token,
          shown,
          rw (count_in-api_keys s.redis s) at origin,
        )
  ]
