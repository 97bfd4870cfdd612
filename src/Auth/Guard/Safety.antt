-- ===== src/Auth/Guard/Safety.antt =====
-- What a request that passes has been checked for.
use stellar_yield_contracts.Base.{
  ℕ, ◌≡◌, ◌∙◌, sym, refl, ap, true, Option, none, some, List, arith, Bool-cases, inl, inr, Result,
  ok, err,
}
use stellar_yield_contracts.Base.Int.{ℤ}
use stellar_yield_contracts.Auth.Keys.{
  ApiKey, AuthState, is_contract_allowed, lookup_api_key_by_plaintext,
}
use stellar_yield_contracts.Auth.Guard.{
  min_readonly, AuthError, contract_not_allowed, Options, Request, Verified, verified,
  token_expired, not_a_token, check_session, verify_admin_session, count_request, is_locked_out,
  key_answer, by_plaintext, session_or_key, by_session, by_token, by_bearer, require_api_key,
  with_key, unless_anonymous, optional_api_key, enforce_api_key_contract_scope,
}
use stellar_yield_contracts.Auth.Guard.Checks.{
  IsAuthorized, throw_last, unless, IsSession, check_key-IsAuthorized, check_session-IsAuthorized,
  role_session-IsSession,
}

module _ (number : List ℕ → Option ℤ) (sha256 : List ℕ → List ℕ) (verify : List ℕ → Verified)
    (now : ℕ) (options : Options) (req : Request) where
  key_answer-IsAuthorized :
      (o : Option ApiKey) (s : AuthState) (k : ApiKey)
      → (key_answer number sha256 verify now options req (o, s)).0 ≡ ok k
      → IsAuthorized number now options req k
  key_answer-IsAuthorized none s k h = ground (arith, h)
  key_answer-IsAuthorized (some k₁) s k h = check_key-IsAuthorized number now options req k₁ k h

  by_plaintext-IsAuthorized :
      (token : List ℕ) (s : AuthState) (k : ApiKey)
      → (by_plaintext number sha256 verify now options req token s).0 ≡ ok k
      → IsAuthorized number now options req k
  unfolding by_plaintext
  by_plaintext-IsAuthorized token s k h =
      key_answer-IsAuthorized (lookup_api_key_by_plaintext sha256 token s).0
        (lookup_api_key_by_plaintext sha256 token s).1 k h

  session_or_key-IsAuthorized :
      (token : List ℕ) (s : AuthState) (k : ApiKey) (o : Option (Result AuthError ApiKey))
      → ((k' : ApiKey) → o ≡ some (ok k') → IsAuthorized number now options req k')
      → (session_or_key number sha256 verify now options req token s o).0 ≡ ok k
      → IsAuthorized number now options req k
  session_or_key-IsAuthorized token s k none safe h = by_plaintext-IsAuthorized token s k h
  session_or_key-IsAuthorized token s k (some r) safe h = safe k (ap some h)

  by_session-IsAuthorized :
      (token : List ℕ) (s : AuthState) (k : ApiKey) (o : Option ApiKey)
      → ((k' : ApiKey) → o ≡ some k' → IsSession k')
      → (by_session number sha256 verify now options req token s o).0 ≡ ok k
      → IsAuthorized number now options req k
  by_session-IsAuthorized token s k none plain h = by_plaintext-IsAuthorized token s k h
  by_session-IsAuthorized token s k (some k₁) plain h =
      session_or_key-IsAuthorized token s k (check_session number now options req k₁ s)
        (λ k' e. check_session-IsAuthorized number now options req k₁ k' s (plain k₁ refl) e) h

  by_token-IsAuthorized :
      (token : List ℕ) (s : AuthState) (k : ApiKey) (v : Verified)
      → (by_token number sha256 verify now options req token s v).0 ≡ ok k
      → IsAuthorized number now options req k
  by_token-IsAuthorized token s k (verified c) h =
      by_session-IsAuthorized token s k (verify_admin_session c)
        (λ k' e. role_session-IsSession c c.role k' e) h
  by_token-IsAuthorized token s k token_expired h = ground (arith, h)
  by_token-IsAuthorized token s k not_a_token h = by_plaintext-IsAuthorized token s k h

  by_bearer-IsAuthorized :
      (s : AuthState) (k : ApiKey) (b : Option (List ℕ))
      → (by_bearer number sha256 verify now options req s b).0 ≡ ok k
      → IsAuthorized number now options req k
  by_bearer-IsAuthorized s k none h = ground (arith, h)
  by_bearer-IsAuthorized s k (some token) h = by_token-IsAuthorized token s k (verify token) h

  pub require_api_key-checks :
      (s : AuthState) (k : ApiKey)
      → (require_api_key number sha256 verify now options req s).0 ≡ ok k
      → IsAuthorized number now options req k
  unfolding require_api_key
  require_api_key-checks s k h = elim (Bool-cases (is_locked_out (count_request s).0)) [
    | inl locked ↦ ground (arith, rw locked at h)
    | inr free ↦ by_bearer-IsAuthorized (count_request s).1 k req.bearer (rw free at h)
  ]

  with_key-ok :
      (r : Result AuthError ApiKey) (o : Option ApiKey)
      → with_key number sha256 verify r ≡ ok o
      → (k : ApiKey) × (o ≡ some k) × (r ≡ ok k)
  with_key-ok (ok k) o h = (k, ground (arith, h), refl)
  with_key-ok (err e) o h = ground (arith, h)

-- On a route that is otherwise public, a request that presents a token and carries no key yet goes on only
-- with a key, which is authorized as a reading request, and past the scope of a vault that the route names
-- only if the key allows that vault.
pub optional_api_key-IsAuthorized :
    (number : List ℕ → Option ℤ) (sha256 : List ℕ → List ℕ) (verify : List ℕ → Verified)
    (now contract_id : ℕ) (req : Request) (token : List ℕ) (s : AuthState) (o : Option ApiKey)
    → req.bearer ≡ some token
    → (optional_api_key number sha256 verify now req none s).0 ≡ ok o
    → enforce_api_key_contract_scope o contract_id ≡ ok tt
    → (k : ApiKey) × (o ≡ some k)
      × IsAuthorized number now (record { role = none; min_role = some min_readonly }) req k
      × (is_contract_allowed k.allowed_contract_ids contract_id ≡ true)
unfolding optional_api_key enforce_api_key_contract_scope
optional_api_key-IsAuthorized number sha256 verify now contract_id req token s o shown h passed =
    let readers : Options = record { role = none; min_role = some min_readonly } in
    let (k, same, answer) =
      with_key-ok number sha256 verify now readers req
        (require_api_key number sha256 verify now readers req s).0 o
        (sym (ap (λ b. (unless_anonymous number sha256 verify now req b s).0) shown) ∙ h) in
    let allowed = throw_last _ contract_not_allowed (rw same at passed) in
    (
      k,
      same,
      require_api_key-checks number sha256 verify now readers req s k answer,
      unless _ allowed,
    )
