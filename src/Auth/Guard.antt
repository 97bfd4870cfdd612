-- ===== src/Auth/Guard.antt =====
-- `requireApiKey` of auth.ts, for one request. JavaScript's `Number`, SHA-256 and the JWT library are
-- parameters. The counter of an address's requests is that of one window of 15 minutes.
mod Requests
pub mod Checks
pub mod Safety
pub mod Origin
pub mod Lockout
pub use Requests.*
use stellar_yield_contracts.Base.{
  ℕ, ◌+◌, ◌*◌, Bool, true, false, ◌&&◌, ◌||◌, not, Option, none, some, List, [], ◌∷◌, ltb, leb,
  ◌==◌, if◌then◌else◌, Result, ok, err, ◌>>=◌, ◌>>◌, throw_if,
}
use stellar_yield_contracts.Base.Int.{ℤ, pos, negsuc, ltb_ℤ}
use stellar_yield_contracts.Amounts.Text.{codes, trim}
use stellar_yield_contracts.Auth.Text.{eq_text, split_on}
use stellar_yield_contracts.Auth.Cidr.{is_ip_allowed_by_cidrs}
use stellar_yield_contracts.Auth.Keys.{
  Role, admin, readonly, eq_role, ApiKey, KeyRow, Redis, AuthState, lookup_api_key_by_plaintext,
  lookup_api_key_scope_by_id, is_contract_allowed, is_method_allowed,
}

-- The checks that the two kinds of key share.
unfoldable pub check_use : ℕ → Options → Request → ApiKey → Result AuthError (Unit {0})
check_use now options req k = do
  throw_if (is_expired now k.expires_at) invalid_credentials
  throw_if (not (is_method_allowed k.allowed_methods req.method)) method_not_permitted
  throw_if (other_role options.role k.role) insufficient_permissions
  throw_if (below_min_role options.min_role k.role req.method) insufficient_permissions

-- The rest of `requireApiKey` for a key that the plaintext lookup found. `number` is JavaScript's.
unfoldable pub check_key :
    (List ℕ → Option ℤ) → ℕ → Options → Request → ApiKey → Result AuthError ApiKey
unfolding check_use
check_key number now options req k = do
  throw_if (not k.active) invalid_credentials
  check_use now options req k
  throw_if (not (is_ip_allowed_by_cidrs number (get_client_ip req) k.allowed_cidrs)) ip_not_allowed
  throw_if (contract_denied k.allowed_contract_ids req.contract_id) contract_not_allowed
  ok k

abbrev pub scope_cidrs : Option KeyRow → Option (List (List ℕ))
scope_cidrs none = none
scope_cidrs (some row) = row.key.allowed_cidrs

abbrev pub scope_contracts : Option KeyRow → Option (List ℕ)
scope_contracts none = none
scope_contracts (some row) = row.key.allowed_contract_ids

-- The scope of the session's key, where it has one.
unfoldable pub check_scope :
    (List ℕ → Option ℤ) → Request → ApiKey → Option KeyRow → Result AuthError ApiKey
check_scope number req k scope = do
  throw_if (not (is_ip_allowed_by_cidrs number (get_client_ip req) (scope_cidrs scope)))
      ip_not_allowed
  throw_if (contract_denied (scope_contracts scope) req.contract_id) contract_not_allowed
  ok (record k { allowed_contract_ids = scope_contracts scope })

abbrev session_answer :
    (List ℕ → Option ℤ)
    → Request
    → ApiKey
    → AuthState
    → Result AuthError (Unit {0})
    → Option (Result AuthError ApiKey)
session_answer number req k s (err e) = some (err e)
session_answer number req k s (ok _) =
    if ltb_ℤ (pos 0) k.id
    then (if s.database_up
        then some (check_scope number req k (lookup_api_key_scope_by_id k.id s))
        else none)
    else some (ok k)

-- The answer for a session, or none where the lookup of its scope throws: the `catch` of the middleware
-- then goes on to the plaintext lookup.
unfoldable pub check_session :
    (List ℕ → Option ℤ)
    → ℕ
    → Options
    → Request
    → ApiKey
    → AuthState
    → Option (Result AuthError ApiKey)
unfolding check_use check_scope
check_session number now options req k s =
    session_answer number req k s (check_use now options req k)

abbrev count_in : Option Redis → AuthState → Option ℕ × AuthState
count_in none s = (none, s)
count_in (some r) s =
    (some (r.auth_fail + 1), record s { redis = some (record r { auth_fail = r.auth_fail + 1 }) })

-- `incrementCounter`; the count is null without Redis
abbrev pub count_request : AuthState → Option ℕ × AuthState
count_request s = count_in s.redis s

-- `AUTH_FAIL_LOCKOUT_THRESHOLD`
abbrev pub lockout_threshold : ℕ
lockout_threshold = 20

abbrev pub is_locked_out : Option ℕ → Bool
is_locked_out none = false
is_locked_out (some count) = ltb lockout_threshold count

module _ (number : List ℕ → Option ℤ) (sha256 : List ℕ → List ℕ) (verify : List ℕ → Verified) where
  abbrev key_answer :
      ℕ → Options → Request → Option ApiKey × AuthState → Result AuthError ApiKey × AuthState
  key_answer now options req (none, s) = (err invalid_credentials, s)
  key_answer now options req (some k, s) = (check_key number now options req k, s)

  -- The part of `requireApiKey` after the `try`.
  unfoldable pub by_plaintext :
      ℕ → Options → Request → List ℕ → AuthState → Result AuthError ApiKey × AuthState
  unfolding check_key
  by_plaintext now options req token s =
      key_answer now options req (lookup_api_key_by_plaintext sha256 token s)

  abbrev session_or_key :
      ℕ
      → Options
      → Request
      → List ℕ
      → AuthState
      → Option (Result AuthError ApiKey)
      → Result AuthError ApiKey × AuthState
  session_or_key now options req token s none = by_plaintext now options req token s
  session_or_key now options req token s (some r) = (r, s)

  abbrev by_session :
      ℕ
      → Options
      → Request
      → List ℕ
      → AuthState
      → Option ApiKey
      → Result AuthError ApiKey × AuthState
  by_session now options req token s none = by_plaintext now options req token s
  by_session now options req token s (some k) =
      session_or_key now options req token s (check_session number now options req k s)

  abbrev by_token :
      ℕ → Options → Request → List ℕ → AuthState → Verified → Result AuthError ApiKey × AuthState
  by_token now options req token s (verified c) =
      by_session now options req token s (verify_admin_session c)
  by_token now options req token s token_expired = (err invalid_credentials, s)
  by_token now options req token s not_a_token = by_plaintext now options req token s

  abbrev by_bearer :
      ℕ → Options → Request → AuthState → Option (List ℕ) → Result AuthError ApiKey × AuthState
  by_bearer now options req s none = (err missing_key, s)
  by_bearer now options req s (some token) = by_token now options req token s (verify token)

  -- `requireApiKey`: the key that `req.apiKey` is set to, or the error that is sent.
  unfoldable pub require_api_key :
      ℕ → Options → Request → AuthState → Result AuthError ApiKey × AuthState
  unfolding by_plaintext check_session
  require_api_key now options req s =
      let (count, s₁) = count_request s in
      if is_locked_out count then (err locked_out, s₁) else by_bearer now options req s₁ req.bearer

  abbrev with_key : Result AuthError ApiKey → Result AuthError (Option ApiKey)
  with_key (ok k) = ok (some k)
  with_key (err e) = err e

  abbrev authenticate : ℕ → Request → AuthState → Result AuthError (Option ApiKey) × AuthState
  authenticate now req s =
      let (r, t) =
        require_api_key now (record { role = none; min_role = some min_readonly }) req s in
      (with_key r, t)

  abbrev unless_anonymous :
      ℕ → Request → Option (List ℕ) → AuthState → Result AuthError (Option ApiKey) × AuthState
  unless_anonymous now req none s = (ok none, s)
  unless_anonymous now req (some token) s = authenticate now req s

  -- `optionalApiKey`: `current` is the key that the request carries already; the answer is the key that it
  -- goes on with, if any.
  unfoldable pub optional_api_key :
      ℕ → Request → Option ApiKey → AuthState → Result AuthError (Option ApiKey) × AuthState
  optional_api_key now req (some k) s = (ok (some k), s)
  optional_api_key now req none s = unless_anonymous now req req.bearer s

abbrev key_contracts : Option ApiKey → Option (List ℕ)
key_contracts none = none
key_contracts (some k) = k.allowed_contract_ids

-- `enforceApiKeyContractScope`
unfoldable pub enforce_api_key_contract_scope : Option ApiKey → ℕ → Result AuthError (Unit {0})
enforce_api_key_contract_scope current contract_id =
    throw_if (not (is_contract_allowed (key_contracts current) contract_id)) contract_not_allowed
