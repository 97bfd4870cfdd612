-- ===== src/Auth/Keys.antt =====
-- The API keys of auth.ts: the table `api_keys`, the cache of revoked keys and the counter of an
-- address's requests, the lookups, and the scopes of a key. Paths, labels, the usage counters and
-- the security log do not bear on the decision, and are left out.
pub mod Salted
use stellar_yield_contracts.Base.{
  ℕ, ◌+◌, Bool, true, false, ◌&&◌, not, Option, none, some, List, [], ◌∷◌, ◌++◌, ◌==◌,
  if◌then◌else◌, find, any, is_some,
}
use stellar_yield_contracts.Base.Int.{ℤ, pos, negsuc, eqb_ℤ}
use stellar_yield_contracts.Amounts.Text.{is_empty}
use stellar_yield_contracts.Auth.Text.{eq_text, to_upper_case}

-- `role`; the middleware compares it with these two.
pub data Role : Type 0 where
  admin readonly : Role
  named : ℕ → Role

abbrev pub eq_role : Role → Role → Bool
eq_role admin admin = true
eq_role readonly readonly = true
eq_role (named a) (named b) = a == b
eq_role _ _ = false

-- `ApiKey`: what an authenticated request carries.
pub record ApiKey : Type 0 where
  pub id : ℤ
  pub role : Role
  pub expires_at : Option ℕ
  pub active : Bool
  pub allowed_methods : Option (List (List ℕ))
  pub allowed_cidrs : Option (List (List ℕ))
  pub allowed_contract_ids : Option (List ℕ)

-- A row of `api_keys`.
pub record KeyRow : Type 0 where
  pub key : ApiKey
  pub key_salt : Option (List ℕ)
  pub key_hash : List ℕ

-- The counter that Redis keeps for the address, and the hashes under `revoked_key:`.
pub record Redis : Type 0 where
  pub auth_fail : ℕ
  pub revoked : List (List ℕ)

-- `database_up` is false while every query fails; without Redis the cache calls answer null.
pub record AuthState : Type 0 where
  pub api_keys : List KeyRow
  pub database_up : Bool
  pub redis : Option Redis

abbrev pub is_revoked : List ℕ → Option Redis → Bool
is_revoked hash none = false
is_revoked hash (some r) = any (eq_text hash) r.revoked

abbrev pub revoke_in : List ℕ → Option Redis → Option Redis
revoke_in hash none = none
revoke_in hash (some r) = some (record r { revoked = hash ∷ r.revoked })

-- `cacheSet(revokedCacheKey, true, …)`
abbrev pub revoke : List ℕ → AuthState → AuthState
revoke hash s = record s { redis = revoke_in hash s.redis }

-- The statement's condition `key_hash = $1 OR key_hash = $2`, whose two arguments are the same.
abbrev pub has_hash : List ℕ → KeyRow → Bool
has_hash hash row = eq_text row.key_hash hash

-- `row.keySalt && row.keyHash`, and the test of the salted hash
abbrev salted_hash_fits : (List ℕ → List ℕ) → List ℕ → List ℕ → Option (List ℕ) → Bool
salted_hash_fits sha256 plaintext key_hash none = true
salted_hash_fits sha256 plaintext key_hash (some salt) =
    if not (is_empty salt) && not (is_empty key_hash)
    then eq_text key_hash (sha256 (salt ++ plaintext))
    else true

abbrev pub salt_fits : (List ℕ → List ℕ) → List ℕ → KeyRow → Bool
salt_fits sha256 plaintext row = salted_hash_fits sha256 plaintext row.key_hash row.key_salt

abbrev pub accept_row :
    (List ℕ → List ℕ) → List ℕ → Option KeyRow → AuthState → Option ApiKey × AuthState
accept_row sha256 plaintext none s = (none, revoke (sha256 plaintext) s)
accept_row sha256 plaintext (some row) s =
    if salt_fits sha256 plaintext row
    then (some row.key, if row.key.active then s else revoke (sha256 plaintext) s)
    else (none, s)

-- `lookupApiKeyByPlaintext`. `sha256` is the hex digest, a text of lower case digits.
unfoldable pub lookup_api_key_by_plaintext :
    (List ℕ → List ℕ) → List ℕ → AuthState → Option ApiKey × AuthState
lookup_api_key_by_plaintext sha256 plaintext s =
    if is_revoked (sha256 plaintext) s.redis
    then (none, s)
    else if s.database_up
    then accept_row sha256 plaintext (find (has_hash (sha256 plaintext)) s.api_keys) s
    else (none, s)

abbrev pub has_id : ℤ → KeyRow → Bool
has_id id row = eqb_ℤ row.key.id id

-- `lookupApiKeyScopeById`, with the database up: the row whose three columns it returns
abbrev pub lookup_api_key_scope_by_id : ℤ → AuthState → Option KeyRow
lookup_api_key_scope_by_id id s = find (has_id id) s.api_keys

-- `isContractAllowedForKey`
abbrev pub is_contract_allowed : Option (List ℕ) → ℕ → Bool
is_contract_allowed none contract_id = true
is_contract_allowed (some allowed) contract_id = any (λ c. c == contract_id) allowed

-- `isMethodAllowed`
abbrev pub is_method_allowed : Option (List (List ℕ)) → List ℕ → Bool
is_method_allowed none method = true
is_method_allowed (some allowed) method =
    any (λ a. eq_text (to_upper_case a) (to_upper_case method)) allowed
