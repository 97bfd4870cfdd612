-- ===== src/Auth/Guard/Requests.antt =====
-- What `requireApiKey` of auth.ts reads of a request and of a session token, its answers, and its tests.
use stellar_yield_contracts.Base.{
  ℕ, ◌*◌, Bool, true, false, ◌&&◌, ◌||◌, not, Option, none, some, List, [], ◌∷◌, leb, ◌==◌,
  if◌then◌else◌,
}
use stellar_yield_contracts.Base.Int.{ℤ, pos, negsuc}
use stellar_yield_contracts.Amounts.Text.{codes, trim}
use stellar_yield_contracts.Auth.Text.{eq_text, split_on}
use stellar_yield_contracts.Auth.Keys.{Role, admin, readonly, eq_role, ApiKey, is_contract_allowed}

-- The answers that end a request: 429, 401 and 403 with their messages.
pub data AuthError : Type 0 where
  locked_out missing_key invalid_credentials : AuthError
  method_not_permitted insufficient_permissions ip_not_allowed contract_not_allowed : AuthError

-- `req.headers["x-forwarded-for"]`
pub data Forwarded : Type 0 where
  absent : Forwarded
  header : List ℕ → Forwarded
  headers : List (List ℕ) → Forwarded

-- What the middleware reads of a request; `bearer` is the token of a header `Bearer …`.
pub record Request : Type 0 where
  pub forwarded : Forwarded
  pub remote_address : Option (List ℕ)
  pub method : List ℕ
  pub bearer : Option (List ℕ)
  pub contract_id : Option ℕ

-- The two values of `minRole`: "readonly" and "admin".
pub data MinRole : Type 0 where
  min_readonly min_admin : MinRole

-- `requireApiKey({ role, minRole })`
pub record Options : Type 0 where
  pub role : Option Role
  pub min_role : Option MinRole

abbrev pub first_text : List (List ℕ) → List ℕ
first_text [] = []
first_text (w ∷ ws) = w

abbrev pub remote : Option (List ℕ) → List ℕ
remote none = codes "unknown"
remote (some address) = address

abbrev pub forwarded_ip : Forwarded → Option (List ℕ) → List ℕ
forwarded_ip absent address = remote address
forwarded_ip (header s) address = trim (first_text (split_on b',' s))
forwarded_ip (headers []) address = remote address
forwarded_ip (headers (s ∷ ss)) address = trim s

-- `getClientIp`
abbrev pub get_client_ip : Request → List ℕ
get_client_ip req = forwarded_ip req.forwarded req.remote_address

-- The claims of a session token. `sub` is none where it is missing or `Number` makes it NaN.
pub record Claims : Type 0 where
  pub is_admin_session : Bool
  pub role : Option Role
  pub sub : Option ℤ
  pub exp : Option ℕ
  pub allowed_methods : Option (List (List ℕ))

-- What `jwt.verify` does with a token: it returns the claims, or throws.
pub data Verified : Type 0 where
  verified : Claims → Verified
  token_expired not_a_token : Verified

-- `Number(claims.sub ?? -1) || -1`
abbrev pub session_id : Option ℤ → ℤ
session_id none = negsuc 0
session_id (some (pos n)) = if n == 0 then negsuc 0 else pos n
session_id (some (negsuc n)) = negsuc n

abbrev pub milliseconds : Option ℕ → Option ℕ
milliseconds none = none
milliseconds (some exp) = some (exp * 1000)

abbrev pub session_key : Claims → Role → ApiKey
session_key c role = record {
  id = session_id c.sub;
  role = role;
  expires_at = milliseconds c.exp;
  active = true;
  allowed_methods = c.allowed_methods;
  allowed_cidrs = none;
  allowed_contract_ids = none;
}

abbrev pub role_session : Claims → Option Role → Option ApiKey
role_session c none = none
role_session c (some role) = if c.is_admin_session then some (session_key c role) else none

-- `verifyAdminSession`, on the claims
abbrev pub verify_admin_session : Claims → Option ApiKey
verify_admin_session c = role_session c c.role

abbrev pub is_expired : ℕ → Option ℕ → Bool
is_expired now none = false
is_expired now (some expires_at) = leb expires_at now

-- `READ_ONLY_METHODS.has(method)`
abbrev pub is_read_only : List ℕ → Bool
is_read_only method = eq_text method (codes "GET") || eq_text method (codes "HEAD")

abbrev pub other_role : Option Role → Role → Bool
other_role none role = false
other_role (some wanted) role = not (eq_role role wanted)

-- `options?.minRole === "readonly"`; nothing tests for "admin".
abbrev pub is_min_readonly : Option MinRole → Bool
is_min_readonly none = false
is_min_readonly (some min_readonly) = true
is_min_readonly (some min_admin) = false

abbrev pub below_min_role : Option MinRole → Role → List ℕ → Bool
below_min_role min_role role method =
    is_min_readonly min_role
    && (not (eq_role role admin) && (not (eq_role role readonly) || not (is_read_only method)))

abbrev pub contract_denied : Option (List ℕ) → Option ℕ → Bool
contract_denied allowed none = false
contract_denied allowed (some contract_id) = not (is_contract_allowed allowed contract_id)
