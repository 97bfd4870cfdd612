-- ===== src/Auth/Guard/Checks.antt =====
-- The checks of one key: what each of them lets pass.
use mathlib.Core.Path.{subst}
use stellar_yield_contracts.Base.{
  throw_if-ok, ok_injective, ℕ, ◌≡◌, ◌⊎◌, refl, Bool, true, false, not, Option, none, some, List,
  arith, Bool-cases, inl, inr, Result, ok, err, ◌>>◌, throw_if,
}
use stellar_yield_contracts.Base.Int.{ℤ, pos, ltb_ℤ}
use stellar_yield_contracts.Auth.Cidr.{is_ip_allowed_by_cidrs}
use stellar_yield_contracts.Auth.Keys.{
  Role, ApiKey, KeyRow, AuthState, is_method_allowed, lookup_api_key_scope_by_id,
}
use stellar_yield_contracts.Auth.Guard.{
  AuthError, invalid_credentials, method_not_permitted, insufficient_permissions, ip_not_allowed,
  contract_not_allowed, Options, Request, get_client_ip, is_expired, other_role, below_min_role,
  contract_denied, check_use, check_key, check_scope, scope_cidrs, scope_contracts, session_answer,
  check_session, role_session, session_key, Claims,
}

-- What the middleware promises of the key of a request that passes.
pub record IsAuthorized (number : List ℕ → Option ℤ) (now : ℕ) (options : Options) (req : Request)
    (k : ApiKey) : Type 0 where
  active : k.active ≡ true
  fresh : is_expired now k.expires_at ≡ false
  method : is_method_allowed k.allowed_methods req.method ≡ true
  role : other_role options.role k.role ≡ false
  min_role : below_min_role options.min_role k.role req.method ≡ false
  ip : is_ip_allowed_by_cidrs number (get_client_ip req) k.allowed_cidrs ≡ true
  contract : contract_denied k.allowed_contract_ids req.contract_id ≡ false

pub throw_last : (b : Bool) (e : AuthError) → throw_if b e ≡ ok tt → b ≡ false
throw_last true e h = ground (arith, h)
throw_last false e h = refl

check_use-ok :
    (now : ℕ) (options : Options) (req : Request) (k : ApiKey)
    → check_use now options req k ≡ ok tt
    → (is_expired now k.expires_at ≡ false)
      × (not (is_method_allowed k.allowed_methods req.method) ≡ false)
      × (other_role options.role k.role ≡ false)
      × (below_min_role options.min_role k.role req.method ≡ false)
unfolding check_use
check_use-ok now options req k h =
    let (fresh, h₁) = throw_if-ok (is_expired now k.expires_at) invalid_credentials _ tt h in
    let (method, h₂) =
      throw_if-ok (not (is_method_allowed k.allowed_methods req.method)) method_not_permitted _ tt
        h₁ in
    let (role, h₃) =
      throw_if-ok (other_role options.role k.role) insufficient_permissions _ tt h₂ in
    (
      fresh,
      method,
      role,
      throw_last (below_min_role options.min_role k.role req.method) insufficient_permissions h₃,
    )

pub unless : (b : Bool) → not b ≡ false → b ≡ true
unless true h = refl
unless false h = ground (arith, h)

bind-ok :
    (m : Result AuthError (Unit {0})) (r : Result AuthError ApiKey) (k : ApiKey)
    → (m >> r) ≡ ok k
    → (m ≡ ok tt) × (r ≡ ok k)
bind-ok (ok tt) r k h = (refl, h)
bind-ok (err e) r k h = ground (arith, h)

pub check_key-IsAuthorized :
    (number : List ℕ → Option ℤ) (now : ℕ) (options : Options) (req : Request) (k k' : ApiKey)
    → check_key number now options req k ≡ ok k'
    → IsAuthorized number now options req k'
unfolding check_key
check_key-IsAuthorized number now options req k k' h =
    let (active, h₁) = throw_if-ok (not k.active) invalid_credentials _ k' h in
    let (used, h₂) = bind-ok (check_use now options req k) _ k' h₁ in
    let (fresh, method, role, min_role) = check_use-ok now options req k used in
    let (ip, h₃) =
      throw_if-ok (not (is_ip_allowed_by_cidrs number (get_client_ip req) k.allowed_cidrs))
        ip_not_allowed _ k' h₂ in
    let (contract, h₄) =
      throw_if-ok (contract_denied k.allowed_contract_ids req.contract_id) contract_not_allowed _ k'
        h₃ in
    let same : k ≡ k' = ok_injective h₄ in
    subst (IsAuthorized number now options req) same (record {
      active = unless k.active active;
      fresh = fresh;
      method = unless _ method;
      role = role;
      min_role = min_role;
      ip = unless _ ip;
      contract = contract;
    })

pub check_key-same :
    (number : List ℕ → Option ℤ) (now : ℕ) (options : Options) (req : Request) (k k' : ApiKey)
    → check_key number now options req k ≡ ok k'
    → k ≡ k'
unfolding check_key
check_key-same number now options req k k' h =
    let (active, h₁) = throw_if-ok (not k.active) invalid_credentials _ k' h in
    let (used, h₂) = bind-ok (check_use now options req k) _ k' h₁ in
    let (ip, h₃) =
      throw_if-ok (not (is_ip_allowed_by_cidrs number (get_client_ip req) k.allowed_cidrs))
        ip_not_allowed _ k' h₂ in
    let (contract, h₄) =
      throw_if-ok (contract_denied k.allowed_contract_ids req.contract_id) contract_not_allowed _ k'
        h₃ in
    ok_injective h₄

-- A session's key passes with the scope of the row that it was made from.
pub check_scope-ok :
    (number : List ℕ → Option ℤ) (req : Request) (k k' : ApiKey) (scope : Option KeyRow)
    → check_scope number req k scope ≡ ok k'
    → (is_ip_allowed_by_cidrs number (get_client_ip req) (scope_cidrs scope) ≡ true)
      × (contract_denied (scope_contracts scope) req.contract_id ≡ false)
      × (record k { allowed_contract_ids = scope_contracts scope } ≡ k')
unfolding check_scope
check_scope-ok number req k k' scope h =
    let (ip, h₁) =
      throw_if-ok (not (is_ip_allowed_by_cidrs number (get_client_ip req) (scope_cidrs scope)))
        ip_not_allowed _ k' h in
    let (contract, h₂) =
      throw_if-ok (contract_denied (scope_contracts scope) req.contract_id) contract_not_allowed _
        k' h₁ in
    (unless _ ip, contract, ok_injective h₂)

-- How a session's key passes: with its scope, or with no row to take one from.
abbrev pub HasScope : (List ℕ → Option ℤ) → Request → AuthState → ApiKey → ApiKey → Type 0
HasScope number req s k k' =
    ((ltb_ℤ (pos 0) k.id ≡ true)
      × (check_scope number req k (lookup_api_key_scope_by_id k.id s) ≡ ok k'))
    ⊎ ((ltb_ℤ (pos 0) k.id ≡ false) × (k ≡ k'))

pub session_answer-HasScope :
    (number : List ℕ → Option ℤ) (req : Request) (k k' : ApiKey) (s : AuthState)
    (r : Result AuthError (Unit {0}))
    → session_answer number req k s r ≡ some (ok k')
    → (r ≡ ok tt) × HasScope number req s k k'
session_answer-HasScope number req k k' s (err e) h = ground (arith, h)
session_answer-HasScope number req k k' s (ok tt) h = elim (Bool-cases (ltb_ℤ (pos 0) k.id)) [
  | inl stored ↦ (refl, inl (stored, ground (arith, h, stored)))
  | inr derived ↦ (refl, inr (derived, ground (arith, h, derived)))
]

-- A session whose key has a row passes only from an address that the row allows and to a vault that
-- it allows, and goes on with the row's vaults.
pub check_session-scope :
    (number : List ℕ → Option ℤ) (now : ℕ) (options : Options) (req : Request) (k k' : ApiKey)
    (s : AuthState)
    → ltb_ℤ (pos 0) k.id ≡ true
    → check_session number now options req k s ≡ some (ok k')
    → let row = lookup_api_key_scope_by_id k.id s in
      (is_ip_allowed_by_cidrs number (get_client_ip req) (scope_cidrs row) ≡ true)
      × (contract_denied (scope_contracts row) req.contract_id ≡ false)
      × (record k { allowed_contract_ids = scope_contracts row } ≡ k')
unfolding check_session
check_session-scope number now options req k k' s stored h =
    let (used, scoped) =
      session_answer-HasScope number req k k' s (check_use now options req k) h in
    elim scoped [
      | inl (_, passed) ↦ check_scope-ok number req k k' (lookup_api_key_scope_by_id k.id s) passed
      | inr (derived, _) ↦ ground (arith, stored, derived)
    ]

contract_allowed_none : (o : Option ℕ) → contract_denied none o ≡ false
contract_allowed_none none = refl
contract_allowed_none (some c) = refl

-- A session key carries no restriction of its own.
abbrev pub IsSession : ApiKey → Type 0
IsSession k = (k.active ≡ true) × (k.allowed_cidrs ≡ none) × (k.allowed_contract_ids ≡ none)

pub check_session-IsAuthorized :
    (number : List ℕ → Option ℤ) (now : ℕ) (options : Options) (req : Request) (k k' : ApiKey)
    (s : AuthState)
    → IsSession k
    → check_session number now options req k s ≡ some (ok k')
    → IsAuthorized number now options req k'
unfolding check_session
check_session-IsAuthorized number now options req k k' s (active, cidrs, contracts) h =
    let (used, scoped) =
      session_answer-HasScope number req k k' s (check_use now options req k) h in
    let (fresh, method, role, min_role) = check_use-ok now options req k used in
    let any_ip : is_ip_allowed_by_cidrs number (get_client_ip req) k.allowed_cidrs ≡ true =
      rw cidrs refl in
    elim scoped [
      | inl (_, passed) ↦
          let (ip, contract, same) =
            check_scope-ok number req k k' (lookup_api_key_scope_by_id k.id s) passed in
          subst (IsAuthorized number now options req) same (record {
            active = active;
            fresh = fresh;
            method = unless _ method;
            role = role;
            min_role = min_role;
            ip = any_ip;
            contract = contract;
          })
      | inr (_, same) ↦ subst (IsAuthorized number now options req) same (record {
        active = active;
        fresh = fresh;
        method = unless _ method;
        role = role;
        min_role = min_role;
        ip = any_ip;
        contract = rw contracts (contract_allowed_none req.contract_id);
      })
    ]

pub role_session-IsSession :
    (c : Claims) (o : Option Role) (k : ApiKey) → role_session c o ≡ some k → IsSession k
role_session-IsSession c none k h = ground (arith, h)
role_session-IsSession c (some role) k h =
    let same : session_key c role ≡ k = ground (arith, h) in subst IsSession same (refl, refl, refl)
