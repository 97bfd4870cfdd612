-- ===== src/Auth/Guard/Lockout.antt =====
-- The counter of an address's requests, and a session whose key was deactivated.
use stellar_yield_contracts.Base.{
  ℕ, ◌+◌, ◌≤◌, ◌≡◌, refl, ap, ◌∙◌, true, false, Option, none, some, List, [], ◌∷◌, arith,
  Bool-cases, inl, inr, Result, ok, err, length, find, map, ltb,
}
use stellar_yield_contracts.Base.Int.{ℤ}
use stellar_yield_contracts.Auth.Keys.{
  ApiKey, KeyRow, Redis, AuthState, revoke, revoke_in, accept_row, has_hash, has_id,
  lookup_api_key_by_plaintext,
}
use stellar_yield_contracts.Auth.Guard.{
  AuthError, locked_out, Options, Request, Verified, verified, token_expired, not_a_token,
  check_use, check_scope, scope_cidrs, scope_contracts, session_answer, check_session,
  verify_admin_session, count_request, count_in, is_locked_out, key_answer, by_plaintext,
  session_or_key, by_session, by_token, by_bearer, require_api_key,
}

abbrev deactivate : KeyRow → KeyRow
deactivate row = record row { key = record row.key { active = false } }

abbrev pub deactivate_all : AuthState → AuthState
deactivate_all s = record s { api_keys = map deactivate s.api_keys }

scope-deactivate :
    (id : ℤ) (rows : List KeyRow)
    → (scope_cidrs (find (has_id id) (map deactivate rows)) ≡ scope_cidrs (find (has_id id) rows))
      × (scope_contracts (find (has_id id) (map deactivate rows))
          ≡ scope_contracts (find (has_id id) rows))
scope-deactivate id [] = (refl, refl)
scope-deactivate id (row ∷ rows) = elim (Bool-cases (has_id id row)) [
  | inl hit ↦ rw hit (refl, refl)
  | inr miss ↦ rw miss (scope-deactivate id rows)
]

check_scope-deactivate :
    (number : List ℕ → Option ℤ) (req : Request) (k : ApiKey) (rows : List KeyRow)
    → check_scope number req k (find (has_id k.id) (map deactivate rows))
      ≡ check_scope number req k (find (has_id k.id) rows)
unfolding check_scope
check_scope-deactivate number req k rows =
    let (cidrs, contracts) = scope-deactivate k.id rows in rw (cidrs, contracts) refl

session_answer-deactivate :
    (number : List ℕ → Option ℤ) (req : Request) (k : ApiKey) (s : AuthState)
    (r : Result AuthError (Unit {0}))
    → session_answer number req k (deactivate_all s) r ≡ session_answer number req k s r
session_answer-deactivate number req k s (err e) = refl
session_answer-deactivate number req k s (ok tt) =
    rw (check_scope-deactivate number req k s.api_keys) refl

-- Deactivating every key changes nothing for the sessions that were made from them: the answer for a
-- session is the same before and after.
pub check_session-deactivate_all :
    (number : List ℕ → Option ℤ) (now : ℕ) (options : Options) (req : Request) (k : ApiKey)
    (s : AuthState)
    → check_session number now options req k (deactivate_all s)
      ≡ check_session number now options req k s
unfolding check_session
check_session-deactivate_all number now options req k s =
    session_answer-deactivate number req k s (check_use now options req k)

-- The count in the cache, where there is one.
abbrev pub failures : Option Redis → Option ℕ
failures none = none
failures (some r) = some r.auth_fail

revoke_in-failures : (hash : List ℕ) (o : Option Redis) → failures (revoke_in hash o) ≡ failures o
revoke_in-failures hash none = refl
revoke_in-failures hash (some r) = refl

count_in-count :
    (o : Option Redis) (s : AuthState) (n : ℕ)
    → failures o ≡ some n
    → ((count_in o s).0 ≡ some (n + 1)) × (failures (count_in o s).1.redis ≡ some (n + 1))
count_in-count none s n h = ground (arith, h)
count_in-count (some r) s n h = (ground (arith, h), ground (arith, h))

revoke-failures :
    (hash : List ℕ) (s : AuthState) → failures (revoke hash s).redis ≡ failures s.redis
revoke-failures hash s = revoke_in-failures hash s.redis

accept_row-failures :
    (sha256 : List ℕ → List ℕ) (plaintext : List ℕ) (o : Option KeyRow) (s : AuthState)
    → failures (accept_row sha256 plaintext o s).1.redis ≡ failures s.redis
accept_row-failures sha256 plaintext none s = revoke-failures (sha256 plaintext) s
accept_row-failures sha256 plaintext (some row) s =
    ground (arith, revoke-failures (sha256 plaintext) s)

lookup-failures :
    (sha256 : List ℕ → List ℕ) (plaintext : List ℕ) (s : AuthState)
    → failures (lookup_api_key_by_plaintext sha256 plaintext s).1.redis ≡ failures s.redis
unfolding lookup_api_key_by_plaintext
lookup-failures sha256 plaintext s =
    ground (
      arith,
      accept_row-failures sha256 plaintext (find (has_hash (sha256 plaintext)) s.api_keys) s,
    )

module _ (number : List ℕ → Option ℤ) (sha256 : List ℕ → List ℕ) (verify : List ℕ → Verified) where
  key_answer-state :
      (now : ℕ) (options : Options) (req : Request) (o : Option ApiKey) (s : AuthState)
      → (key_answer number sha256 verify now options req (o, s)).1 ≡ s
  key_answer-state now options req none s = refl
  key_answer-state now options req (some k) s = refl

  by_plaintext-failures :
      (now : ℕ) (options : Options) (req : Request) (token : List ℕ) (s : AuthState)
      → failures (by_plaintext number sha256 verify now options req token s).1.redis
        ≡ failures s.redis
  unfolding by_plaintext
  by_plaintext-failures now options req token s =
      ap (λ (t : AuthState). failures t.redis)
        (key_answer-state now options req (lookup_api_key_by_plaintext sha256 token s).0
          (lookup_api_key_by_plaintext sha256 token s).1)
      ∙ lookup-failures sha256 token s

  session_or_key-failures :
      (now : ℕ) (options : Options) (req : Request) (token : List ℕ) (s : AuthState)
      (o : Option (Result AuthError ApiKey))
      → failures (session_or_key number sha256 verify now options req token s o).1.redis
        ≡ failures s.redis
  session_or_key-failures now options req token s none =
      by_plaintext-failures now options req token s
  session_or_key-failures now options req token s (some r) = refl

  by_session-failures :
      (now : ℕ) (options : Options) (req : Request) (token : List ℕ) (s : AuthState)
      (o : Option ApiKey)
      → failures (by_session number sha256 verify now options req token s o).1.redis
        ≡ failures s.redis
  by_session-failures now options req token s none = by_plaintext-failures now options req token s
  by_session-failures now options req token s (some k) =
      session_or_key-failures now options req token s (check_session number now options req k s)

  by_token-failures :
      (now : ℕ) (options : Options) (req : Request) (token : List ℕ) (s : AuthState) (v : Verified)
      → failures (by_token number sha256 verify now options req token s v).1.redis
        ≡ failures s.redis
  by_token-failures now options req token s (verified c) =
      by_session-failures now options req token s (verify_admin_session c)
  by_token-failures now options req token s token_expired = refl
  by_token-failures now options req token s not_a_token =
      by_plaintext-failures now options req token s

  by_bearer-failures :
      (now : ℕ) (options : Options) (req : Request) (s : AuthState) (b : Option (List ℕ))
      → failures (by_bearer number sha256 verify now options req s b).1.redis ≡ failures s.redis
  by_bearer-failures now options req s none = refl
  by_bearer-failures now options req s (some token) =
      by_token-failures now options req token s (verify token)

  require_api_key-counts :
      (now : ℕ) (options : Options) (req : Request) (s : AuthState) (n : ℕ)
      → failures s.redis ≡ some n
      → failures (require_api_key number sha256 verify now options req s).1.redis ≡ some (n + 1)
  unfolding require_api_key
  require_api_key-counts now options req s n h =
      let (count, after) = count_in-count s.redis s n h in
      elim (Bool-cases (is_locked_out (count_request s).0)) [
        | inl locked ↦ rw locked after
        | inr free ↦
            rw free (by_bearer-failures now options req (count_request s).1 req.bearer ∙ after)
      ]

  -- The requests of one address in one window, each with its time and its route's options.
  unfoldable pub run_requests : List (ℕ × Options × Request) → AuthState → AuthState
  run_requests [] s = s
  run_requests ((now, options, req) ∷ rest) s =
      run_requests rest (require_api_key number sha256 verify now options req s).1

  run_requests-counts :
      (reqs : List (ℕ × Options × Request)) (s : AuthState) (n : ℕ)
      → failures s.redis ≡ some n
      → failures (run_requests reqs s).redis ≡ some (n + length reqs)
  unfolding run_requests
  run_requests-counts [] s n h = h ∙ ap some (omega arith)
  run_requests-counts ((now, options, req) ∷ rest) s n h =
      run_requests-counts rest (require_api_key number sha256 verify now options req s).1 (n + 1)
        (require_api_key-counts now options req s n h)
      ∙ ap some (omega arith)

  -- The lockout counts every request, not only the failed ones: after 20 requests from an address in one
  -- window, whatever their answers, the next one is refused, whatever its key.
  pub require_api_key-locked_out :
      (reqs : List (ℕ × Options × Request)) (now : ℕ) (options : Options) (req : Request)
      (s : AuthState) (n : ℕ)
      → failures s.redis ≡ some n
      → 20 ≤ length reqs
      → (require_api_key number sha256 verify now options req (run_requests reqs s)).0
        ≡ err locked_out
  unfolding require_api_key
  require_api_key-locked_out reqs now options req s n h enough =
      let t = run_requests reqs s in
      let (count, after) =
        count_in-count t.redis t (n + length reqs) (run_requests-counts reqs s n h) in
      let over : ltb 20 (n + length reqs + 1) ≡ true = ground (arith, enough) in
      rw (count, over) refl
