-- ===== src/Rpc/Endpoints.antt =====
-- backend/src/services/rpcHealth.ts and tryRpcEndpoints of backend/src/services/rpcClient.ts: which
-- endpoints are tried, and in which order.
mod History
mod Failover
mod Tests
use stellar_yield_contracts.Base.{
  ℕ, suc, ◌+◌, Bool, true, false, not, Option, none, some, or_else, List, [], ◌∷◌, ◌++◌, ltb,
  if◌then◌else◌, select, Result, ok, err,
}
use stellar_yield_contracts.Amounts.Text.{is_empty}
use stellar_yield_contracts.Auth.Text.{eq_text}

abbrev pub Url : Type 0
Url = List ℕ

abbrev pub rpc_health_failure_threshold : ℕ
rpc_health_failure_threshold = 3

-- `consecutiveFailures`, a map from endpoints to numbers
abbrev pub Failures : Type 0
Failures = List (Url × ℕ)

abbrev pub get_ordered_rpc_urls : Url → List Url → List Url
get_ordered_rpc_urls rpc_url rpc_fallbacks =
    select (λ u. not (is_empty u)) (rpc_url ∷ rpc_fallbacks)

-- `map.get(url)`
unfoldable pub failures_get : Url → Failures → Option ℕ
failures_get url [] = none
failures_get url ((u, n) ∷ failures) = if eq_text url u then some n else failures_get url failures

-- `map.set(url, n)`
unfoldable pub failures_set : Url → ℕ → Failures → Failures
failures_set url n [] = (url, n) ∷ []
failures_set url n ((u, m) ∷ failures) =
    let rest = failures_set url n failures in
    if eq_text url u then (u, n) ∷ failures else (u, m) ∷ rest

-- `map.delete(url)`
unfoldable pub failures_delete : Url → Failures → Failures
failures_delete url [] = []
failures_delete url ((u, m) ∷ failures) =
    let rest = failures_delete url failures in if eq_text url u then rest else (u, m) ∷ rest

abbrev pub failures_of : Url → Failures → ℕ
failures_of url failures = or_else (failures_get url failures) 0

abbrev pub is_endpoint_healthy : Failures → Url → Bool
is_endpoint_healthy failures url = ltb (failures_of url failures) rpc_health_failure_threshold

abbrev pub record_probe_result : Url → Bool → Failures → Failures
record_probe_result url true failures = failures_delete url failures
record_probe_result url false failures = failures_set url (failures_of url failures + 1) failures

-- One round of probes; `probe` is the answer of each endpoint to getHealth.
abbrev pub probe_rpc_endpoints : (Url → Bool) → List Url → Failures → Failures
probe_rpc_endpoints probe [] failures = failures
probe_rpc_endpoints probe (url ∷ urls) failures =
    probe_rpc_endpoints probe urls (record_probe_result url (probe url) failures)

abbrev pub or_all : List Url → List Url → List Url
or_all configured [] = configured
or_all configured (u ∷ healthy) = u ∷ healthy

-- `healthyUrls.length > 0 ? healthyUrls : configuredUrls`
abbrev pub urls_to_try : Failures → List Url → List Url
urls_to_try failures configured =
    or_all configured (select (is_endpoint_healthy failures) configured)

-- What the callback throws, or that no endpoint is configured.
pub data EndpointError (E : Type 0) : Type 0 where
  no_endpoints : EndpointError E
  last_error : E → EndpointError E

module _ {E A : Type 0} (fn : Url → Result E A) where
  abbrev pub try_next :
      Result E A → Result (EndpointError E) A → List Url → Result (EndpointError E) A
  try_next (ok a) later rest = ok a
  try_next (err e) later [] = err (last_error e)
  try_next (err e) later (u ∷ rest) = later

  -- The loop over the endpoints, and those that were called.
  unfoldable pub try_urls : Url → List Url → Result (EndpointError E) A
  try_urls url [] = try_next (fn url) (err no_endpoints) []
  try_urls url (next ∷ urls) =
      let later = try_urls next urls in try_next (fn url) later (next ∷ urls)

  abbrev pub try_list : List Url → Result (EndpointError E) A
  try_list [] = err no_endpoints
  try_list (url ∷ urls) = try_urls url urls

  unfoldable pub try_rpc_endpoints : Failures → List Url → Result (EndpointError E) A
  unfolding try_urls failures_get
  try_rpc_endpoints failures configured = try_list (urls_to_try failures configured)
