-- ===== src/Rpc/Endpoints/Tests.antt =====
-- Two endpoints, of which the first has failed three probes.
use stellar_yield_contracts.Base.{
  ℕ, ◌≡◌, ◌↔◌, refl, Bool, true, false, List, [], ◌∷◌, Result, ok, err,
}
use stellar_yield_contracts.Amounts.Text.{codes}
use stellar_yield_contracts.Auth.Text.{eq_text}
use stellar_yield_contracts.Rpc.Endpoints.{
  Url, Failures, failures_get, failures_set, failures_delete, is_endpoint_healthy,
  probe_rpc_endpoints, get_ordered_rpc_urls, urls_to_try, try_rpc_endpoints,
}
use stellar_yield_contracts.Rpc.Endpoints.History.{
  run_probes, answers_of, is_endpoint_healthy-answers,
}
use stellar_yield_contracts.Rpc.Endpoints.Failover.{TriedFrom, Answered, try_rpc_endpoints-Answered}

abbrev main_url : Url
main_url = codes "a"

abbrev spare_url : Url
spare_url = codes "b"

abbrev probes : List (Url × Bool)
probes =
    (main_url, false)
    ∷ (spare_url, true)
    ∷ (main_url, false)
    ∷ (main_url, false)
    ∷ (main_url, true)
    ∷ []

main_url-out : is_endpoint_healthy (run_probes probes) main_url ≡ false
unfolding run_probes eq_text failures_get failures_set failures_delete
main_url-out = refl

abbrev round : Failures → Failures
round f = probe_rpc_endpoints (λ u. eq_text u spare_url) (main_url ∷ spare_url ∷ []) f

round_three_times :
    urls_to_try (round (round (round []))) (get_ordered_rpc_urls main_url ([] ∷ spare_url ∷ []))
    ≡ spare_url ∷ []
unfolding eq_text failures_get failures_set failures_delete
round_three_times = refl

is_endpoint_healthy-answers_example :
    (is_endpoint_healthy (run_probes probes) main_url ≡ false)
    ↔ ((older : List Bool) × (answers_of main_url probes ≡ false ∷ false ∷ false ∷ older))
is_endpoint_healthy-answers_example = is_endpoint_healthy-answers main_url probes

abbrev answer_spare : Url → Result ℕ ℕ
answer_spare url = elim (eq_text url spare_url) [ true ↦ ok 7 | false ↦ err 1 ]

spare_answers : try_rpc_endpoints answer_spare [] (main_url ∷ spare_url ∷ []) ≡ ok 7
unfolding try_rpc_endpoints eq_text
spare_answers = refl

try_rpc_endpoints-Answered_example :
    TriedFrom [] (main_url ∷ spare_url ∷ []) (urls_to_try [] (main_url ∷ spare_url ∷ []))
    × Answered answer_spare
        (urls_to_try [] (main_url ∷ spare_url ∷ []))
        (try_rpc_endpoints answer_spare [] (main_url ∷ spare_url ∷ []))
try_rpc_endpoints-Answered_example =
    try_rpc_endpoints-Answered answer_spare [] main_url (spare_url ∷ [])
