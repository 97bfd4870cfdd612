-- ===== src/Webhooks/Tests.antt =====
-- The secret of one webhook, rotated, and retries that throw.
use stellar_yield_contracts.Base.{◌+◌, ◌*◌, ◌≡◌, refl, true, false, none, some, [], ◌∷◌, arith, ltb}
use stellar_yield_contracts.Vaults.Names.{Text}
use stellar_yield_contracts.Webhooks.Store.{Webhook, Delivery, failed, State, threw}
use stellar_yield_contracts.Webhooks.Retries.{process_retries}
use stellar_yield_contracts.Webhooks.Retries.Uncounted.{
  counted_failures, run_all_threw, run_all_threw-failures,
}
use stellar_yield_contracts.Webhooks.Rotation.{
  rotate_webhook_secret, run_purges, headers_of, signed_by, rotate_webhook_secret-headers,
}

abbrev hook : Webhook
hook = record {
  id = 4;
  url = 80;
  secret = some (1 ∷ []);
  consecutive_failures = 4;
  max_per_hour = none;
  circuit_open = false;
  circuit_opened_at = none;
  previous_secret = none;
  secret_rotated_at = none;
  active = true;
  fallback_channel = some 6;
}

abbrev last_try : Delivery
last_try = record {
  id = 1;
  webhook_id = 4;
  payload = 9;
  attempt = 5;
  next_retry_at = 100;
  last_error = none;
  status = failed;
  delivered_at = none;
}

abbrev start : State
start = record {
  webhooks = hook ∷ [];
  deliveries = last_try ∷ [];
  next_delivery = 2;
  redis = none;
  sent = [];
  jobs = [];
}

abbrev sign : Text → Text
sign secret = 7 ∷ secret

rotate_webhook_secret-headers_example :
    headers_of sign 24 3000 4
      (run_purges 24 (1500 ∷ 2000 ∷ []) (rotate_webhook_secret 1000 4 (2 ∷ []) start))
    ≡ some (signed_by sign (ltb 3000 (1000 + 24 * 60 * 60 * 1000)) (1 ∷ []) (2 ∷ []))
rotate_webhook_secret-headers_example =
    rotate_webhook_secret-headers sign 24 1000 3000 4 (1500 ∷ 2000 ∷ []) start hook 1 2 [] [] refl
      refl (omega arith, (omega arith, tt))

-- The last attempt throws: its delivery goes to the fallback.
fallback_job :
    (process_retries (λ payload s. s) 24 (λ url. true) (λ url. true) 200 (λ d. threw) start).jobs
    ≡ record { webhook_id = 6; payload = 9 } ∷ []
unfolding process_retries
fallback_job = refl

run_all_threw-failures_example :
    counted_failures 4 (
      run_all_threw
        (λ payload s. s)
        24
        (λ url. true)
        (λ url. true)
        (λ url. refl)
        (λ url. refl)
        (200 ∷ 400 ∷ [])
        start)
    ≡ some (4, false)
run_all_threw-failures_example =
    run_all_threw-failures (λ payload s. s) 24 (λ url. true) (λ url. true) (λ url. refl)
      (λ url. refl) (200 ∷ 400 ∷ []) 4 start
