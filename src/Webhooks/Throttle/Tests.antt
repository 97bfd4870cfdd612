-- ===== src/Webhooks/Throttle/Tests.antt =====
-- A webhook with a limit of two, given three jobs in an hour.
use stellar_yield_contracts.Base.{
  ℕ, ◌+◌, ◌-◌, ◌≤◌, ◌≡◌, refl, true, false, none, some, [], ◌∷◌, arith, replicate,
}
use stellar_yield_contracts.Base.Int.{pos}
use stellar_yield_contracts.Vaults.Names.{Text}
use stellar_yield_contracts.Webhooks.Store.{Webhook, State, response}
use stellar_yield_contracts.Webhooks.Worker.{process_webhook_delivery}
use stellar_yield_contracts.Webhooks.Circuit.{count_sent}
use stellar_yield_contracts.Webhooks.Circuit.Opening.{Job, run_jobs}
use stellar_yield_contracts.Webhooks.Throttle.Hour.{run_jobs-limited}

abbrev hook : Webhook
hook = record {
  id = 4;
  url = 80;
  secret = none;
  consecutive_failures = 0;
  max_per_hour = some (pos 2);
  circuit_open = false;
  circuit_opened_at = none;
  previous_secret = none;
  secret_rotated_at = none;
  active = true;
  fallback_channel = none;
}

abbrev start : State
start = record {
  webhooks = hook ∷ [];
  deliveries = [];
  next_delivery = 1;
  redis = some (λ w h. 0);
  sent = [];
  jobs = [];
}

abbrev sign : ℕ → Text → Text
sign payload secret = payload ∷ secret

abbrev job : Job
job = record { now = 1000; payload = 9; delivery = none; outcome = response 200 }

two_sent : count_sent 4 (run_jobs sign 24 (λ url. true) 4 (replicate 3 job) start).sent ≡ 2
unfolding run_jobs process_webhook_delivery
two_sent = refl

run_jobs-limited_example :
    count_sent 4 (run_jobs sign 24 (λ url. true) 4 (replicate 3 job) start).sent ≤ 0 + (2 - 0)
run_jobs-limited_example =
    run_jobs-limited sign 24 (λ url. true) 4 0 2 (replicate 3 job) (λ w h. 0) start
      (refl, (refl, (refl, tt))) refl (omega arith) refl
