-- ===== src/Webhooks/Circuit/Tests.antt =====
-- A webhook that fails three times more than its circuit allows, and one that recovers.
use stellar_yield_contracts.Base.{
  ℕ, ◌+◌, ◌-◌, min, ◌≡◌, refl, Bool, true, false, none, some, List, [], ◌∷◌, arith, replicate,
}
use stellar_yield_contracts.Vaults.Names.{Text}
use stellar_yield_contracts.Webhooks.Store.{Webhook, State, response, threw, webhook_of}
use stellar_yield_contracts.Webhooks.Circuit.{
  Event, deliver_job, run_retries, reset, run_events, IsTripped, AllTripped, count_sent,
}
use stellar_yield_contracts.Webhooks.Circuit.Tripped.{run_events-AllTripped}
use stellar_yield_contracts.Webhooks.Circuit.Opening.{Job, run_jobs, run_jobs-opens}

abbrev hook : Webhook
hook = record {
  id = 4;
  url = 80;
  secret = some (1 ∷ []);
  consecutive_failures = 3;
  max_per_hour = none;
  circuit_open = false;
  circuit_opened_at = none;
  previous_secret = none;
  secret_rotated_at = none;
  active = true;
  fallback_channel = none;
}

abbrev start : State
start = record {
  webhooks = hook ∷ [];
  deliveries = [];
  next_delivery = 1;
  redis = none;
  sent = [];
  jobs = [];
}

abbrev sign : ℕ → Text → Text
sign payload secret = payload ∷ secret

abbrev any_url : ℕ → Bool
any_url url = true

hook-only : (n : ℕ) (w : Webhook) → webhook_of n start ≡ some w → IsTripped w
hook-only n w h = ground (arith, h)

abbrev events : List Event
events =
    deliver_job 0 4 9 none threw
    ∷ deliver_job 0 4 9 none (response 503)
    ∷ run_retries 10000 (λ d. response 200)
    ∷ reset 4
    ∷ []

run_events-AllTripped_example :
    AllTripped (run_events sign 24 any_url any_url events start).webhooks
run_events-AllTripped_example = run_events-AllTripped sign 24 any_url any_url events start hook-only

abbrev failing : Job
failing = record { now = 0; payload = 9; delivery = none; outcome = response 500 }

run_jobs-opens_example :
    (w' : Webhook) × (webhook_of 4 (run_jobs sign 24 any_url 4 (replicate 5 failing) start)
      ≡ some w')
    × IsTripped w'
    × (w'.consecutive_failures ≡ min (3 + 5) 5)
    × (count_sent 4 (run_jobs sign 24 any_url 4 (replicate 5 failing) start).sent
        ≡ 0 + (w'.consecutive_failures - 3))
run_jobs-opens_example =
    run_jobs-opens sign 24 any_url 4 hook (replicate 5 failing) start
      (record { known = refl; unlimited = refl; allowed = refl }) refl (omega arith)
      (refl, (refl, (refl, (refl, (refl, tt)))))
