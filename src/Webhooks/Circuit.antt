-- ===== src/Webhooks/Circuit.antt =====
-- The circuit breaker of a webhook over deliveries, retries and resets, with resetWebhookCircuit of
-- backend/src/api/controllers/admin.ts.
pub mod Kept
pub mod Steps
mod Tripped
pub mod Opening
mod Tests
use stellar_yield_contracts.Base.{
  ℕ, ◌≡◌, Bool, true, false, Option, none, some, List, [], ◌∷◌, leb, find, ◌==◌, if◌then◌else◌, ◌+◌,
}
use stellar_yield_contracts.Vaults.Names.{Text}
use stellar_yield_contracts.Webhooks.Store.{
  Webhook, Sent, State, Outcome, is_webhook, webhook_of, update_webhook,
}
use stellar_yield_contracts.Webhooks.Worker.{circuit_breaker_threshold, process_webhook_delivery}
use stellar_yield_contracts.Webhooks.Retries.{process_retries}

unfoldable pub reset_webhook_circuit : ℕ → State → State
reset_webhook_circuit webhook st =
    update_webhook webhook
      (λ w. record w { circuit_open = false; circuit_opened_at = none; consecutive_failures = 0 })
      st

-- What happens to the webhooks: a job that delivers, a run of the retries, a reset by an operator.
pub data Event : Type 0 where
  deliver_job : (now webhook payload : ℕ) → Option ℕ → Outcome → Event
  run_retries : (now : ℕ) → (ℕ → Outcome) → Event
  reset : (webhook : ℕ) → Event

module _ (sign : ℕ → Text → Text) (window_hours : ℕ) (url_allowed ssrf_allowed : ℕ → Bool) where
  abbrev pub apply_event : Event → State → State
  apply_event (deliver_job now webhook payload delivery outcome) st =
      (process_webhook_delivery sign window_hours url_allowed now webhook payload delivery outcome
        st).0
  apply_event (run_retries now outcome) st =
      process_retries sign window_hours url_allowed ssrf_allowed now outcome st
  apply_event (reset webhook) st = reset_webhook_circuit webhook st

  unfoldable pub run_events : List Event → State → State
  run_events [] st = st
  run_events (e ∷ es) st = run_events es (apply_event e st)

-- The circuit is open exactly from the threshold on.
abbrev pub IsTripped : Webhook → Type 0
IsTripped w = w.circuit_open ≡ leb circuit_breaker_threshold w.consecutive_failures

abbrev pub AllTripped : List Webhook → Type 0
AllTripped rows = (n : ℕ) (w : Webhook) → find (is_webhook n) rows ≡ some w → IsTripped w

-- The requests sent to one webhook.
abbrev pub count_sent : ℕ → List Sent → ℕ
count_sent n [] = 0
count_sent n (s ∷ sent) = if s.webhook_id == n then 1 + count_sent n sent else count_sent n sent
