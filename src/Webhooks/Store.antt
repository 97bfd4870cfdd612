-- ===== src/Webhooks/Store.antt =====
-- The tables `webhooks` and `webhook_deliveries`, the hourly counters in Redis, and what was sent. An id,
-- a URL and a payload are only compared or passed on, so they are numbers; times are in
-- milliseconds. The messages to SSE clients are left out.
use stellar_yield_contracts.Base.{ℕ, Bool, Option, List, ◌==◌, find, update_where}
use stellar_yield_contracts.Base.Int.{ℤ}
use stellar_yield_contracts.Vaults.Names.{Text}

-- A row of `webhooks`.
pub record Webhook : Type 0 where
  pub id : ℕ
  pub url : ℕ
  pub secret : Option Text
  pub consecutive_failures : ℕ
  pub max_per_hour : Option ℤ
  pub circuit_open : Bool
  pub circuit_opened_at : Option ℕ
  pub previous_secret : Option Text
  pub secret_rotated_at : Option ℕ
  pub active : Bool
  pub fallback_channel : Option ℕ

pub data DeliveryStatus : Type 0 where
  delivered failed failed_permanent : DeliveryStatus

pub data DeliveryError : Type 0 where
  ssrf_check_failed : DeliveryError
  non_2xx : Option ℕ → DeliveryError
  request_threw : DeliveryError

-- A row of `webhook_deliveries`.
pub record Delivery : Type 0 where
  pub id : ℕ
  pub webhook_id : ℕ
  pub payload : ℕ
  pub attempt : ℕ
  pub next_retry_at : ℕ
  pub last_error : Option DeliveryError
  pub status : DeliveryStatus
  pub delivered_at : Option ℕ

-- A request that was sent, with its signature headers.
pub record Sent : Type 0 where
  pub webhook_id : ℕ
  pub sent_at : ℕ
  pub headers : List (Text × Text)

-- A job "webhook-deliver".
pub record DeliverJob : Type 0 where
  pub webhook_id : ℕ
  pub payload : ℕ

-- The counter of a webhook in a clock hour.
abbrev pub Counters : Type 0
Counters = ℕ → ℕ → ℕ

pub record State : Type 0 where
  pub webhooks : List Webhook
  pub deliveries : List Delivery
  -- the id of the next row of `webhook_deliveries`
  pub next_delivery : ℕ
  -- none when Redis is down
  pub redis : Option Counters
  pub sent : List Sent
  pub jobs : List DeliverJob

-- What a request gave: a status, or an exception.
pub data Outcome : Type 0 where
  response : ℕ → Outcome
  threw : Outcome

abbrev pub is_webhook : ℕ → Webhook → Bool
is_webhook n w = w.id == n

abbrev pub webhook_of : ℕ → State → Option Webhook
webhook_of n st = find (is_webhook n) st.webhooks

-- UPDATE webhooks SET … WHERE id = n
abbrev pub update_webhook : ℕ → (Webhook → Webhook) → State → State
update_webhook n f st = record st { webhooks = update_where (is_webhook n) f st.webhooks }

abbrev pub is_delivery : ℕ → Delivery → Bool
is_delivery n d = d.id == n

-- UPDATE webhook_deliveries SET … WHERE id = n
abbrev pub update_delivery : ℕ → (Delivery → Delivery) → State → State
update_delivery n f st = record st { deliveries = update_where (is_delivery n) f st.deliveries }
