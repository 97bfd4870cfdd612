-- ===== src/Webhooks/Worker.antt =====
-- backend/src/services/webhookWorker.ts and webhookThrottle.ts: the delivery of one payload, with the
-- throttle and the circuit breaker of its webhook.
use stellar_yield_contracts.Base.{
  ℕ, suc, ◌+◌, ◌*◌, ◌/◌, Bool, true, false, ◌&&◌, Option, none, some, or_else, [], ◌∷◌, ◌++◌, ltb,
  leb, ◌==◌, if◌then◌else◌, Result, ok, err,
}
use stellar_yield_contracts.Base.Int.{ℤ, pos, ltb_ℤ, leb_ℤ}
use stellar_yield_contracts.Vaults.Names.{Text}
use stellar_yield_contracts.Webhooks.Store.{
  Webhook, DeliveryStatus, delivered, failed, failed_permanent, DeliveryError, ssrf_check_failed,
  non_2xx, request_threw, Counters, State, Outcome, response, threw, webhook_of, update_webhook,
  update_delivery,
}
use stellar_yield_contracts.Webhooks.Signature.{build_signature_headers}

abbrev pub circuit_breaker_threshold : ℕ
circuit_breaker_threshold = 5

-- The clock hour of a time, which the first 13 characters of its ISO text name.
abbrev pub current_hour_bucket : ℕ → ℕ
current_hour_bucket now = now / (60 * 60 * 1000)

abbrev pub count_one_more : ℕ → ℕ → Counters → Counters
count_one_more webhook hour c w h = if w == webhook && h == hour then c w h + 1 else c w h

abbrev pub over_limit : ℕ → ℤ → ℕ → Option Counters → State → Bool × State
over_limit webhook limit hour none st = (false, st)
over_limit webhook limit hour (some c) st = (
  ltb_ℤ limit (pos (c webhook hour + 1)),
  record st { redis = some (count_one_more webhook hour c) },
)

abbrev pub throttled_by : ℕ → Option ℤ → ℕ → State → Bool × State
throttled_by webhook none now st = (false, st)
throttled_by webhook (some limit) now st =
    if leb_ℤ limit (pos 0)
    then (false, st)
    else over_limit webhook limit (current_hour_bucket now) st.redis st

-- Whether to skip the delivery, with the counter of the hour raised.
unfoldable pub is_webhook_throttled : ℕ → Webhook → State → Bool × State
is_webhook_throttled now w st = throttled_by w.id w.max_per_hour now st

-- UPDATE webhooks SET consecutive_failures = $1 …, by the threshold
abbrev pub count_failure : ℕ → ℕ → Webhook → Webhook
count_failure now failures w =
    if leb circuit_breaker_threshold failures
    then record w {
      consecutive_failures = failures;
      circuit_open = true;
      circuit_opened_at = some (or_else w.circuit_opened_at now);
    }
    else record w { consecutive_failures = failures }

abbrev failure_status : ℕ → DeliveryStatus
failure_status failures =
    if leb circuit_breaker_threshold failures then failed_permanent else failed

abbrev log_failure : ℕ → Webhook → ℕ → DeliveryError → DeliveryStatus → Option ℕ → State → State
log_failure now w payload error status none st = record st {
  deliveries =
      st.deliveries
      ++ (record {
        id = st.next_delivery;
        webhook_id = w.id;
        payload = payload;
        attempt = 1;
        next_retry_at = now + 5000;
        last_error = some error;
        status = status;
        delivered_at = none;
      }
          ∷ []);
  next_delivery = suc st.next_delivery;
}
log_failure now w payload error status (some delivery) st =
    update_delivery delivery
      (λ d. record d {
        attempt = d.attempt + 1;
        next_retry_at = now + 5000;
        last_error = some error;
        status = status;
      })
      st

unfoldable pub record_failure : ℕ → Webhook → ℕ → DeliveryError → Option ℕ → State → State
record_failure now w payload error delivery st =
    let new_failures = w.consecutive_failures + 1 in
    log_failure now w payload error (failure_status new_failures) delivery
      (update_webhook w.id (count_failure now new_failures) st)

abbrev log_delivered : ℕ → Option ℕ → State → State
log_delivered now none st = st
log_delivered now (some delivery) st =
    update_delivery delivery
      (λ d. record d { delivered_at = some now; status = delivered; last_error = none }) st

abbrev pub clear_failures : Webhook → Webhook
clear_failures w = record w { consecutive_failures = 0 }

unfoldable pub record_success : ℕ → Webhook → Option ℕ → State → State
record_success now w delivery st =
    log_delivered now delivery
      (if ltb 0 w.consecutive_failures then update_webhook w.id clear_failures st else st)

-- `response.ok`
abbrev pub response_ok : ℕ → Bool
response_ok status = leb 200 status && leb status 299

-- The worker rethrows what the request threw.
pub data DeliveryThrew : Type 0 where
  delivery_threw : DeliveryThrew

module _ (sign : ℕ → Text → Text) (window_hours : ℕ) (url_allowed : ℕ → Bool) where
  abbrev pub log_sent : ℕ → Webhook → ℕ → State → State
  log_sent now w payload st = record st {
    sent =
        st.sent
        ++ (record {
          webhook_id = w.id;
          sent_at = now;
          headers = build_signature_headers (sign payload) window_hours w now;
        }
            ∷ []);
  }

  abbrev pub settle_outcome :
      ℕ → Webhook → ℕ → Option ℕ → Outcome → State → State × Result DeliveryThrew (Unit {0})
  settle_outcome now w payload delivery (response status) st =
      if response_ok status
      then (record_success now w delivery st, ok tt)
      else (record_failure now w payload (non_2xx (some status)) delivery st, ok tt)
  settle_outcome now w payload delivery threw st =
      (record_failure now w payload request_threw delivery st, err delivery_threw)

  abbrev pub send :
      ℕ → Webhook → ℕ → Option ℕ → Outcome → State → State × Result DeliveryThrew (Unit {0})
  send now w payload delivery outcome st =
      if url_allowed w.url
      then settle_outcome now w payload delivery outcome (log_sent now w payload st)
      else (record_failure now w payload ssrf_check_failed delivery st, ok tt)

  abbrev pub unless_throttled :
      ℕ → Webhook → ℕ → Option ℕ → Outcome → Bool × State → State × Result DeliveryThrew (Unit {0})
  unless_throttled now w payload delivery outcome (true, st) = (st, ok tt)
  unless_throttled now w payload delivery outcome (false, st) =
      send now w payload delivery outcome st

  abbrev pub deliver_to :
      ℕ → Option Webhook → ℕ → Option ℕ → Outcome → State → State × Result DeliveryThrew (Unit {0})
  deliver_to now none payload delivery outcome st = (st, ok tt)
  deliver_to now (some w) payload delivery outcome st =
      if w.circuit_open
      then (st, ok tt)
      else unless_throttled now w payload delivery outcome (is_webhook_throttled now w st)

  -- `outcome` is what the request gives, if one is sent.
  unfoldable pub process_webhook_delivery :
      ℕ → ℕ → ℕ → Option ℕ → Outcome → State → State × Result DeliveryThrew (Unit {0})
  unfolding is_webhook_throttled record_failure record_success
  process_webhook_delivery now webhook payload delivery outcome st =
      deliver_to now (webhook_of webhook st) payload delivery outcome st
