-- ===== src/Webhooks/Retries.antt =====
-- backend/src/services/notifications.ts: the retries of deliveries, with the fallback of a webhook whose
-- retries are exhausted.
pub mod Uncounted
use stellar_yield_contracts.Base.{
  ℕ, zero, suc, ◌+◌, ◌*◌, ◌^◌, min, Bool, true, false, not, ◌&&◌, Option, none, some, is_some, List,
  [], ◌∷◌, ◌++◌, ltb, leb, if◌then◌else◌, Result, ok, err, select, take, update_where,
}
use stellar_yield_contracts.Vaults.Names.{Text}
use stellar_yield_contracts.Webhooks.Store.{
  Webhook, Delivery, delivered, DeliveryError, non_2xx, request_threw, Sent, State, Outcome,
  response, threw, webhook_of, update_webhook, update_delivery,
}
use stellar_yield_contracts.Webhooks.Worker.{
  circuit_breaker_threshold, count_failure, clear_failures, response_ok, log_sent,
}

abbrev pub max_delivery_attempts : ℕ
max_delivery_attempts = 6

-- Seconds until the next retry.
abbrev pub delay_seconds : ℕ → ℕ
delay_seconds attempt = min (2 ^ attempt * 5) 3600

-- A due row with the fallback of its webhook, as the scan reads them.
pub record DueRow : Type 0 where
  pub delivery : Delivery
  pub fallback : Option ℕ

abbrev is_due : ℕ → Delivery → Bool
is_due now d =
    leb d.next_retry_at now && not (is_some d.delivered_at) && ltb d.attempt max_delivery_attempts

abbrev join_webhook : Delivery → Option Webhook → List DueRow → List DueRow
join_webhook d none rows = rows
join_webhook d (some w) rows =
    if w.active && not w.circuit_open
    then record { delivery = d; fallback = w.fallback_channel } ∷ rows
    else rows

unfoldable pub due_from : ℕ → State → List Delivery → List DueRow
due_from now st [] = []
due_from now st (d ∷ ds) =
    let rest = due_from now st ds in
    if is_due now d then join_webhook d (webhook_of d.webhook_id st) rest else rest

-- ORDER BY next_retry_at ASC
abbrev pub insert_by_time : DueRow → List DueRow → List DueRow
insert_by_time r [] = r ∷ []
insert_by_time r (q ∷ rows) =
    if leb r.delivery.next_retry_at q.delivery.next_retry_at
    then r ∷ q ∷ rows
    else q ∷ insert_by_time r rows

unfoldable pub sort_by_time : List DueRow → List DueRow
sort_by_time [] = []
sort_by_time (r ∷ rows) = insert_by_time r (sort_by_time rows)

abbrev pub due_rows : ℕ → State → List DueRow
due_rows now st = take 50 (sort_by_time (due_from now st st.deliveries))

abbrev pub rotated_before : ℕ → ℕ → Option ℕ → Bool
rotated_before now window_hours none = false
rotated_before now window_hours (some at) = leb (at + window_hours * 60 * 60 * 1000) now

-- The previous secret, once the rotation window is over.
abbrev pub is_past_window : ℕ → ℕ → Webhook → Bool
is_past_window window_hours now w =
    is_some w.previous_secret && rotated_before now window_hours w.secret_rotated_at

unfoldable pub purge_expired_rotated_secrets : ℕ → ℕ → State → State
purge_expired_rotated_secrets window_hours now st = record st {
  webhooks =
      update_where (is_past_window window_hours now)
        (λ w. record w { previous_secret = none; secret_rotated_at = none }) st.webhooks;
}

unfoldable pub register_retry_failure : ℕ → Webhook → State → State
register_retry_failure now w st =
    update_webhook w.id (count_failure now (w.consecutive_failures + 1)) st

abbrev escalate_to : Option ℕ → ℕ → ℕ → State → State
escalate_to none payload next_attempt st = st
escalate_to (some channel) payload next_attempt st =
    if ltb next_attempt max_delivery_attempts
    then st
    else record st { jobs = st.jobs ++ (record { webhook_id = channel; payload = payload } ∷ []) }

unfoldable pub maybe_escalate_to_fallback : DueRow → ℕ → State → State
maybe_escalate_to_fallback row next_attempt st =
    escalate_to row.fallback row.delivery.payload next_attempt st

-- The row after an attempt that failed, and the fallback if it was the last.
unfoldable pub put_off : ℕ → DueRow → DeliveryError → State → State
unfolding maybe_escalate_to_fallback
put_off now row error st =
    let next_attempt = row.delivery.attempt + 1 in
    maybe_escalate_to_fallback row next_attempt (
      update_delivery row.delivery.id
        (λ d. record d {
          attempt = next_attempt;
          next_retry_at = now + delay_seconds row.delivery.attempt * 1000;
          last_error = some error;
        })
        st)

unfoldable pub retry_succeeded : ℕ → DueRow → Webhook → State → State
retry_succeeded now row w st =
    let logged =
      update_delivery row.delivery.id
        (λ d. record d { delivered_at = some now; status = delivered; last_error = none }) st in
    if ltb 0 w.consecutive_failures then update_webhook w.id clear_failures logged else logged

unfoldable pub retry_failed : ℕ → DueRow → Webhook → State → State
unfolding register_retry_failure put_off
retry_failed now row w st = put_off now row (non_2xx none) (register_retry_failure now w st)

module _ (sign : ℕ → Text → Text) (window_hours : ℕ) (url_allowed ssrf_allowed : ℕ → Bool) where
  abbrev outcome_of : Outcome → Option Bool
  outcome_of (response status) = some (response_ok status)
  outcome_of threw = none

  -- `deliver`: whether it succeeded, or that the request threw; and the requests sent. The URL has to pass
  -- `validateWebhookUrl` and `validateWebhookUrlSsrf`.
  abbrev pub deliver : ℕ → Webhook → ℕ → Outcome → State → State × Option Bool
  deliver now w payload outcome st =
      if url_allowed w.url && ssrf_allowed w.url
      then (log_sent sign window_hours url_allowed now w payload st, outcome_of outcome)
      else (st, some false)

  abbrev pub after_deliver : ℕ → DueRow → Webhook → State × Option Bool → State
  after_deliver now row w (st, some true) = retry_succeeded now row w st
  after_deliver now row w (st, some false) = retry_failed now row w st
  after_deliver now row w (st, none) = put_off now row request_threw st

  abbrev pub retry_to : ℕ → DueRow → Option Webhook → Outcome → State → State
  retry_to now row none outcome st = st
  retry_to now row (some w) outcome st =
      if w.circuit_open
      then st
      else after_deliver now row w (deliver now w row.delivery.payload outcome st)

  unfoldable pub retry_row : ℕ → DueRow → Outcome → State → State
  unfolding retry_succeeded retry_failed put_off
  retry_row now row outcome st = retry_to now row (webhook_of row.delivery.webhook_id st) outcome st

  abbrev pub retry_rows : ℕ → (ℕ → Outcome) → List DueRow → State → State
  retry_rows now outcome [] st = st
  retry_rows now outcome (row ∷ rows) st =
      retry_rows now outcome rows (retry_row now row (outcome row.delivery.id) st)

  -- `outcome` is what the request for each delivery gives.
  unfoldable pub process_retries : ℕ → (ℕ → Outcome) → State → State
  unfolding retry_row purge_expired_rotated_secrets due_from sort_by_time
  process_retries now outcome st =
      retry_rows now outcome (due_rows now st) (purge_expired_rotated_secrets window_hours now st)
