-- ===== src/Webhooks/Circuit/Steps.antt =====
-- What deliveries and retries do to the rows of webhooks.
use mathlib.Core.Path.{subst}
use stellar_yield_contracts.Base.{
  ◌&&◌, ℕ, ◌+◌, ◌≡◌, refl, inl, inr, Bool, true, false, Option, none, some, List, arith, find,
  update_where, ltb, if◌then◌else◌, Bool-cases,
}
use stellar_yield_contracts.Vaults.Names.{Text}
use stellar_yield_contracts.Webhooks.Store.{
  Webhook, State, Outcome, response, threw, is_webhook, webhook_of, DeliveryError,
}
use stellar_yield_contracts.Webhooks.Worker.{
  count_failure, clear_failures, is_webhook_throttled, record_failure, record_success,
  settle_outcome, send, unless_throttled, deliver_to, process_webhook_delivery, response_ok,
  log_sent,
}
use stellar_yield_contracts.Webhooks.Retries.{
  DueRow, register_retry_failure, put_off, retry_succeeded, after_deliver, deliver, retry_failed,
  retry_to, retry_row,
}

-- One step on the rows: nothing, a failure counted or the failures cleared of a row that was read with
-- its circuit closed.
pub data Step (rows : List Webhook) : List Webhook → Type 0 where
  unchanged : Step rows rows
  counted :
      (now k : ℕ) (w : Webhook)
      → find (is_webhook k) rows ≡ some w
      → w.circuit_open ≡ false
      → Step rows
          (update_where (is_webhook w.id) (count_failure now (w.consecutive_failures + 1)) rows)
  cleared :
      (k : ℕ) (w : Webhook)
      → find (is_webhook k) rows ≡ some w
      → w.circuit_open ≡ false
      → Step rows (update_where (is_webhook w.id) clear_failures rows)

pub record_failure-webhooks :
    (now : ℕ) (w : Webhook) (payload : ℕ) (error : DeliveryError) (delivery : Option ℕ) (st : State)
    → (record_failure now w payload error delivery st).webhooks
      ≡ update_where (is_webhook w.id) (count_failure now (w.consecutive_failures + 1)) st.webhooks
unfolding record_failure
record_failure-webhooks now w payload error none st = refl
record_failure-webhooks now w payload error (some d) st = refl

record_success-webhooks :
    (now : ℕ) (w : Webhook) (delivery : Option ℕ) (st : State)
    → (record_success now w delivery st).webhooks ≡ (
        if ltb 0 w.consecutive_failures
        then update_where (is_webhook w.id) clear_failures st.webhooks
        else st.webhooks)
unfolding record_success
record_success-webhooks now w none st = ground arith
record_success-webhooks now w (some d) st = ground arith

throttle-webhooks :
    (now : ℕ) (w : Webhook) (st : State) → (is_webhook_throttled now w st).1.webhooks ≡ st.webhooks
unfolding is_webhook_throttled
throttle-webhooks now w st = ground arith

-- The row that a step reads, its circuit closed.
abbrev IsRead : ℕ → Webhook → State → Type 0
IsRead k w st = (find (is_webhook k) st.webhooks ≡ some w) × (w.circuit_open ≡ false)

record_failure-Step :
    (now k : ℕ) (w : Webhook) (payload : ℕ) (error : DeliveryError) (delivery : Option ℕ)
    (st : State)
    → IsRead k w st
    → Step st.webhooks (record_failure now w payload error delivery st).webhooks
record_failure-Step now k w payload error delivery st (read, closed) =
    rw (record_failure-webhooks now w payload error delivery st) (counted now k w read closed)

record_success-Step :
    (now k : ℕ) (w : Webhook) (delivery : Option ℕ) (st : State)
    → IsRead k w st
    → Step st.webhooks (record_success now w delivery st).webhooks
record_success-Step now k w delivery st (read, closed) =
    rw (record_success-webhooks now w delivery st)
      (elim (Bool-cases (ltb 0 w.consecutive_failures)) [
        | inl e ↦ rw e (cleared k w read closed)
        | inr e ↦ rw e unchanged
      ])

module _ (sign : ℕ → Text → Text) (window_hours : ℕ) (url_allowed : ℕ → Bool) where
  settle_outcome-Step :
      (now k : ℕ) (w : Webhook) (payload : ℕ) (delivery : Option ℕ) (outcome : Outcome) (st : State)
      → IsRead k w st
      → Step st.webhooks
          (settle_outcome sign window_hours url_allowed now w payload delivery outcome
            st).0.webhooks
  settle_outcome-Step now k w payload delivery (response status) st read =
      elim (Bool-cases (response_ok status)) [
        | inl e ↦ rw e (record_success-Step now k w delivery st read)
        | inr e ↦ rw e (record_failure-Step now k w payload _ delivery st read)
      ]
  settle_outcome-Step now k w payload delivery threw st read =
      record_failure-Step now k w payload _ delivery st read

  send-Step :
      (now k : ℕ) (w : Webhook) (payload : ℕ) (delivery : Option ℕ) (outcome : Outcome) (st : State)
      → IsRead k w st
      → Step st.webhooks
          (send sign window_hours url_allowed now w payload delivery outcome st).0.webhooks
  send-Step now k w payload delivery outcome st read = elim (Bool-cases (url_allowed w.url)) [
    | inl e ↦ rw e (
        settle_outcome-Step now k w payload delivery outcome
          (log_sent sign window_hours url_allowed now w payload st) read)
    | inr e ↦ rw e (record_failure-Step now k w payload _ delivery st read)
  ]

  unless_throttled-Step :
      (now k : ℕ) (w : Webhook) (payload : ℕ) (delivery : Option ℕ) (outcome : Outcome)
      (checked : Bool × State)
      → IsRead k w checked.1
      → Step checked.1.webhooks
          (unless_throttled sign window_hours url_allowed now w payload delivery outcome
            checked).0.webhooks
  unless_throttled-Step now k w payload delivery outcome (true, st) read = unchanged
  unless_throttled-Step now k w payload delivery outcome (false, st) read =
      send-Step now k w payload delivery outcome st read

  deliver_to-Step :
      (now k : ℕ) (found : Option Webhook) (payload : ℕ) (delivery : Option ℕ) (outcome : Outcome)
      (st : State)
      → find (is_webhook k) st.webhooks ≡ found
      → Step st.webhooks
          (deliver_to sign window_hours url_allowed now found payload delivery outcome
            st).0.webhooks
  deliver_to-Step now k none payload delivery outcome st read = unchanged
  deliver_to-Step now k (some w) payload delivery outcome st read =
      elim (Bool-cases w.circuit_open) [
        | inl e ↦ simp e unchanged
        | inr e ↦
            let same = throttle-webhooks now w st in
            simp e (
              subst
                (λ rows.
                  Step rows
                    (unless_throttled sign window_hours url_allowed now w payload delivery outcome
                      (is_webhook_throttled now w st)).0.webhooks)
                same
                (unless_throttled-Step now k w payload delivery outcome
                  (is_webhook_throttled now w st) (rw same read, e)))
      ]

  pub process_webhook_delivery-Step :
      (now k payload : ℕ) (delivery : Option ℕ) (outcome : Outcome) (st : State)
      → Step st.webhooks
          (process_webhook_delivery sign window_hours url_allowed now k payload delivery outcome
            st).0.webhooks
  unfolding process_webhook_delivery
  process_webhook_delivery-Step now k payload delivery outcome st =
      deliver_to-Step now k (webhook_of k st) payload delivery outcome st refl

module _ (sign : ℕ → Text → Text) (window_hours : ℕ) (url_allowed ssrf_allowed : ℕ → Bool) where
  put_off-webhooks :
      (now : ℕ) (row : DueRow) (error : DeliveryError) (st : State)
      → (put_off now row error st).webhooks ≡ st.webhooks
  unfolding put_off
  put_off-webhooks now row error st = ground arith

  after_deliver-Step :
      (now k : ℕ) (row : DueRow) (w : Webhook) (result : Option Bool) (st : State)
      → IsRead k w st
      → Step st.webhooks
          (after_deliver sign window_hours url_allowed ssrf_allowed now row w (st, result)).webhooks
  unfolding retry_succeeded retry_failed register_retry_failure
  after_deliver-Step now k row w (some true) st (read, closed) =
      elim (Bool-cases (ltb 0 w.consecutive_failures)) [
        | inl e ↦ simp e (cleared k w read closed)
        | inr e ↦ simp e unchanged
      ]
  after_deliver-Step now k row w (some false) st (read, closed) =
      rw (put_off-webhooks now row _ (register_retry_failure now w st))
        (counted now k w read closed)
  after_deliver-Step now k row w none st read = rw (put_off-webhooks now row _ st) unchanged

  deliver-Step :
      (now k : ℕ) (row : DueRow) (w : Webhook) (outcome : Outcome) (st : State)
      → IsRead k w st
      → Step st.webhooks
          (after_deliver sign window_hours url_allowed ssrf_allowed now row w (
            deliver sign window_hours url_allowed ssrf_allowed now w row.delivery.payload outcome
              st)).webhooks
  deliver-Step now k row w outcome st read =
      elim (Bool-cases (url_allowed w.url && ssrf_allowed w.url)) [
        | inl e ↦ rw e (
            after_deliver-Step now k row w _
              (log_sent sign window_hours url_allowed now w row.delivery.payload st) read)
        | inr e ↦ rw e (after_deliver-Step now k row w (some false) st read)
      ]

  retry_to-Step :
      (now k : ℕ) (row : DueRow) (found : Option Webhook) (outcome : Outcome) (st : State)
      → find (is_webhook k) st.webhooks ≡ found
      → Step st.webhooks
          (retry_to sign window_hours url_allowed ssrf_allowed now row found outcome st).webhooks
  retry_to-Step now k row none outcome st read = unchanged
  retry_to-Step now k row (some w) outcome st read = elim (Bool-cases w.circuit_open) [
    | inl e ↦ simp e unchanged
    | inr e ↦ simp e (deliver-Step now k row w outcome st (read, e))
  ]

  pub retry_row-Step :
      (now : ℕ) (row : DueRow) (outcome : Outcome) (st : State)
      → Step st.webhooks
          (retry_row sign window_hours url_allowed ssrf_allowed now row outcome st).webhooks
  unfolding retry_row
  retry_row-Step now row outcome st =
      retry_to-Step now row.delivery.webhook_id row (webhook_of row.delivery.webhook_id st) outcome
        st refl
