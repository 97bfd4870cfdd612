-- ===== src/Webhooks/Circuit/Tripped.antt =====
-- The circuit over every sequence of deliveries, retries and resets.
use stellar_yield_contracts.Base.{ℕ, refl, Bool, List, [], ◌∷◌}
use stellar_yield_contracts.Vaults.Names.{Text}
use stellar_yield_contracts.Webhooks.Store.{Webhook, State, Outcome, is_webhook}
use stellar_yield_contracts.Webhooks.Retries.{
  DueRow, purge_expired_rotated_secrets, retry_row, retry_rows, process_retries, due_rows,
}
use stellar_yield_contracts.Webhooks.Circuit.{
  Event, deliver_job, run_retries, reset, reset_webhook_circuit, apply_event, run_events,
  AllTripped,
}
use stellar_yield_contracts.Webhooks.Circuit.Kept.{
  update_where-AllTripped, failure-AllTripped, success-AllTripped,
}
use stellar_yield_contracts.Webhooks.Circuit.Steps.{
  Step, unchanged, counted, cleared, process_webhook_delivery-Step, retry_row-Step,
}

Step-AllTripped : {rows rows' : List Webhook} → Step rows rows' → AllTripped rows → AllTripped rows'
Step-AllTripped unchanged h = h
Step-AllTripped (counted now k w read closed) h = failure-AllTripped now k w _ read h
Step-AllTripped (cleared k w read closed) h = success-AllTripped k w _ read closed h

purge-AllTripped :
    (window_hours now : ℕ) (st : State)
    → AllTripped st.webhooks
    → AllTripped (purge_expired_rotated_secrets window_hours now st).webhooks
unfolding purge_expired_rotated_secrets
purge-AllTripped window_hours now st h =
    update_where-AllTripped _ _ st.webhooks (λ w. refl) (λ n w found c. h n w found) h

reset-AllTripped :
    (k : ℕ) (st : State) → AllTripped st.webhooks → AllTripped (reset_webhook_circuit k st).webhooks
unfolding reset_webhook_circuit
reset-AllTripped k st h =
    update_where-AllTripped (is_webhook k) _ st.webhooks (λ w. refl) (λ n w found c. refl) h

module _ (sign : ℕ → Text → Text) (window_hours : ℕ) (url_allowed ssrf_allowed : ℕ → Bool) where
  retry_rows-AllTripped :
      (now : ℕ) (outcome : ℕ → Outcome) (rows : List DueRow) (st : State)
      → AllTripped st.webhooks
      → AllTripped
          (retry_rows sign window_hours url_allowed ssrf_allowed now outcome rows st).webhooks
  retry_rows-AllTripped now outcome [] st h = h
  retry_rows-AllTripped now outcome (row ∷ rows) st h =
      let next =
        retry_row sign window_hours url_allowed ssrf_allowed now row (outcome row.delivery.id) st in
      retry_rows-AllTripped now outcome rows next (
        Step-AllTripped
          (retry_row-Step sign window_hours url_allowed ssrf_allowed now row
            (outcome row.delivery.id) st)
          h)

  apply_event-AllTripped :
      (e : Event) (st : State)
      → AllTripped st.webhooks
      → AllTripped (apply_event sign window_hours url_allowed ssrf_allowed e st).webhooks
  unfolding process_retries
  apply_event-AllTripped (deliver_job now webhook payload delivery outcome) st h =
      Step-AllTripped
        (process_webhook_delivery-Step sign window_hours url_allowed now webhook payload delivery
          outcome st)
        h
  apply_event-AllTripped (run_retries now outcome) st h =
      retry_rows-AllTripped now outcome (due_rows now st)
        (purge_expired_rotated_secrets window_hours now st) (purge-AllTripped window_hours now st h)
  apply_event-AllTripped (reset webhook) st h = reset-AllTripped webhook st h

  -- Over any sequence of delivery jobs, runs of the retries and resets by operators, whatever the requests
  -- give, the circuit of every webhook is open exactly if its consecutive failures have reached the
  -- threshold of five, if this held of every webhook at the start.
  pub run_events-AllTripped :
      (events : List Event) (st : State)
      → AllTripped st.webhooks
      → AllTripped (run_events sign window_hours url_allowed ssrf_allowed events st).webhooks
  unfolding run_events
  run_events-AllTripped [] st h = h
  run_events-AllTripped (e ∷ events) st h =
      run_events-AllTripped events (apply_event sign window_hours url_allowed ssrf_allowed e st)
        (apply_event-AllTripped e st h)
