-- ===== src/Webhooks/Retries/Uncounted.antt =====
-- Retries whose requests throw, and the failures that they do not count.
use stellar_yield_contracts.Base.{
  ℕ, ◌≡◌, refl, ap, ◌∙◌, Bool, true, Option, none, some, List, [], ◌∷◌, arith, Bool-cases, inl, inr,
  find, update_where,
}
use stellar_yield_contracts.Vaults.Names.{Text}
use stellar_yield_contracts.Webhooks.Store.{
  Webhook, State, threw, is_webhook, webhook_of, DeliveryError,
}
use stellar_yield_contracts.Webhooks.Retries.{
  DueRow, put_off, purge_expired_rotated_secrets, retry_to, retry_row, retry_rows, process_retries,
  due_rows,
}

pub put_off-webhooks :
    (now : ℕ) (row : DueRow) (error : DeliveryError) (st : State)
    → (put_off now row error st).webhooks ≡ st.webhooks
unfolding put_off
put_off-webhooks now row error st = ground arith

abbrev pub failures_in : Option Webhook → Option (ℕ × Bool)
failures_in none = none
failures_in (some w) = some (w.consecutive_failures, w.circuit_open)

abbrev pub counted_failures : ℕ → State → Option (ℕ × Bool)
counted_failures n st = failures_in (webhook_of n st)

module _ (sign : ℕ → Text → Text) (window_hours : ℕ) (url_allowed ssrf_allowed : ℕ → Bool)
    (allowed : (url : ℕ) → url_allowed url ≡ true)
    (safe : (url : ℕ) → ssrf_allowed url ≡ true) where
  retry_to-threw :
      (now : ℕ) (row : DueRow) (found : Option Webhook) (st : State)
      → (retry_to sign window_hours url_allowed ssrf_allowed now row found threw st).webhooks
        ≡ st.webhooks
  retry_to-threw now row none st = refl
  retry_to-threw now row (some w) st = elim (Bool-cases w.circuit_open) [
    | inl e ↦ simp e refl
    | inr e ↦ simp (e, allowed w.url, safe w.url, put_off-webhooks)
  ]

  retry_rows-threw :
      (now : ℕ) (rows : List DueRow) (st : State)
      → (retry_rows sign window_hours url_allowed ssrf_allowed now (λ d. threw) rows st).webhooks
        ≡ st.webhooks
  unfolding retry_row
  retry_rows-threw now [] st = refl
  retry_rows-threw now (row ∷ rows) st =
      retry_rows-threw now rows
        (retry_row sign window_hours url_allowed ssrf_allowed now row threw st)
      ∙ retry_to-threw now row (webhook_of row.delivery.webhook_id st) st

  purge-failures :
      (q : Webhook → Bool) (n : ℕ) (rows : List Webhook)
      → failures_in (
          find (is_webhook n) (
            update_where q
              (λ w. record w { previous_secret = none; secret_rotated_at = none })
              rows))
        ≡ failures_in (find (is_webhook n) rows)
  purge-failures q n [] = refl
  purge-failures q n (w ∷ rows) = ground (arith, purge-failures q n rows)

  process_retries-threw :
      (now n : ℕ) (st : State)
      → counted_failures n
          (process_retries sign window_hours url_allowed ssrf_allowed now (λ d. threw) st)
        ≡ counted_failures n st
  unfolding process_retries purge_expired_rotated_secrets
  process_retries-threw now n st =
      ap (λ rows. failures_in (find (is_webhook n) rows))
        (retry_rows-threw now (due_rows now st) (purge_expired_rotated_secrets window_hours now st))
      ∙ purge-failures _ n st.webhooks

  unfoldable pub run_all_threw : List ℕ → State → State
  run_all_threw [] st = st
  run_all_threw (now ∷ times) st =
      run_all_threw times
        (process_retries sign window_hours url_allowed ssrf_allowed now (λ d. threw) st)

  -- Where every URL passes both SSRF checks, no number of runs of the retries in which every request throws, as
  -- it does on a timeout, changes the consecutive failures or the circuit of any webhook.
  pub run_all_threw-failures :
      (times : List ℕ) (n : ℕ) (st : State)
      → counted_failures n (run_all_threw times st) ≡ counted_failures n st
  unfolding run_all_threw
  run_all_threw-failures [] n st = refl
  run_all_threw-failures (now ∷ times) n st =
      run_all_threw-failures times n
        (process_retries sign window_hours url_allowed ssrf_allowed now (λ d. threw) st)
      ∙ process_retries-threw now n st
