-- ===== src/Webhooks/Rotation.antt =====
-- The rotation of a webhook's secret: rotateWebhookSecret of backend/src/api/controllers/admin.ts, and the
-- signatures that a receiver sees after it.
use native.Mathlib.Omega.{arith}
use stellar_yield_contracts.Base.{
  ℕ, ◌+◌, ◌*◌, ◌≤◌, ◌≡◌, refl, ap, ◌∙◌, Bool, true, false, Option, none, some, List, [], ◌∷◌, ltb,
  find, update_where, find-update_where_self, Bool-cases, inl, inr, All,
}
use stellar_yield_contracts.Vaults.Names.{Text}
use stellar_yield_contracts.Webhooks.Store.{Webhook, State, is_webhook, webhook_of, update_webhook}
use stellar_yield_contracts.Webhooks.Signature.{
  is_within_rotation_window, build_signature_headers, signature_header, previous_signature_header,
  non_empty, headers_for, previous_header,
}
use stellar_yield_contracts.Webhooks.Retries.{
  is_past_window, rotated_before, purge_expired_rotated_secrets,
}

-- UPDATE webhooks SET previous_secret = secret, secret = $1, secret_rotated_at = NOW() WHERE id = $2
abbrev with_secret : ℕ → Text → Webhook → Webhook
with_secret now new_secret w = record w {
  previous_secret = w.secret;
  secret = some new_secret;
  secret_rotated_at = some now;
}

unfoldable pub rotate_webhook_secret : ℕ → ℕ → Text → State → State
rotate_webhook_secret now webhook new_secret st =
    update_webhook webhook (with_secret now new_secret) st

abbrev pub headers_in : (Text → Text) → ℕ → ℕ → Option Webhook → Option (List (Text × Text))
headers_in sign window_hours now none = none
headers_in sign window_hours now (some w) = some (build_signature_headers sign window_hours w now)

abbrev pub headers_of : (Text → Text) → ℕ → ℕ → ℕ → State → Option (List (Text × Text))
headers_of sign window_hours now n st = headers_in sign window_hours now (webhook_of n st)

abbrev without_previous : Webhook → Webhook
without_previous w = record w { previous_secret = none; secret_rotated_at = none }

previous_header-late :
    (sign : Text → Text) (window_hours run now : ℕ) (previous : Option Text) (at : Option ℕ)
    → rotated_before run window_hours at ≡ true
    → run ≤ now
    → previous_header sign window_hours
        (is_within_rotation_window window_hours at now)
        (non_empty previous)
      ≡ []
previous_header-late sign window_hours run now previous none h le = ground (arith, h)
previous_header-late sign window_hours run now none (some t) h le = refl
previous_header-late sign window_hours run now (some []) (some t) h le = refl
previous_header-late sign window_hours run now (some (c ∷ s)) (some t) h le = ground (arith, h, le)

purged-headers :
    (sign : Text → Text) (window_hours run now : ℕ) (w : Webhook) (secret : Option Text)
    → is_past_window window_hours run w ≡ true
    → run ≤ now
    → headers_for sign window_hours secret (without_previous w) now
      ≡ headers_for sign window_hours secret w now
purged-headers sign window_hours run now w none h le = refl
purged-headers sign window_hours run now w (some secret) h le =
    rw
      (previous_header-late sign window_hours run now w.previous_secret w.secret_rotated_at
        (ground (arith, h)) le)
      refl

-- A purge of the secrets whose window is over changes no header from then on.
purge-headers :
    (sign : Text → Text) (window_hours run now n : ℕ) (rows : List Webhook)
    → run ≤ now
    → headers_in sign window_hours now
        (find (is_webhook n) (update_where (is_past_window window_hours run) without_previous rows))
      ≡ headers_in sign window_hours now (find (is_webhook n) rows)
purge-headers sign window_hours run now n [] le = refl
purge-headers sign window_hours run now n (w ∷ rows) le =
    elim (Bool-cases (is_past_window window_hours run w)) [
      | inl past ↦ elim (Bool-cases (is_webhook n w)) [
        | inl e ↦ simp (past, e) (ap some (purged-headers sign window_hours run now w _ past le))
        | inr e ↦ simp (past, e) (purge-headers sign window_hours run now n rows le)
      ]
      | inr kept ↦ elim (Bool-cases (is_webhook n w)) [
        | inl e ↦ simp (kept, e) refl
        | inr e ↦ simp (kept, e) (purge-headers sign window_hours run now n rows le)
      ]
    ]

-- The purges of any number of retry runs, each at its time.
unfoldable pub run_purges : ℕ → List ℕ → State → State
run_purges window_hours [] st = st
run_purges window_hours (run ∷ runs) st =
    run_purges window_hours runs (purge_expired_rotated_secrets window_hours run st)

run_purges-headers :
    (sign : Text → Text) (window_hours now n : ℕ) (runs : List ℕ) (st : State)
    → All (λ run. run ≤ now) runs
    → headers_of sign window_hours now n (run_purges window_hours runs st)
      ≡ headers_of sign window_hours now n st
unfolding run_purges purge_expired_rotated_secrets
run_purges-headers sign window_hours now n [] st le = refl
run_purges-headers sign window_hours now n (run ∷ runs) st (first, later) =
    run_purges-headers sign window_hours now n runs
      (purge_expired_rotated_secrets window_hours run st) later
    ∙ purge-headers sign window_hours run now n st.webhooks first

-- The signatures of a webhook whose secret was replaced at `t`.
abbrev pub signed_by : (Text → Text) → Bool → Text → Text → List (Text × Text)
signed_by sign true old new =
    (signature_header, sign new) ∷ (previous_signature_header, sign old) ∷ []
signed_by sign false old new = (signature_header, sign new) ∷ []

-- After the secret of a webhook that had one is rotated, and any number of purges of old secrets up to a
-- time, a delivery at that time is signed by the new secret, and by the old one too exactly while less time has passed
-- than the rotation window has.
pub rotate_webhook_secret-headers :
    (sign : Text → Text) (window_hours t now n : ℕ) (runs : List ℕ) (st : State) (w : Webhook)
    (c d : ℕ) (old new : Text)
    → webhook_of n st ≡ some w
    → w.secret ≡ some (c ∷ old)
    → All (λ run. run ≤ now) runs
    → headers_of sign window_hours now n
        (run_purges window_hours runs (rotate_webhook_secret t n (d ∷ new) st))
      ≡ some (signed_by sign (ltb now (t + window_hours * 60 * 60 * 1000)) (c ∷ old) (d ∷ new))
unfolding rotate_webhook_secret
rotate_webhook_secret-headers sign window_hours t now n runs st w c d old new known secret le =
    run_purges-headers sign window_hours now n runs _ le
    ∙ rw
        (
          find-update_where_self (is_webhook n) (with_secret t (d ∷ new)) st.webhooks w (λ u e. e)
              known,
          secret,
        )
        (ground arith)
