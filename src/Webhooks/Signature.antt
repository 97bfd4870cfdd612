-- ===== src/Webhooks/Signature.antt =====
-- backend/src/services/webhookSignature.ts: the signature headers of a delivery. The HMAC is an
-- argument, and so is the length of the rotation window, which is configured.
use stellar_yield_contracts.Base.{
  ℕ, ◌+◌, ◌*◌, Bool, true, false, Option, none, some, List, [], ◌∷◌, ltb,
}
use stellar_yield_contracts.Amounts.Text.{codes}
use stellar_yield_contracts.Vaults.Names.{Text}
use stellar_yield_contracts.Webhooks.Store.{Webhook}

abbrev pub signature_header : Text
signature_header = codes "X-StellarYield-Signature"

abbrev pub previous_signature_header : Text
previous_signature_header = codes "X-StellarYield-Signature-Previous"

-- `now - rotated < windowMs`, where the clock may have gone back since
abbrev pub is_within_rotation_window : ℕ → Option ℕ → ℕ → Bool
is_within_rotation_window window_hours none now = false
is_within_rotation_window window_hours (some rotated) now =
    ltb now (rotated + window_hours * 60 * 60 * 1000)

-- null, or the empty text
abbrev pub non_empty : Option Text → Option Text
non_empty none = none
non_empty (some []) = none
non_empty (some (c ∷ s)) = some (c ∷ s)

module _ (sign : Text → Text) (window_hours : ℕ) where
  abbrev pub previous_header : Bool → Option Text → List (Text × Text)
  previous_header within none = []
  previous_header true (some secret) = (previous_signature_header, sign secret) ∷ []
  previous_header false (some secret) = []

  abbrev pub headers_for : Option Text → Webhook → ℕ → List (Text × Text)
  headers_for none w now = []
  headers_for (some secret) w now =
      (signature_header, sign secret)
      ∷ previous_header (is_within_rotation_window window_hours w.secret_rotated_at now)
          (non_empty w.previous_secret)

  -- The headers by which the payload is signed; `sign` gives its signature by a secret.
  abbrev pub build_signature_headers : Webhook → ℕ → List (Text × Text)
  build_signature_headers w now = headers_for (non_empty w.secret) w now
