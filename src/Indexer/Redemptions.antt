-- ===== src/Indexer/Redemptions.antt =====
-- The early redemption handlers of backend/src/services/indexer.ts over the table
-- `redemption_requests`. The fee and the gross assets are JavaScript numbers in the source: an argument
-- `number` says to which number an integer is rounded, as `Number` does of a bigint and as the
-- difference of two numbers is.
pub mod Settling
mod Tests
use stellar_yield_contracts.Base.{
  ℕ, Bool, true, false, ◌&&◌, not, Option, none, some, List, [], ◌∷◌, ◌==◌, if◌then◌else◌, find,
  update_where, upsert,
}
use stellar_yield_contracts.Base.Int.{ℤ, pos, ◌-ℤ◌, ◌*ℤ◌, quot, ltb_ℤ, greatest_zero}
use stellar_yield_contracts.Indexer.Store.{Store, Vault, vault_of}

-- A row of `redemption_requests`.
pub record Redemption : Type 0 where
  pub vault_id : ℕ
  pub user_address : ℕ
  pub shares : ℤ
  pub request_id : ℕ
  pub request_time : ℕ
  pub processed : Bool
  pub fee_revenue : ℤ
  pub gross_assets : ℤ

-- The arguments that the parsers hand over.
pub record RedemptionRequest : Type 0 where
  pub user_address : ℕ
  pub request_id : ℕ
  pub shares : ℤ
  pub timestamp : ℕ

pub record RedemptionProcessed : Type 0 where
  pub request_id : ℕ
  pub net_assets : ℤ

-- The table's key, which the request's statement names.
abbrev pub is_request : ℕ → ℕ → ℕ → Redemption → Bool
is_request vault user time r =
    r.vault_id == vault && (r.user_address == user && r.request_time == time)

-- WHERE vault_id = $1 AND request_id = $2 AND processed = FALSE
abbrev pub is_pending : ℕ → ℕ → Redemption → Bool
is_pending vault request r = r.vault_id == vault && (r.request_id == request && not r.processed)

abbrev pub new_request : ℕ → RedemptionRequest → Redemption
new_request vault q = record {
  vault_id = vault;
  user_address = q.user_address;
  shares = q.shares;
  request_id = q.request_id;
  request_time = q.timestamp;
  processed = false;
  fee_revenue = pos 0;
  gross_assets = pos 0;
}

abbrev request_for : RedemptionRequest → Option Vault → List Redemption → List Redemption
request_for q none rs = rs
request_for q (some v) rs =
    upsert (is_request v.id q.user_address q.timestamp) (new_request v.id q)
      (λ r. record r { request_id = q.request_id }) rs

-- `handleRequestEarlyRedemption`
unfoldable pub handle_request_early_redemption :
    ℕ → RedemptionRequest → Store → List Redemption → List Redemption
handle_request_early_redemption c q s rs = request_for q (vault_of c s) rs

-- The assets behind the shares at the vault's rate, one for one when it has no supply.
unfoldable pub gross_assets_of : Vault → ℤ → ℤ
gross_assets_of v shares =
    if ltb_ℤ (pos 0) v.total_supply then quot (shares *ℤ v.total_assets) v.total_supply else shares

abbrev pub gross_of : Vault → Option Redemption → ℤ
gross_of v none = pos 0
gross_of v (some r) = gross_assets_of v r.shares

-- `grossAssets = Number(gross)`
abbrev pub gross_number : (ℤ → ℤ) → ℤ → Option Redemption → ℤ
gross_number number gross none = pos 0
gross_number number gross (some r) = number gross

abbrev pub fee_of : (ℤ → ℤ) → ℤ → ℤ → Option Redemption → ℤ
fee_of number gross_assets net none = pos 0
fee_of number gross_assets net (some r) = greatest_zero (number (gross_assets -ℤ number net))

abbrev pub settle_request : ℤ → ℤ → Redemption → Redemption
settle_request fee gross r = record r { processed = true; fee_revenue = fee; gross_assets = gross }

abbrev process_for :
    (ℤ → ℤ) → RedemptionProcessed → Option Vault → List Redemption → List Redemption
process_for number e none rs = rs
process_for number e (some v) rs =
    let request = find (is_pending v.id e.request_id) rs in
    let gross_assets = gross_number number (gross_of v request) request in
    update_where (is_pending v.id e.request_id)
      (settle_request (fee_of number gross_assets e.net_assets request) gross_assets) rs

-- `handleEarlyRedemptionProcessed`
unfoldable pub handle_early_redemption_processed :
    (ℤ → ℤ) → ℕ → RedemptionProcessed → Store → List Redemption → List Redemption
unfolding gross_assets_of
handle_early_redemption_processed number c e s rs = process_for number e (vault_of c s) rs

abbrev pub cancel_request : Redemption → Redemption
cancel_request r = record r { processed = true }

abbrev cancel_for : ℕ → Option Vault → List Redemption → List Redemption
cancel_for request none rs = rs
cancel_for request (some v) rs = update_where (is_pending v.id request) cancel_request rs

-- `handleEarlyRedemptionCancelled`
unfoldable pub handle_early_redemption_cancelled : ℕ → ℕ → Store → List Redemption → List Redemption
handle_early_redemption_cancelled c request s rs = cancel_for request (vault_of c s) rs
