-- ===== src/Indexer/Redemptions/Tests.antt =====
-- A request that is processed, and its fee.
use stellar_yield_contracts.Base.{
  ◌-◌, arith, ℕ, ◌+◌, ◌*◌, ◌≤◌, ◌<◌, ◌≡◌, refl, true, none, some, List, [], ◌∷◌, find,
}
use stellar_yield_contracts.Base.Int.{ℤ, pos, ◌*ℤ◌, ◌-ℤ◌, quot}
use stellar_yield_contracts.Indexer.Fixtures.{pool, start}
use stellar_yield_contracts.Indexer.Redemptions.{
  Redemption, RedemptionRequest, is_pending, is_request, new_request,
  handle_request_early_redemption, handle_early_redemption_processed,
}
use stellar_yield_contracts.Indexer.Redemptions.Settling.{
  by_process, by_cancel, settle_by, settle_by-final, handle_early_redemption_processed-fee,
}

-- Below 2 ^ 53 a number is rounded to itself.
abbrev exactly : ℤ → ℤ
exactly z = z

abbrev asked : RedemptionRequest
asked = record { user_address = 5; request_id = 3; shares = pos 10; timestamp = 40 }

abbrev pending : List Redemption
pending = new_request 1 asked ∷ []

request_recorded : handle_request_early_redemption 70 asked start [] ≡ pending
unfolding handle_request_early_redemption
request_recorded = refl

fee_recorded :
    handle_early_redemption_processed
      (λ z. z)
      70
      (record { request_id = 3; net_assets = pos 7 })
      start
      pending
    ≡ record (new_request 1 asked) { processed = true; fee_revenue = pos 2; gross_assets = pos 9 }
      ∷ []
unfolding handle_early_redemption_processed ◌*ℤ◌ ◌-ℤ◌ quot
fee_recorded = refl

settle_by-final_example :
    let settled = settle_by 70 3 (by_process exactly (pos 7)) start pending in
    (find (is_pending 1 3) settled ≡ none) × (settle_by 70 3 by_cancel start settled ≡ settled)
settle_by-final_example =
    settle_by-final 70 3 (by_process exactly (pos 7)) by_cancel start pool pending refl

handle_early_redemption_processed-fee_example :
    (gross : ℕ) × (find (is_request 1 5 40) (
        handle_early_redemption_processed exactly 70
          (record { request_id = 3; net_assets = pos 7 })
          start
          pending)
      ≡ some (record (new_request 1 asked) {
        processed = true;
        fee_revenue = pos (gross - 7);
        gross_assets = pos gross;
      }))
    × (gross * 100 ≤ 10 * 90)
    × (10 * 90 < gross * 100 + 100)
handle_early_redemption_processed-fee_example =
    handle_early_redemption_processed-fee exactly 70 3 90 99 10 7 start pool (new_request 1 asked)
      pending (λ z h. refl) refl refl refl refl refl refl (omega arith) (omega arith)
