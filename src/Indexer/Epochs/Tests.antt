-- ===== src/Indexer/Epochs/Tests.antt =====
-- Runs of the distribution and claim handlers on the small database of the fixtures.
use stellar_yield_contracts.Base.{
  if◌then◌else◌, is_some, find, ℕ, ◌+◌, ◌*◌, ◌≤◌, ◌<◌, ◌≡◌, refl, none, some, List, [], ◌∷◌, ◌++◌,
  arith,
}
use stellar_yield_contracts.Base.Int.{pos, ◌+ℤ◌, ◌-ℤ◌, ◌*ℤ◌, quot}
use stellar_yield_contracts.Indexer.Store.{Store, Epoch, fee_earned, epoch_recorded}
use stellar_yield_contracts.Indexer.Fixtures.{pool, start}
use stellar_yield_contracts.Indexer.Epochs.{
  has_position, YieldDistributed, YieldClaimed, split_fee, handle_yield_distributed,
  handle_yield_claimed, process_claim, claimed_amount,
}
use stellar_yield_contracts.Indexer.Epochs.Fees.{split_fee_exact}
use stellar_yield_contracts.Indexer.Epochs.Replay.{handle_yield_distributed-replay}
use stellar_yield_contracts.Indexer.Epochs.Closing.{
  ClosesOnce, ClaimEvent, process_claims, process_claims-ClosesOnce,
}
use stellar_yield_contracts.Indexer.Epochs.Claims.{process_claim-epochs}

abbrev payout : YieldDistributed
payout = record { epoch = 1; amount = pos 1000 }

abbrev row_one : Epoch
row_one = record {
  vault_id = 1;
  epoch = 1;
  yield_amount = pos 1000;
  total_shares = pos 100;
  closed_at = none;
}

abbrev paid : Store
paid = record start { epochs = row_one ∷ [] }

abbrev take_all : YieldClaimed
take_all = record { user = 5; epoch = 1; amount = pos 1000 }

fee_rounds_down :
    split_fee (pos 999) (pos 250) ≡ record { net_yield = pos 975; operator_fee = pos 24 }
unfolding split_fee quot ◌*ℤ◌ ◌-ℤ◌
fee_rounds_down = refl

split_fee_exact_example :
    (fee net : ℕ) × (split_fee (pos 999) (pos 250)
      ≡ record { net_yield = pos net; operator_fee = pos fee })
    × (fee + net ≡ 999)
    × (fee * 10000 ≤ 999 * 250)
    × (999 * 250 < fee * 10000 + 10000)
split_fee_exact_example = split_fee_exact 999 250 (omega arith)

handle_yield_distributed-replay_example :
    let once = (handle_yield_distributed 70 payout start).1 in
    let twice = (handle_yield_distributed 70 payout once).1 in
    let fees = split_fee (pos 1000) (pos 250) in
    (twice.epochs ≡ once.epochs)
    × (twice.snapshots ≡ once.snapshots)
    × (twice.vaults ≡ once.vaults)
    × (twice.positions ≡ once.positions)
    × (twice.notices
        ≡ (once.notices ++ fee_earned 70 1 fees.operator_fee fees.net_yield ∷ [])
          ++ epoch_recorded 70 1 (pos 1000) ∷ [])
handle_yield_distributed-replay_example = handle_yield_distributed-replay 70 payout start pool refl

abbrev claims : List ClaimEvent
claims =
    record { now = 9; ledger = 40; tx_hash = 1; event_type = 0; claimed = take_all }
    ∷ record { now = 10; ledger = 41; tx_hash = 2; event_type = 0; claimed = take_all }
    ∷ record { now = 11; ledger = 42; tx_hash = 3; event_type = 0; claimed = take_all }
    ∷ []

second_claim_closes :
    (process_claims 70 claims paid).epochs ≡ record row_one { closed_at = some 10 } ∷ []
unfolding process_claims process_claim handle_yield_claimed ◌+ℤ◌
second_claim_closes = refl

process_claims-ClosesOnce_example : ClosesOnce 70 1 1 row_one paid (process_claims 70 claims paid)
process_claims-ClosesOnce_example =
    process_claims-ClosesOnce 70 1 claims paid pool row_one refl refl

process_claim-epochs_example :
    let t = process_claim 9 70 40 1 0 take_all paid in
    (t.epochs ≡ paid.epochs)
    × (claimed_amount 70 1 t.indexed_events ≡ (
        if is_some (find (has_position 70 40 0 0) paid.indexed_events)
        then claimed_amount 70 1 paid.indexed_events
        else claimed_amount 70 1 paid.indexed_events +ℤ pos 1000))
unfolding claimed_amount
process_claim-epochs_example =
    process_claim-epochs 9 70 40 1 0 take_all paid pool row_one refl refl refl
