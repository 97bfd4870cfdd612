-- ===== src/Indexer/Transfers/Tests.antt =====
-- A small transfer, a large one and a fee.
use stellar_yield_contracts.Base.{◌≡◌, none, some, List, [], ◌∷◌, ◌++◌}
use stellar_yield_contracts.Base.Int.{pos}
use stellar_yield_contracts.Indexer.Fixtures.{pool}
use stellar_yield_contracts.Indexer.Transfers.{RawEvent, TransferTables}
use stellar_yield_contracts.Indexer.Transfers.Alerts.{
  TransferEvent, transferred, fee_collected, after_transfers, rows_of, alerts_of,
  after_transfers-rows,
}

abbrev event : RawEvent
event = record { id = none; tx_hash = some 9; ledger = some 4 }

abbrev events : List TransferEvent
events =
    transferred 1 70 (record { from_address = 5; to_address = 6; amount = pos 20 }) event
    ∷ transferred 2 70 (record { from_address = 6; to_address = 5; amount = pos 200 }) event
    ∷ fee_collected 3 71 (record { from_address = 6; to_address = 5; fee_amount = pos 2 }) event
    ∷ []

abbrev empty : TransferTables
empty = record { vaults = pool ∷ []; transfers = []; transfer_alerts = []; transfer_fees = [] }

after_transfers-rows_example :
    ((after_transfers (some (pos 100)) events empty).transfers ≡ [] ++ rows_of (pool ∷ []) events)
    × ((after_transfers (some (pos 100)) events empty).transfer_alerts
        ≡ [] ++ alerts_of (pool ∷ []) (pos 100) events)
after_transfers-rows_example = after_transfers-rows (pos 100) events empty
