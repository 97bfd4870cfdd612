-- ===== src/Indexer/Transfers.antt =====
-- backend/src/services/indexer.ts: the transfers of shares, the alerts on large ones, and the fees.
mod Alerts
mod Tests
use stellar_yield_contracts.Base.{
  ℕ, Bool, Option, none, some, List, [], ◌∷◌, ◌++◌, find, if◌then◌else◌,
}
use stellar_yield_contracts.Base.Int.{ℤ, ltb_ℤ}
use stellar_yield_contracts.Indexer.Store.{Vault, has_contract}

pub record Transfer : Type 0 where
  pub from_address : ℕ
  pub to_address : ℕ
  pub amount : ℤ

pub record TransferFee : Type 0 where
  pub from_address : ℕ
  pub to_address : ℕ
  pub fee_amount : ℤ

-- The fields of a raw event that these handlers read; `ledger` is none where it is no number.
pub record RawEvent : Type 0 where
  pub id : Option ℕ
  pub tx_hash : Option ℕ
  pub ledger : Option ℕ

-- A row of `transfers`.
pub record TransferRow : Type 0 where
  pub vault_id : Option ℕ
  pub from_address : ℕ
  pub to_address : ℕ
  pub amount : ℤ
  pub tx_hash : Option ℕ
  pub ledger : Option ℕ
  pub created_at : ℕ

-- A row of `transfer_alerts` of the type LARGE_TRANSFER; `threshold` is what its details add.
pub record TransferAlert : Type 0 where
  pub vault_id : Option ℕ
  pub contract_id : ℕ
  pub amount : ℤ
  pub from_address : ℕ
  pub to_address : ℕ
  pub tx_hash : Option ℕ
  pub threshold : ℤ
  pub created_at : ℕ

-- A row of `transfer_fees`.
pub record TransferFeeRow : Type 0 where
  pub contract_id : ℕ
  pub from_address : ℕ
  pub to_address : ℕ
  pub fee_amount : ℤ
  pub tx_hash : Option ℕ
  pub ledger : Option ℕ
  pub collected_at : ℕ

pub record TransferTables : Type 0 where
  pub vaults : List Vault
  pub transfers : List TransferRow
  pub transfer_alerts : List TransferAlert
  pub transfer_fees : List TransferFeeRow

-- `event.id ?? event.txHash ?? null`
abbrev pub hash_of : Option ℕ → Option ℕ → Option ℕ
hash_of (some id) tx_hash = some id
hash_of none tx_hash = tx_hash

abbrev id_of_vault : Option Vault → Option ℕ
id_of_vault none = none
id_of_vault (some v) = some v.id

abbrev pub find_vault_id : ℕ → List Vault → Option ℕ
find_vault_id contract vaults = id_of_vault (find (has_contract contract) vaults)

abbrev pub transfer_row : (now contract : ℕ) → Transfer → RawEvent → List Vault → TransferRow
transfer_row now contract t event vaults = record {
  vault_id = find_vault_id contract vaults;
  from_address = t.from_address;
  to_address = t.to_address;
  amount = t.amount;
  tx_hash = hash_of event.id event.tx_hash;
  ledger = event.ledger;
  created_at = now;
}

abbrev pub alert_row : (now contract : ℕ) → ℤ → Transfer → RawEvent → List Vault → TransferAlert
alert_row now contract threshold t event vaults = record {
  vault_id = find_vault_id contract vaults;
  contract_id = contract;
  amount = t.amount;
  from_address = t.from_address;
  to_address = t.to_address;
  tx_hash = hash_of event.id event.tx_hash;
  threshold = threshold;
  created_at = now;
}

-- The check of the threshold, which is none where BigInt refuses the configured text: the
-- exception is caught, and no alert is written.
abbrev pub check_large_transfer :
    (now contract : ℕ) → Option ℤ → Transfer → RawEvent → TransferTables → TransferTables
check_large_transfer now contract none t event s = s
check_large_transfer now contract (some threshold) t event s =
    if ltb_ℤ threshold t.amount
    then record s {
      transfer_alerts =
          s.transfer_alerts ++ (alert_row now contract threshold t event s.vaults ∷ []);
    }
    else s

abbrev pub insert_transfer :
    (now contract : ℕ) → Transfer → RawEvent → TransferTables → TransferTables
insert_transfer now contract t event s = record s {
  transfers = s.transfers ++ (transfer_row now contract t event s.vaults ∷ []);
}

unfoldable pub handle_transfer :
    (now contract : ℕ) → Option ℤ → Transfer → RawEvent → TransferTables → TransferTables
handle_transfer now contract threshold t event s =
    check_large_transfer now contract threshold t event (insert_transfer now contract t event s)

unfoldable pub handle_transfer_fee_collected :
    (now contract : ℕ) → TransferFee → RawEvent → TransferTables → TransferTables
handle_transfer_fee_collected now contract f event s = record s {
  transfer_fees =
      s.transfer_fees
      ++ (record {
        contract_id = contract;
        from_address = f.from_address;
        to_address = f.to_address;
        fee_amount = f.fee_amount;
        tx_hash = hash_of event.id event.tx_hash;
        ledger = event.ledger;
        collected_at = now;
      }
          ∷ []);
}
