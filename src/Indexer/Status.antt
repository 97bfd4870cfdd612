-- ===== src/Indexer/Status.antt =====
-- backend/src/services/indexer.ts: the status and the manager of a vault, and the history of both.
mod Trail
mod Tests
use stellar_yield_contracts.Base.{
  ℕ, Bool, true, false, ◌&&◌, Option, none, some, List, or_else, ◌==◌, find, update_where,
  insert_new,
}

-- What these handlers read and change of a row of `vaults`; a status is a number.
pub record StatusVault : Type 0 where
  pub contract_id : ℕ
  pub status : ℕ
  pub manager_address : Option ℕ

pub data ChangeType : Type 0 where
  status_changed manager_changed : ChangeType

-- A row of `vault_status_history`.
pub record HistoryRow : Type 0 where
  pub contract_id : ℕ
  pub event_type : ChangeType
  pub previous_status : Option ℕ
  pub new_status : Option ℕ
  pub previous_manager : Option ℕ
  pub new_manager : Option ℕ
  pub changed_at : ℕ
  pub tx_hash : ℕ
  pub ledger : ℕ

pub record StatusTables : Type 0 where
  pub vaults : List StatusVault
  pub history : List HistoryRow

-- A raw event; `ledger_closed_at` is none where it is no date.
pub record ChangeEvent : Type 0 where
  pub id : Option ℕ
  pub tx_hash : Option ℕ
  pub ledger : Option ℕ
  pub ledger_closed_at : Option ℕ

-- The closing time of the ledger, or else the present time.
abbrev pub event_changed_at : ℕ → ChangeEvent → ℕ
event_changed_at now e = or_else e.ledger_closed_at now

-- `rawEvent.txHash ?? rawEvent.id ?? ""`, where 0 stands for the empty text
abbrev pub change_hash : ChangeEvent → ℕ
change_hash e = or_else e.tx_hash (or_else e.id 0)

abbrev pub change_ledger : ChangeEvent → ℕ
change_ledger e = or_else e.ledger 0

abbrev pub is_change_type : ChangeType → ChangeType → Bool
is_change_type status_changed status_changed = true
is_change_type status_changed manager_changed = false
is_change_type manager_changed status_changed = false
is_change_type manager_changed manager_changed = true

-- The unique key of the history.
abbrev pub is_change : ℕ → ChangeType → (tx_hash ledger : ℕ) → HistoryRow → Bool
is_change vault t tx_hash ledger r =
    r.contract_id == vault
    && is_change_type r.event_type t
    && r.tx_hash == tx_hash
    && r.ledger == ledger

abbrev pub has_address : ℕ → StatusVault → Bool
has_address contract v = v.contract_id == contract

-- `prev[0]?.status ?? null`
abbrev pub status_of : Option StatusVault → Option ℕ
status_of none = none
status_of (some v) = some v.status

-- `prev[0]?.manager_address ?? null`
abbrev manager_of : Option StatusVault → Option ℕ
manager_of none = none
manager_of (some v) = v.manager_address

-- `ev.oldManager ?? prev[0]?.manager_address ?? null`
abbrev first_manager : Option ℕ → Option ℕ → Option ℕ
first_manager (some old) stored = some old
first_manager none stored = stored

abbrev pub status_row : (now vault status : ℕ) → Option ℕ → ChangeEvent → HistoryRow
status_row now vault status previous e = record {
  contract_id = vault;
  event_type = status_changed;
  previous_status = previous;
  new_status = some status;
  previous_manager = none;
  new_manager = none;
  changed_at = event_changed_at now e;
  tx_hash = change_hash e;
  ledger = change_ledger e;
}

abbrev pub set_status : ℕ → StatusVault → StatusVault
set_status status v = record v { status = status }

-- The tables, and the previous status.
unfoldable pub handle_vault_status_changed :
    (now vault status : ℕ) → ChangeEvent → StatusTables → StatusTables × Option ℕ
handle_vault_status_changed now vault status e s =
    let previous = status_of (find (has_address vault) s.vaults) in
    (
      record {
        vaults = update_where (has_address vault) (set_status status) s.vaults;
        history =
            insert_new (is_change vault status_changed (change_hash e) (change_ledger e))
              (status_row now vault status previous e) s.history;
      },
      previous,
    )

abbrev pub manager_row :
    (now vault : ℕ) → (previous : Option ℕ) → (new_manager : ℕ) → ChangeEvent → HistoryRow
manager_row now vault previous new_manager e = record {
  contract_id = vault;
  event_type = manager_changed;
  previous_status = none;
  new_status = none;
  previous_manager = previous;
  new_manager = some new_manager;
  changed_at = event_changed_at now e;
  tx_hash = change_hash e;
  ledger = change_ledger e;
}

abbrev pub set_manager : ℕ → StatusVault → StatusVault
set_manager manager v = record v { manager_address = some manager }

unfoldable pub handle_vault_manager_changed :
    (now vault : ℕ)
    → (old_manager : Option ℕ) → (new_manager : ℕ) → ChangeEvent
    → StatusTables
    → StatusTables × Option ℕ
handle_vault_manager_changed now vault old_manager new_manager e s =
    let previous = first_manager old_manager (manager_of (find (has_address vault) s.vaults)) in
    (
      record {
        vaults = update_where (has_address vault) (set_manager new_manager) s.vaults;
        history =
            insert_new (is_change vault manager_changed (change_hash e) (change_ledger e))
              (manager_row now vault previous new_manager e) s.history;
      },
      previous,
    )
