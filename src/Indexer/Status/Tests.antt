-- ===== src/Indexer/Status/Tests.antt =====
-- A vault that is switched off, changes its manager, and is switched on again.
use stellar_yield_contracts.Base.{ℕ, refl, none, some, List, [], ◌∷◌}
use stellar_yield_contracts.Indexer.Status.{
  StatusVault, StatusTables, ChangeEvent, handle_vault_status_changed, handle_vault_manager_changed,
}
use stellar_yield_contracts.Indexer.Status.Trail.{
  StatusEvent, status_set, manager_set, after_status, AllNew, HasTrail, after_status-HasTrail,
}

abbrev vault : StatusVault
vault = record { contract_id = 7; status = 1; manager_address = none }

abbrev tables : StatusTables
tables = record { vaults = vault ∷ []; history = [] }

abbrev at : ℕ → ChangeEvent
at ledger = record { id = none; tx_hash = some 3; ledger = some ledger; ledger_closed_at = none }

abbrev changes : List StatusEvent
changes =
    status_set 10 7 0 (at 1)
    ∷ manager_set 11 7 none 4 (at 2)
    ∷ status_set 12 8 0 (at 2)
    ∷ status_set 13 7 1 (at 3)
    ∷ []

changes-AllNew : AllNew changes tables
unfolding handle_vault_status_changed handle_vault_manager_changed
changes-AllNew = (refl, (tt, (refl, (refl, tt))))

after_status-HasTrail_example : HasTrail 7 1 (after_status changes tables)
after_status-HasTrail_example =
    after_status-HasTrail 7 1 changes tables changes-AllNew (vault, refl, refl)
