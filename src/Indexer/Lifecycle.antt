-- ===== src/Indexer/Lifecycle.antt =====
-- The handlers of backend/src/services/indexer.ts for the life of a vault, with `upsertVault` of
-- backend/src/services/vault.ts. Of a vault's columns these are the ones that the other handlers use.
pub mod Settled
mod Tests
use stellar_yield_contracts.Base.{
  ℕ, Bool, true, false, Option, none, some, List, [], ◌∷◌, find, upsert, or_else,
}
use stellar_yield_contracts.Base.Int.{ℤ, pos}
use stellar_yield_contracts.Indexer.Store.{
  Store, Vault, VaultState, funding, active, matured, closed, cancelled, other, Settlement,
  not_started, complete, has_contract, update_vault,
}

-- The argument of `upsertVault`, each column with its default where the caller leaves it out.
pub record VaultUpsert : Type 0 where
  pub contract_id : ℕ
  pub state : VaultState
  pub total_assets : ℤ
  pub total_supply : ℤ
  pub funding_target : Option ℤ

-- The row that is inserted, with the defaults of the other columns; `id` is the next of the sequence.
abbrev pub new_vault : ℕ → VaultUpsert → Vault
new_vault id u = record {
  id = id;
  contract_id = u.contract_id;
  state = u.state;
  total_assets = u.total_assets;
  total_supply = u.total_supply;
  ever_minted = pos 0;
  ever_burned = pos 0;
  funding_target = u.funding_target;
  operator_fee_bps = pos 0;
  settlement_status = none;
  supply_at_maturity = none;
  archived = false;
  paused = false;
}

abbrev first_given : Option ℤ → Option ℤ → Option ℤ
first_given none old = old
first_given (some new) old = some new

-- DO UPDATE SET …
abbrev pub overwrite : VaultUpsert → Vault → Vault
overwrite u v = record v {
  state = u.state;
  total_assets = u.total_assets;
  total_supply = u.total_supply;
  funding_target = first_given u.funding_target v.funding_target;
}

-- `upsertVault`
unfoldable pub upsert_vault : ℕ → VaultUpsert → Store → Store
upsert_vault id u s = record s {
  vaults = upsert (has_contract u.contract_id) (new_vault id u) (overwrite u) s.vaults;
}

-- `handleVaultCreated`: the row; the set of watched contracts and the audit entry are left out.
unfoldable pub handle_vault_created : ℕ → ℕ → Option ℤ → Store → Store
unfolding upsert_vault
handle_vault_created id c funding_target s =
    upsert_vault id
      (record {
        contract_id = c;
        state = funding;
        total_assets = pos 0;
        total_supply = pos 0;
        funding_target = funding_target;
      })
      s

-- `handleCancelFunding`
unfoldable pub handle_cancel_funding : ℕ → ℕ → Store → Store
unfolding upsert_vault
handle_cancel_funding id c s =
    upsert_vault id
      (record {
        contract_id = c;
        state = cancelled;
        total_assets = pos 0;
        total_supply = pos 0;
        funding_target = none;
      })
      s

-- The three statements of `handleVaultStateChanged`.
abbrev pub enter_state : VaultState → Vault → Vault
enter_state matured v = record v {
  state = matured;
  settlement_status = some not_started;
  supply_at_maturity = some v.total_supply;
}
enter_state closed v = record v { state = closed; settlement_status = some complete }
enter_state new_state v = record v { state = new_state }

abbrev change_state : ℕ → Option VaultState → Store → Store
change_state c none s = s
change_state c (some new_state) s = update_vault c (enter_state new_state) s

-- `handleVaultStateChanged`; none for an empty `newState`
unfoldable pub handle_vault_state_changed : ℕ → Option VaultState → Store → Store
handle_vault_state_changed c new_state s = change_state c new_state s

-- `handleVaultRemoved`
unfoldable pub handle_vault_removed : ℕ → Store → Store
handle_vault_removed c s = update_vault c (λ v. record v { archived = true }) s

-- `handlePauseState`
unfoldable pub handle_pause_state : ℕ → Bool → Store → Store
handle_pause_state c paused s = update_vault c (λ v. record v { paused = paused }) s
