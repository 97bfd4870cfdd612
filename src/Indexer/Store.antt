-- ===== src/Indexer/Store.antt =====
-- The tables that the indexer writes, as far as its handlers read or change them, with the
-- notifications that it has sent. Contract ids, addresses, hashes and roles are only compared, so
-- they are numbers; a NUMERIC column and a bigint are a ℤ; NOW() is an argument of the handlers.
use stellar_yield_contracts.Base.{
  ℕ, Bool, ◌&&◌, Option, none, some, List, [], ◌∷◌, ◌++◌, ◌==◌, find, update_where,
}
use stellar_yield_contracts.Base.Int.{ℤ}

-- `vaults.state`, a string in the source; it names these five.
pub data VaultState : Type 0 where
  funding active matured closed cancelled : VaultState
  other : ℕ → VaultState

-- `vaults.settlement_status`
pub data Settlement : Type 0 where
  not_started in_progress complete : Settlement

-- A row of `vaults`.
pub record Vault : Type 0 where
  pub id : ℕ
  pub contract_id : ℕ
  pub state : VaultState
  pub total_assets : ℤ
  pub total_supply : ℤ
  pub ever_minted : ℤ
  pub ever_burned : ℤ
  pub funding_target : Option ℤ
  pub operator_fee_bps : ℤ
  pub settlement_status : Option Settlement
  pub supply_at_maturity : Option ℤ
  pub archived : Bool
  pub paused : Bool

-- A row of `user_vault_positions`.
pub record Position : Type 0 where
  pub user_address : ℕ
  pub vault_id : ℕ
  pub shares : ℤ
  pub deposited : ℤ
  pub last_claimed_epoch : ℕ
  pub first_entry_at : Option ℕ
  pub last_exit_at : Option ℕ

-- A row of `epochs`.
pub record Epoch : Type 0 where
  pub vault_id : ℕ
  pub epoch : ℕ
  pub yield_amount : ℤ
  pub total_shares : ℤ
  pub closed_at : Option ℕ

-- A row of `share_balance_snapshots`.
pub record Snapshot : Type 0 where
  pub vault_id : ℕ
  pub user_address : ℕ
  pub epoch : ℕ
  pub shares : ℤ
  pub cumulative_yield_claimed : ℤ

-- A row of `vault_tvl_snapshots`.
pub record TvlSnapshot : Type 0 where
  pub vault_id : ℕ
  pub total_assets : ℤ
  pub total_supply : ℤ

-- What the indexer hands to the notification service, and broadcasts.
pub data Notice : Type 0 where
  vault_funded : (contract_id : ℕ) → (total_assets funding_target : ℤ) → Notice
  fee_earned : (contract_id epoch : ℕ) → (operator_fee net_yield : ℤ) → Notice
  epoch_recorded : (contract_id epoch : ℕ) → (yield_amount : ℤ) → Notice
  epoch_closed : (contract_id epoch : ℕ) → (yield_amount : ℤ) → Notice
  user_deposit : (contract_id receiver : ℕ) → (new_shares : ℤ) → Notice
  user_withdraw : (contract_id owner : ℕ) → (remaining_shares : ℤ) → Notice
  yield_distributed : (epoch : ℕ) → (amount : ℤ) → Notice
  position_update : (user_address contract_id : ℕ) → (shares deposited : ℤ) → Notice

-- A row of `indexed_events`: the columns that its key and the queries read. A claim's row carries
-- the claim's epoch and amount in its payload.
pub record IndexedEvent : Type 0 where
  pub ledger : ℕ
  pub tx_hash : ℕ
  pub contract_id : ℕ
  pub event_type : ℕ
  pub tx_index : Option ℕ
  pub event_index : ℕ
  pub claim : Option (ℕ × ℤ)

pub record Store : Type 0 where
  pub vaults : List Vault
  pub positions : List Position
  pub epochs : List Epoch
  pub snapshots : List Snapshot
  pub tvl_snapshots : List TvlSnapshot
  pub indexed_events : List IndexedEvent
  pub notices : List Notice

-- WHERE contract_id = $1
abbrev pub has_contract : ℕ → Vault → Bool
has_contract c v = v.contract_id == c

-- The one row of `vaults` with that contract id: the column is UNIQUE.
abbrev pub vault_of : ℕ → Store → Option Vault
vault_of c s = find (has_contract c) s.vaults

-- UPDATE vaults SET … WHERE contract_id = $1
abbrev pub update_vault : ℕ → (Vault → Vault) → Store → Store
update_vault c f s = record s { vaults = update_where (has_contract c) f s.vaults }

-- WHERE user_address = $1 AND vault_id = $2: the key of `user_vault_positions`
abbrev pub is_position : ℕ → ℕ → Position → Bool
is_position user vault p = p.user_address == user && p.vault_id == vault

abbrev pub position_of : ℕ → ℕ → Store → Option Position
position_of user vault s = find (is_position user vault) s.positions

abbrev pub notify : Notice → Store → Store
notify n s = record s { notices = s.notices ++ n ∷ [] }

abbrev pub record_tvl : Option Vault → Store → Store
record_tvl none s = s
record_tvl (some v) s = record s {
  tvl_snapshots =
      s.tvl_snapshots
      ++ record { vault_id = v.id; total_assets = v.total_assets; total_supply = v.total_supply }
        ∷ [];
}

-- `recordTvlSnapshot`
unfoldable pub record_tvl_snapshot : ℕ → Store → Store
record_tvl_snapshot c s = record_tvl (vault_of c s) s
