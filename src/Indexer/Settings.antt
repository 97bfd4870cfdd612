-- ===== src/Indexer/Settings.antt =====
-- backend/src/services/indexer.ts: the settings of a vault, with their histories, its whitelist and
-- its redemption queue.
mod Replay
mod Tests
use stellar_yield_contracts.Base.{
  ℕ, Bool, true, false, ◌&&◌, Option, none, some, List, [], ◌∷◌, ◌++◌, ◌==◌, find, update_where,
  upsert, insert_new, if◌then◌else◌,
}
use stellar_yield_contracts.Base.Int.{ℤ}

-- What these handlers read and change of a row of `vaults`; texts that are only stored are numbers.
pub record SettingsVault : Type 0 where
  pub id : ℕ
  pub contract_id : ℕ
  pub operator_fee_bps : ℤ
  pub pause_reason : Option ℕ
  pub minimum_deposit : ℤ
  pub zkme_verifier_address : Option ℕ

-- A row of `vault_fee_history`.
pub record FeeChange : Type 0 where
  pub vault_id : ℕ
  pub old_fee_bps : ℤ
  pub new_fee_bps : ℤ
  pub changed_by : ℕ
  pub recorded_at : ℕ

-- A row of `minimum_deposit_history`.
pub record MinimumChange : Type 0 where
  pub contract_id : ℕ
  pub old_minimum : ℤ
  pub new_minimum : ℤ
  pub changed_by : ℕ
  pub recorded_at : ℕ

-- A row of `redemption_queue`, whose key is the contract and the address.
pub record QueueEntry : Type 0 where
  pub contract_id : ℕ
  pub address : ℕ
  pub amount : ℤ
  pub position : ℤ
  pub status : ℕ

-- A row of `whitelist_events`, all of whose fields make its key.
pub record WhitelistRow : Type 0 where
  pub contract_id : ℕ
  pub address : ℕ
  pub action : ℕ
  pub tx_hash : ℕ
  pub ledger : ℕ

pub record SettingsTables : Type 0 where
  pub vaults : List SettingsVault
  pub fee_history : List FeeChange
  pub minimum_history : List MinimumChange
  pub redemption_queue : List QueueEntry
  pub whitelist_events : List WhitelistRow

abbrev pub is_contract : ℕ → SettingsVault → Bool
is_contract contract v = v.contract_id == contract

abbrev has_vault_id : ℕ → SettingsVault → Bool
has_vault_id id v = v.id == id

abbrev pub change_fee :
    (now caller : ℕ)
    → (old_fee new_fee : ℤ) → Option SettingsVault
    → SettingsTables
    → SettingsTables
change_fee now caller old_fee new_fee none s = s
change_fee now caller old_fee new_fee (some v) s = record s {
  vaults = update_where (has_vault_id v.id) (λ w. record w { operator_fee_bps = new_fee }) s.vaults;
  fee_history =
      s.fee_history
      ++ (record {
        vault_id = v.id;
        old_fee_bps = old_fee;
        new_fee_bps = new_fee;
        changed_by = caller;
        recorded_at = now;
      }
          ∷ []);
}

unfoldable pub handle_operator_fee_updated :
    (now contract caller : ℕ) → (old_fee new_fee : ℤ) → SettingsTables → SettingsTables
handle_operator_fee_updated now contract caller old_fee new_fee s =
    change_fee now caller old_fee new_fee (find (is_contract contract) s.vaults) s

-- `ev.reason || null`: none stands for the empty reason too
unfoldable pub handle_pause_reason_set :
    (contract : ℕ) → (reason : Option ℕ) → SettingsTables → SettingsTables
handle_pause_reason_set contract reason s = record s {
  vaults = update_where (is_contract contract) (λ w. record w { pause_reason = reason }) s.vaults;
}

abbrev is_queued : ℕ → ℕ → QueueEntry → Bool
is_queued contract address q = q.contract_id == contract && q.address == address

unfoldable pub handle_redemption_queue_updated :
    (contract address : ℕ) → (amount position : ℤ) → (status : ℕ) → SettingsTables → SettingsTables
handle_redemption_queue_updated contract address amount position status s = record s {
  redemption_queue =
      upsert (is_queued contract address)
        (record {
          contract_id = contract;
          address = address;
          amount = amount;
          position = position;
          status = status;
        })
        (λ q. record q { amount = amount; position = position; status = status })
        s.redemption_queue;
}

unfoldable pub handle_minimum_deposit_updated :
    (now contract caller : ℕ) → (old_minimum new_minimum : ℤ) → SettingsTables → SettingsTables
handle_minimum_deposit_updated now contract caller old_minimum new_minimum s = record s {
  vaults =
      update_where (is_contract contract) (λ w. record w { minimum_deposit = new_minimum })
        s.vaults;
  minimum_history =
      s.minimum_history
      ++ (record {
        contract_id = contract;
        old_minimum = old_minimum;
        new_minimum = new_minimum;
        changed_by = caller;
        recorded_at = now;
      }
          ∷ []);
}

abbrev pub same_whitelist_row : WhitelistRow → WhitelistRow → Bool
same_whitelist_row r q =
    q.contract_id == r.contract_id
    && q.tx_hash == r.tx_hash
    && q.ledger == r.ledger
    && q.address == r.address
    && q.action == r.action

-- 0 stands for the empty contract id, with which an event is dropped.
unfoldable pub handle_whitelist_updated : WhitelistRow → SettingsTables → SettingsTables
handle_whitelist_updated r s =
    if r.contract_id == 0
    then s
    else record s { whitelist_events = insert_new (same_whitelist_row r) r s.whitelist_events }

unfoldable pub handle_zkme_verifier_updated :
    (contract new_verifier : ℕ) → SettingsTables → SettingsTables
handle_zkme_verifier_updated contract new_verifier s = record s {
  vaults =
      update_where (is_contract contract)
        (λ w. record w { zkme_verifier_address = some new_verifier }) s.vaults;
}
