-- ===== src/Indexer/Settings/Tests.antt =====
-- Two changes of the whitelist, with a change of the fee between them.
use stellar_yield_contracts.Base.{ℕ, ◌≡◌, none, List, [], ◌∷◌}
use stellar_yield_contracts.Base.Int.{pos}
use stellar_yield_contracts.Indexer.Settings.{SettingsTables, WhitelistRow}
use stellar_yield_contracts.Indexer.Settings.Replay.{
  SettingsEvent, fee_updated, whitelist_updated, after_settings, after_settings-replay,
}

abbrev tables : SettingsTables
tables = record {
  vaults =
      record {
        id = 1;
        contract_id = 7;
        operator_fee_bps = pos 100;
        pause_reason = none;
        minimum_deposit = pos 0;
        zkme_verifier_address = none;
      }
      ∷ [];
  fee_history = [];
  minimum_history = [];
  redemption_queue = [];
  whitelist_events = [];
}

abbrev listed : ℕ → WhitelistRow
listed action = record { contract_id = 7; address = 5; action = action; tx_hash = 3; ledger = 40 }

abbrev events : List SettingsEvent
events =
    whitelist_updated (listed 0)
    ∷ fee_updated 9 7 2 (pos 100) (pos 50)
    ∷ whitelist_updated (listed 1)
    ∷ []

after_settings-replay_example :
    (after_settings events (after_settings events tables)).whitelist_events
    ≡ (after_settings events tables).whitelist_events
after_settings-replay_example = after_settings-replay events tables
