-- ===== src/Indexer/Fixtures.antt =====
-- A small database for the tests: one matured vault just below its funding target, and a holder.
use stellar_yield_contracts.Base.{false, none, some, [], ◌∷◌}
use stellar_yield_contracts.Base.Int.{pos}
use stellar_yield_contracts.Indexer.Store.{Store, Vault, Position, matured}

abbrev pub pool : Vault
pool = record {
  id = 1;
  contract_id = 70;
  state = matured;
  total_assets = pos 90;
  total_supply = pos 100;
  ever_minted = pos 10;
  ever_burned = pos 0;
  funding_target = some (pos 100);
  operator_fee_bps = pos 250;
  settlement_status = none;
  supply_at_maturity = none;
  archived = false;
  paused = false;
}

abbrev pub alice : Position
alice = record {
  user_address = 5;
  vault_id = 1;
  shares = pos 10;
  deposited = pos 10;
  last_claimed_epoch = 0;
  first_entry_at = some 3;
  last_exit_at = none;
}

abbrev pub start : Store
start = record {
  vaults = pool ∷ [];
  positions = alice ∷ [];
  epochs = [];
  snapshots = [];
  tvl_snapshots = [];
  indexed_events = [];
  notices = [];
}
