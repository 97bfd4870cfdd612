-- ===== src/Indexer/Epochs.antt =====
-- `handleYieldDistributed` and `handleYieldClaimed` of backend/src/services/indexer.ts, with
-- `getEpochClaimStats` and `closeEpochIfFullyClaimed` of backend/src/services/yield.ts, which a
-- claim calls.
pub mod Fees
pub mod Replay
pub mod Claims
pub mod Closing
mod Tests
use stellar_yield_contracts.Base.{
  ℕ, ◌+◌, Bool, true, false, ◌&&◌, ◌||◌, not, Option, none, some, List, [], ◌∷◌, ◌++◌, ltb, leb,
  ◌==◌, if◌then◌else◌, find, update_where, insert_new, is_some, or_else, max,
}
use stellar_yield_contracts.Base.Int.{ℤ, pos, ◌+ℤ◌, ◌-ℤ◌, ◌*ℤ◌, quot, ltb_ℤ, leb_ℤ}
use stellar_yield_contracts.Indexer.Store.{
  Store, Vault, Position, Epoch, Snapshot, IndexedEvent, Notice, fee_earned, epoch_recorded,
  epoch_closed, vault_of, is_position, notify, record_tvl_snapshot,
}

-- The arguments that the parsers hand over.
pub record YieldDistributed : Type 0 where
  pub epoch : ℕ
  pub amount : ℤ

pub record YieldClaimed : Type 0 where
  pub user : ℕ
  pub epoch : ℕ
  pub amount : ℤ

-- The split that `handleYieldDistributed` returns.
pub record FeeSplit : Type 0 where
  pub net_yield : ℤ
  pub operator_fee : ℤ

unfoldable pub split_fee : ℤ → ℤ → FeeSplit
split_fee gross bps =
    let fee = quot (gross *ℤ bps) (pos 10000) in
    record { net_yield = gross -ℤ fee; operator_fee = fee }

-- The key of `epochs`.
abbrev pub is_epoch : ℕ → ℕ → Epoch → Bool
is_epoch vault epoch e = e.vault_id == vault && e.epoch == epoch

abbrev pub epoch_of : ℕ → ℕ → Store → Option Epoch
epoch_of vault epoch s = find (is_epoch vault epoch) s.epochs

-- The key of `share_balance_snapshots`.
abbrev pub is_snapshot : ℕ → ℕ → ℕ → Snapshot → Bool
is_snapshot user vault epoch r = r.user_address == user && (r.vault_id == vault && r.epoch == epoch)

abbrev snapshot : ℕ → ℕ → ℕ → ℤ → Snapshot
snapshot user vault epoch shares = record {
  vault_id = vault;
  user_address = user;
  epoch = epoch;
  shares = shares;
  cumulative_yield_claimed = pos 0;
}

-- INSERT INTO share_balance_snapshots … SELECT … FROM user_vault_positions … DO NOTHING
unfoldable pub snapshot_holders : ℕ → ℕ → List Position → List Snapshot → List Snapshot
snapshot_holders vault epoch [] rows = rows
snapshot_holders vault epoch (p ∷ ps) rows = snapshot_holders vault epoch ps (
    if p.vault_id == vault && ltb_ℤ (pos 0) p.shares
    then insert_new (is_snapshot p.user_address vault epoch)
        (snapshot p.user_address vault epoch p.shares) rows
    else rows)

abbrev new_epoch : Vault → YieldDistributed → Epoch
new_epoch v y = record {
  vault_id = v.id;
  epoch = y.epoch;
  yield_amount = y.amount;
  total_shares = v.total_supply;
  closed_at = none;
}

-- What `handleYieldDistributed` does for a known vault.
unfoldable pub distribute : ℕ → YieldDistributed → Vault → Store → Store
unfolding split_fee record_tvl_snapshot snapshot_holders
distribute c y v s =
    let split = split_fee y.amount v.operator_fee_bps in
    let s₁ = record s { epochs = insert_new (is_epoch v.id y.epoch) (new_epoch v y) s.epochs } in
    let s₂ = record_tvl_snapshot c s₁ in
    let s₃ = record s₂ { snapshots = snapshot_holders v.id y.epoch s₂.positions s₂.snapshots } in
    let s₄ = notify (fee_earned c y.epoch split.operator_fee split.net_yield) s₃ in
    notify (epoch_recorded c y.epoch y.amount) s₄

abbrev distribute_to : ℕ → YieldDistributed → Option Vault → Store → FeeSplit × Store
distribute_to c y none s = (record { net_yield = y.amount; operator_fee = pos 0 }, s)
distribute_to c y (some v) s = (split_fee y.amount v.operator_fee_bps, distribute c y v s)

-- `handleYieldDistributed`
unfoldable pub handle_yield_distributed : ℕ → YieldDistributed → Store → FeeSplit × Store
unfolding distribute
handle_yield_distributed c y s = distribute_to c y (vault_of c s) s

-- The `amount` that one row of `indexed_events` adds to the claims of an epoch. Only rows of the
-- two claim types carry a claim.
abbrev claim_amount : ℕ → Option (ℕ × ℤ) → ℤ
claim_amount epoch none = pos 0
claim_amount epoch (some (e, amount)) = if e == epoch then amount else pos 0

-- `getEpochClaimStats`: the claimed amount
unfoldable pub claimed_amount : ℕ → ℕ → List IndexedEvent → ℤ
claimed_amount c epoch [] = pos 0
claimed_amount c epoch (e ∷ es) =
    (if e.contract_id == c then claim_amount epoch e.claim else pos 0) +ℤ claimed_amount c epoch es

-- The row of an epoch, through the vault's contract id.
abbrev pub epoch_at : ℕ → Option Vault → Store → Option Epoch
epoch_at epoch none s = none
epoch_at epoch (some v) s = epoch_of v.id epoch s

abbrev close : ℕ → Epoch → Epoch
close now e = record e { closed_at = some (or_else e.closed_at now) }

abbrev close_found : ℕ → ℕ → ℕ → Option Epoch → Store → Option ℤ × Store
close_found now c epoch none s = (none, s)
close_found now c epoch (some e) s =
    if is_some e.closed_at || ltb_ℤ (claimed_amount c epoch s.indexed_events) e.yield_amount
    then (none, s)
    else (
      some e.yield_amount,
      record s { epochs = update_where (is_epoch e.vault_id epoch) (close now) s.epochs },
    )

-- `closeEpochIfFullyClaimed`: the yield of the epoch that it closed, if it closed one
unfoldable pub close_epoch_if_fully_claimed : ℕ → ℕ → ℕ → Store → Option ℤ × Store
unfolding claimed_amount
close_epoch_if_fully_claimed now c epoch s =
    close_found now c epoch (epoch_at epoch (vault_of c s) s) s

abbrev add_claim : ℤ → Snapshot → Snapshot
add_claim amount r = record r { cumulative_yield_claimed = r.cumulative_yield_claimed +ℤ amount }

abbrev raise_claimed : ℕ → Position → Position
raise_claimed epoch p = record p { last_claimed_epoch = max p.last_claimed_epoch epoch }

-- The three statements of `handleYieldClaimed` for a known vault.
unfoldable pub claim : YieldClaimed → Vault → Store → Store
claim y v s =
    let key = is_snapshot y.user v.id y.epoch in
    record s {
      snapshots =
          update_where key (add_claim y.amount)
            (insert_new key (snapshot y.user v.id y.epoch (pos 0)) s.snapshots);
      positions = update_where (is_position y.user v.id) (raise_claimed y.epoch) s.positions;
    }

abbrev announce_closed : ℕ → ℕ → Option ℤ × Store → Store
announce_closed c epoch (none, s) = s
announce_closed c epoch (some amount, s) = notify (epoch_closed c epoch amount) s

abbrev claim_from : ℕ → ℕ → YieldClaimed → Option Vault → Store → Store
claim_from now c y none s = s
claim_from now c y (some v) s =
    announce_closed c y.epoch (close_epoch_if_fully_claimed now c y.epoch (claim y v s))

-- `handleYieldClaimed`
unfoldable pub handle_yield_claimed : ℕ → ℕ → YieldClaimed → Store → Store
unfolding claim close_epoch_if_fully_claimed
handle_yield_claimed now c y s = claim_from now c y (vault_of c s) s

-- The position that the constraint uq_indexed_events_position of
-- backend/src/db/migrations/058_indexed_events_position_unique.sql makes unique.
abbrev pub has_position : ℕ → ℕ → ℕ → ℕ → IndexedEvent → Bool
has_position c ledger tx index e =
    e.contract_id == c
    && (e.ledger == ledger && (or_else e.tx_index 0 == tx && e.event_index == index))

-- A claim's row: the statement names no position, so both columns take their default, 0.
abbrev pub claim_row : ℕ → ℕ → ℕ → ℕ → YieldClaimed → IndexedEvent
claim_row c ledger tx_hash event_type y = record {
  ledger = ledger;
  tx_hash = tx_hash;
  contract_id = c;
  event_type = event_type;
  tx_index = some 0;
  event_index = 0;
  claim = some (y.epoch, y.amount);
}

-- The yield_claimed and the yield_claimed_partial branch of `_processEventInner`; they differ in the
-- `event_type` and in the payload's shortfall.
unfoldable pub process_claim : ℕ → ℕ → ℕ → ℕ → ℕ → YieldClaimed → Store → Store
process_claim now c ledger tx_hash event_type y s =
    let s₁ = handle_yield_claimed now c y s in
    record s₁ {
      indexed_events =
          insert_new (has_position c ledger 0 0) (claim_row c ledger tx_hash event_type y)
            s₁.indexed_events;
    }
