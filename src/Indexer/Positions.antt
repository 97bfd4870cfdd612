-- ===== src/Indexer/Positions.antt =====
-- `handleDeposit`, `handleWithdraw` and `refreshSettlementStatus` of
-- backend/src/services/indexer.ts: the positions of users and the totals of their vault.
pub mod Effects
pub mod Withdrawn
pub mod Balances
pub mod Runs
pub mod Funding
mod Tests
use stellar_yield_contracts.Base.{
  ℕ, Bool, true, false, ◌&&◌, Option, none, some, List, [], ◌∷◌, ◌++◌, ◌==◌, if◌then◌else◌, find,
  update_where, upsert, or_else,
}
use stellar_yield_contracts.Base.Int.{ℤ, pos, ◌+ℤ◌, ◌-ℤ◌, ltb_ℤ, leb_ℤ, eqb_ℤ, greatest_zero}
use stellar_yield_contracts.Indexer.Store.{
  Store, Vault, VaultState, matured, closed, Settlement, in_progress, complete, Position, Notice,
  vault_funded, position_update, vault_of, update_vault, is_position, position_of, notify,
  record_tvl_snapshot,
}

-- The arguments that the parsers hand over.
pub record Deposit : Type 0 where
  pub receiver : ℕ
  pub assets : ℤ
  pub shares : ℤ

pub record Withdraw : Type 0 where
  pub owner : ℕ
  pub assets : ℤ
  pub shares : ℤ

-- INSERT INTO user_vault_positions … ON CONFLICT (user_address, vault_id) DO UPDATE
abbrev new_position : ℕ → Deposit → ℕ → Position
new_position now d vault = record {
  user_address = d.receiver;
  vault_id = vault;
  shares = d.shares;
  deposited = d.assets;
  last_claimed_epoch = 0;
  first_entry_at = some now;
  last_exit_at = none;
}

unfoldable pub add_to_position : ℕ → Deposit → Position → Position
add_to_position now d p = record p {
  shares = p.shares +ℤ d.shares;
  deposited = p.deposited +ℤ d.assets;
  first_entry_at = some (or_else p.first_entry_at now);
  last_exit_at = none;
}

unfoldable pub deposit_position : ℕ → Deposit → Option Vault → Store → Store
unfolding add_to_position
deposit_position now d none s = s
deposit_position now d (some v) s = record s {
  positions =
      upsert (is_position d.receiver v.id) (new_position now d v.id) (add_to_position now d)
        s.positions;
}

-- The test for the deposit that crosses the funding target.
unfoldable pub crosses_target : Option ℤ → ℤ → ℤ → Bool
crosses_target none prev new = false
crosses_target (some target) prev new =
    ltb_ℤ (pos 0) target && (ltb_ℤ prev target && leb_ℤ target new)

abbrev prev_assets : Option Vault → ℤ
prev_assets none = pos 0
prev_assets (some v) = v.total_assets

abbrev target_of : Option Vault → Option ℤ
target_of none = none
target_of (some v) = v.funding_target

unfoldable pub add_assets : ℤ → Deposit → Vault → Vault
add_assets new d v = record v { total_assets = new; ever_minted = v.ever_minted +ℤ d.shares }

abbrev announce_funded : ℕ → ℤ → Option ℤ → Bool → Store → Store
announce_funded c new none funded s = s
announce_funded c new (some target) funded s =
    if funded then notify (vault_funded c new target) s else s

-- `handleDeposit`
unfoldable pub handle_deposit : ℕ → ℕ → Deposit → Store → Store
unfolding deposit_position crosses_target add_assets record_tvl_snapshot
handle_deposit now c d s =
    let s₁ = deposit_position now d (vault_of c s) s in
    let prev = prev_assets (vault_of c s₁) in
    let target = target_of (vault_of c s₁) in
    let new = prev +ℤ d.assets in
    let s₂ = update_vault c (add_assets new d) s₁ in
    let s₃ = record_tvl_snapshot c s₂ in
    announce_funded c new target (crosses_target target prev new) s₃

unfoldable pub take_from_position : ℕ → Withdraw → Position → Position
take_from_position now w p =
    let shares = greatest_zero (p.shares -ℤ w.shares) in
    record p {
      shares = shares;
      deposited = greatest_zero (p.deposited -ℤ w.assets);
      last_exit_at = if eqb_ℤ shares (pos 0) then some now else none;
    }

abbrev empty_position : ℕ → Withdraw → ℕ → Position
empty_position now w vault = record {
  user_address = w.owner;
  vault_id = vault;
  shares = pos 0;
  deposited = pos 0;
  last_claimed_epoch = 0;
  first_entry_at = none;
  last_exit_at = some now;
}

unfoldable pub withdraw_position : ℕ → Withdraw → Option Vault → Store → Store
unfolding take_from_position
withdraw_position now w none s = s
withdraw_position now w (some v) s = record s {
  positions =
      upsert (is_position w.owner v.id) (empty_position now w v.id) (take_from_position now w)
        s.positions;
}

abbrev burn : ℤ → Vault → Vault
burn shares v = record v { ever_burned = v.ever_burned +ℤ shares }

abbrev settle : ℕ → Vault → Store → Store
settle c v s =
    let status = if eqb_ℤ v.total_supply (pos 0) then complete else in_progress in
    update_vault c (λ r. record r { settlement_status = some status }) s

abbrev settle_state : ℕ → VaultState → Vault → Store → Store
settle_state c matured v s = settle c v s
settle_state c closed v s = settle c v s
settle_state c _ v s = s

-- `refreshSettlementStatus`
unfoldable pub refresh_settlement_status : ℕ → Store → Store
refresh_settlement_status c s = elim (vault_of c s) [
  | none ↦ s
  | some v ↦ settle_state c v.state v s
]

abbrev position_at : ℕ → Option Vault → Store → Option Position
position_at user none s = none
position_at user (some v) s = position_of user v.id s

abbrev emit_position : ℕ → ℕ → Option Position → Store → Store
emit_position owner c none s = s
emit_position owner c (some p) s = notify (position_update owner c p.shares p.deposited) s

-- `handleWithdraw`
unfoldable pub handle_withdraw : ℕ → ℕ → Withdraw → Store → Store
unfolding withdraw_position record_tvl_snapshot refresh_settlement_status
handle_withdraw now c w s =
    let s₁ = withdraw_position now w (vault_of c s) s in
    let s₂ = update_vault c (burn w.shares) s₁ in
    let s₃ = record_tvl_snapshot c s₂ in
    let s₄ = emit_position w.owner c (position_at w.owner (vault_of c s₃) s₃) s₃ in
    refresh_settlement_status c s₄
