-- ===== src/Indexer/Positions/Withdrawn.antt =====
-- The vault's row after `handleWithdraw`, which ends by deriving the settlement status again.
use stellar_yield_contracts.Base.{ℕ, ◌≡◌, refl, ap, Option, some, if◌then◌else◌, find, ◌∙◌}
use stellar_yield_contracts.Base.Int.{ℤ, pos, eqb_ℤ}
use stellar_yield_contracts.Indexer.Store.{
  Store, Vault, VaultState, funding, active, matured, closed, cancelled, other, Settlement,
  in_progress, complete, vault_of, has_contract, update_vault, record_tvl_snapshot,
}
use stellar_yield_contracts.Indexer.Positions.{
  Withdraw, withdraw_position, burn, settle_state, refresh_settlement_status, position_at,
  handle_withdraw,
}
use stellar_yield_contracts.Indexer.Positions.Effects.{
  vault_of-update_self, record_tvl-frame, withdraw_position-frame, emit_position-rows,
}

-- The status that a vault's row has after a refresh.
abbrev refreshed_status : VaultState → ℤ → Option Settlement → Option Settlement
refreshed_status matured supply old = some (if eqb_ℤ supply (pos 0) then complete else in_progress)
refreshed_status closed supply old = some (if eqb_ℤ supply (pos 0) then complete else in_progress)
refreshed_status _ supply old = old

abbrev pub refreshed : Vault → Vault
refreshed v = record v {
  settlement_status = refreshed_status v.state v.total_supply v.settlement_status;
}

settle_state-vault :
    (c : ℕ) (state : VaultState) (s : Store) (v : Vault)
    → vault_of c s ≡ some v
    → vault_of c (settle_state c state v s)
      ≡ some (record v {
        settlement_status = refreshed_status state v.total_supply v.settlement_status;
      })
settle_state-vault c matured s v known = (vault_of-update_self c _ s v (λ r. refl) known)
settle_state-vault c closed s v known = (vault_of-update_self c _ s v (λ r. refl) known)
settle_state-vault c funding s v known = known
settle_state-vault c active s v known = known
settle_state-vault c cancelled s v known = known
settle_state-vault c (other n) s v known = known

vault_of-refresh :
    (c : ℕ) (s : Store) (v : Vault)
    → vault_of c s ≡ some v
    → vault_of c (refresh_settlement_status c s) ≡ some (refreshed v)
unfolding refresh_settlement_status
vault_of-refresh c s v known =
    rw (known, refresh_settlement_status) (settle_state-vault c v.state s v known)

burned-vault :
    (now c : ℕ) (w : Withdraw) (s : Store) (v : Vault)
    → vault_of c s ≡ some v
    → vault_of c (update_vault c (burn w.shares) (withdraw_position now w (vault_of c s) s))
      ≡ some (burn w.shares v)
burned-vault now c w s v known =
    vault_of-update_self c (burn w.shares) (withdraw_position now w (vault_of c s) s) v (λ r. refl)
      (rw (withdraw_position-frame now w (vault_of c s) s).0 known)

-- After a withdrawal the vault's row has the shares added to its burned shares and its settlement
-- status derived again, and is otherwise what it was: its assets and its supply too.
pub vault_of-handle_withdraw :
    (now c : ℕ) (w : Withdraw) (s : Store) (v : Vault)
    → vault_of c s ≡ some v
    → vault_of c (handle_withdraw now c w s) ≡ some (refreshed (burn w.shares v))
unfolding handle_withdraw record_tvl_snapshot
vault_of-handle_withdraw now c w s v known =
    let s₂ = update_vault c (burn w.shares) (withdraw_position now w (vault_of c s) s) in
    let s₃ = record_tvl_snapshot c s₂ in
    vault_of-refresh c _ (burn w.shares v) (
      ap (find (has_contract c)) (
        (emit_position-rows w.owner c (position_at w.owner (vault_of c s₃) s₃) s₃).0
        ∙ (record_tvl-frame (vault_of c s₂) s₂).0)
      ∙ burned-vault now c w s v known)
