-- ===== src/Indexer/Positions/Effects.antt =====
-- What `handleDeposit` and `handleWithdraw` do to the rows of the vault and of the user, and to
-- no others.
use stellar_yield_contracts.Base.{
  ℕ, ◌≡◌, ◌≢◌, refl, Bool, true, false, ◌&&◌, Option, none, some, arith, ◌==◌, ==_refl,
  update_where, find-upsert_self, find-upsert_other, find-update_where_self,
  find-update_where_other, Option-cases, inl, inr, ◌⊎◌, ◌∙◌,
}
use stellar_yield_contracts.Base.Int.{ℤ, ◌+ℤ◌}
use stellar_yield_contracts.Indexer.Store.{
  Store, Vault, VaultState, funding, active, matured, closed, cancelled, other, Position, vault_of,
  has_contract, update_vault, is_position, position_of, record_tvl,
}
use stellar_yield_contracts.Indexer.Positions.{
  Deposit, Withdraw, new_position, add_to_position, deposit_position, prev_assets, add_assets,
  announce_funded, handle_deposit, take_from_position, empty_position, withdraw_position, burn,
  settle_state, refresh_settlement_status, emit_position, handle_withdraw,
}

-- A change of a vault's row that keeps its key, as `vault_of` sees it.
pub vault_of-update_self :
    (c : ℕ) (f : Vault → Vault) (s : Store) (v : Vault)
    → ((r : Vault) → (f r).contract_id ≡ r.contract_id)
    → vault_of c s ≡ some v
    → vault_of c (update_vault c f s) ≡ some (f v)
vault_of-update_self c f s v keep e =
    find-update_where_self (has_contract c) f s.vaults v (λ r h. rw (keep r) h) e

pub vault_of-update_other :
    (c k : ℕ) (f : Vault → Vault) (s : Store)
    → k ≢ c
    → ((r : Vault) → (f r).contract_id ≡ r.contract_id)
    → vault_of k (update_vault c f s) ≡ vault_of k s
vault_of-update_other c k f s apart keep =
    find-update_where_other (has_contract c) (has_contract k) f s.vaults
      (λ r h. ground (arith, keep r))

announce_funded-rows :
    (c : ℕ) (new : ℤ) (target : Option ℤ) (funded : Bool) (s : Store)
    → let s' = announce_funded c new target funded s in
      (s'.vaults ≡ s.vaults) × (s'.positions ≡ s.positions)
announce_funded-rows c new none funded s = (refl, refl)
announce_funded-rows c new (some target) true s = (refl, refl)
announce_funded-rows c new (some target) false s = (refl, refl)

pub record_tvl-frame :
    (o : Option Vault) (s : Store)
    → let s' = record_tvl o s in
      (s'.vaults ≡ s.vaults) × (s'.positions ≡ s.positions) × (s'.notices ≡ s.notices)
record_tvl-frame none s = (refl, refl, refl)
record_tvl-frame (some v) s = (refl, refl, refl)

pub deposit_position-frame :
    (now : ℕ) (d : Deposit) (o : Option Vault) (s : Store)
    → let s' = deposit_position now d o s in (s'.vaults ≡ s.vaults) × (s'.notices ≡ s.notices)
unfolding deposit_position
deposit_position-frame now d none s = (refl, refl)
deposit_position-frame now d (some v) s = (refl, refl)

pub withdraw_position-frame :
    (now : ℕ) (w : Withdraw) (o : Option Vault) (s : Store)
    → let s' = withdraw_position now w o s in (s'.vaults ≡ s.vaults) × (s'.notices ≡ s.notices)
unfolding withdraw_position
withdraw_position-frame now w none s = (refl, refl)
withdraw_position-frame now w (some v) s = (refl, refl)

-- The rows after a deposit, whether the vault is known or not.
pub handle_deposit-rows :
    (now c : ℕ) (d : Deposit) (s : Store)
    → let s' = handle_deposit now c d s in
      (s'.vaults
        ≡ update_where
            (has_contract c)
            (add_assets (prev_assets (vault_of c s) +ℤ d.assets) d)
            s.vaults)
      × (s'.positions ≡ (deposit_position now d (vault_of c s) s).positions)
unfolding handle_deposit
handle_deposit-rows now c d s =
    grind (arith, announce_funded-rows, record_tvl-frame, deposit_position-frame)

burn-contract_id : (shares : ℤ) (r : Vault) → (burn shares r).contract_id ≡ r.contract_id
burn-contract_id shares r = refl

settle_state-rows :
    (c : ℕ) (state : VaultState) (v : Vault) (s : Store)
    → (settle_state c state v s).positions ≡ s.positions
settle_state-rows c matured v s = refl
settle_state-rows c closed v s = refl
settle_state-rows c funding v s = refl
settle_state-rows c active v s = refl
settle_state-rows c cancelled v s = refl
settle_state-rows c (other n) v s = refl

refresh-positions : (c : ℕ) (s : Store) → (refresh_settlement_status c s).positions ≡ s.positions
unfolding refresh_settlement_status
refresh-positions c s = elim (Option-cases (vault_of c s)) [
  | inl missing ↦ rw (missing, refresh_settlement_status)
  | inr (v, found) ↦ rw (found, refresh_settlement_status) (settle_state-rows c v.state v s)
]

pub emit_position-rows :
    (owner c : ℕ) (o : Option Position) (s : Store)
    → let s' = emit_position owner c o s in (s'.vaults ≡ s.vaults) × (s'.positions ≡ s.positions)
emit_position-rows owner c none s = (refl, refl)
emit_position-rows owner c (some p) s = (refl, refl)

pub handle_withdraw-positions :
    (now c : ℕ) (w : Withdraw) (s : Store)
    → (handle_withdraw now c w s).positions ≡ (withdraw_position now w (vault_of c s) s).positions
unfolding handle_withdraw
handle_withdraw-positions now c w s =
    grind (arith, refresh-positions, emit_position-rows, record_tvl-frame, withdraw_position-frame)

-- The position that a deposit leaves behind.
unfoldable pub deposited_position : ℕ → Deposit → ℕ → Option Position → Position
deposited_position now d vault none = new_position now d vault
deposited_position now d vault (some p) = add_to_position now d p

is_position_refl : (u v : ℕ) → (u == u && v == v) ≡ true
is_position_refl u v = ground (arith, ==_refl u, ==_refl v)

is_position_apart :
    (u v u' v' : ℕ) (p : Position)
    → (u ≢ u') ⊎ (v ≢ v')
    → is_position u v p ≡ true
    → is_position u' v' p ≡ false
is_position_apart u v u' v' p (inl h) e = ground arith
is_position_apart u v u' v' p (inr h) e = ground arith

-- What a deposit into the known vault `v` does, and all that it does, to positions and vaults.
pub record DepositEffect (now c : ℕ) (d : Deposit) (v : Vault) (s s' : Store) : Type 0 where
  pub vault_row : vault_of c s' ≡ some (add_assets (v.total_assets +ℤ d.assets) d v)
  pub position_row :
      position_of d.receiver v.id s'
      ≡ some (deposited_position now d v.id (position_of d.receiver v.id s))
  pub other_positions :
      (u w : ℕ) → (u ≢ d.receiver) ⊎ (w ≢ v.id) → position_of u w s' ≡ position_of u w s
  pub other_vaults : (k : ℕ) → k ≢ c → vault_of k s' ≡ vault_of k s

module _ (now c : ℕ) (s : Store) (v : Vault) (known : vault_of c s ≡ some v) where
  position_of-handle_deposit :
      (d : Deposit)
      → position_of d.receiver v.id (handle_deposit now c d s)
        ≡ some (deposited_position now d v.id (position_of d.receiver v.id s))
  unfolding deposit_position deposited_position add_to_position
  position_of-handle_deposit d = rw (handle_deposit-rows now c d s).1 (
      rw known (
        find-upsert_self (is_position d.receiver v.id) (new_position now d v.id)
          (add_to_position now d) s.positions (is_position_refl d.receiver v.id) (λ p h. h)))

  other_position-handle_deposit :
      (d : Deposit) (u w : ℕ)
      → (u ≢ d.receiver) ⊎ (w ≢ v.id)
      → position_of u w (handle_deposit now c d s) ≡ position_of u w s
  unfolding deposit_position add_to_position
  other_position-handle_deposit d u w apart =
      let flip : (d.receiver ≢ u) ⊎ (v.id ≢ w) = ground arith in
      rw (handle_deposit-rows now c d s).1 (
        rw known (
          find-upsert_other (is_position d.receiver v.id) (is_position u w)
            (new_position now d v.id) (add_to_position now d) s.positions
            (is_position_apart d.receiver v.id u w (new_position now d v.id) flip
              (is_position_refl d.receiver v.id))
            (λ p h. is_position_apart d.receiver v.id u w p flip h)
            (λ p h. is_position_apart d.receiver v.id u w p flip h)))

  pub vault_of-handle_deposit :
      (d : Deposit)
      → vault_of c (handle_deposit now c d s) ≡ some (add_assets (v.total_assets +ℤ d.assets) d v)
  unfolding add_assets
  vault_of-handle_deposit d =
      rw ((handle_deposit-rows now c d s).0, known)
        (vault_of-update_self c (add_assets (v.total_assets +ℤ d.assets) d) s v (λ r. refl) known)

  -- A deposit into a known vault raises the vault's assets by the assets and its minted shares by
  -- the shares, adds both to the receiver's position in that vault (or opens it with them), and
  -- changes no other position and no other vault.
  pub handle_deposit-DepositEffect :
      (d : Deposit) → DepositEffect now c d v s (handle_deposit now c d s)
  unfolding add_assets
  handle_deposit-DepositEffect d = record {
    vault_row = vault_of-handle_deposit d;
    position_row = position_of-handle_deposit d;
    other_positions = other_position-handle_deposit d;
    other_vaults = λ k apart. rw (handle_deposit-rows now c d s).0 (
        vault_of-update_other c k (add_assets (prev_assets (vault_of c s) +ℤ d.assets) d) s apart
          (λ r. refl));
  }

  pub position_of-handle_withdraw :
      (w : Withdraw) (p : Position)
      → position_of w.owner v.id s ≡ some p
      → position_of w.owner v.id (handle_withdraw now c w s) ≡ some (take_from_position now w p)
  unfolding withdraw_position take_from_position
  position_of-handle_withdraw w p held = rw (handle_withdraw-positions now c w s) (
      rw known (
        find-upsert_self (is_position w.owner v.id) (empty_position now w v.id)
          (take_from_position now w) s.positions (is_position_refl w.owner v.id) (λ q h. h)
        ∙ rw held))
