-- ===== src/Yields/Pending.antt =====
-- backend/src/services/yield.ts, getUserPendingYield: the yield that a holder has not claimed. The result
-- that is cached for a while is not modelled.
mod Solvency
mod Vault
mod Tests
use stellar_yield_contracts.Base.{
  ℕ, suc, Bool, true, false, not, ◌||◌, ◌&&◌, Option, none, some, List, [], ◌∷◌, ltb, leb, ◌==◌,
  find, select, if◌then◌else◌,
}
use stellar_yield_contracts.Base.Int.{ℤ, pos, ◌+ℤ◌, ◌*ℤ◌, quot, leb_ℤ, ltb_ℤ}

-- A row of `user_vault_positions` joined with its vault.
pub record HolderRow : Type 0 where
  pub contract_id : ℕ
  pub user_address : ℕ
  pub shares : ℤ
  pub last_claimed_epoch : ℕ

-- A row of `epochs` joined with its vault.
pub record EpochRow : Type 0 where
  pub contract_id : ℕ
  pub epoch : ℕ
  pub yield_amount : ℤ
  pub total_shares : ℤ
  pub expires_at : Option ℕ

pub record PendingYield : Type 0 where
  pub pending_yield : ℤ
  pub epochs : List ℕ
  pub claimed_epochs : List ℕ

-- `expires_at IS NULL OR expires_at > NOW()`
abbrev pub is_live : ℕ → Option ℕ → Bool
is_live now none = true
is_live now (some t) = ltb now t

abbrev pub insert_by_epoch : EpochRow → List EpochRow → List EpochRow
insert_by_epoch r [] = r ∷ []
insert_by_epoch r (q ∷ rows) =
    if leb r.epoch q.epoch then r ∷ q ∷ rows else q ∷ insert_by_epoch r rows

-- ORDER BY epoch ASC
unfoldable pub sort_by_epoch : List EpochRow → List EpochRow
sort_by_epoch [] = []
sort_by_epoch (r ∷ rows) = insert_by_epoch r (sort_by_epoch rows)

abbrev pub epoch_rows : ℕ → ℕ → List EpochRow → List EpochRow
epoch_rows now contract rows =
    sort_by_epoch (select (λ r. r.contract_id == contract && is_live now r.expires_at) rows)

-- `row.epoch <= lastClaimedEpoch`, where -1 stands for no position
abbrev pub is_claimed : Option ℕ → EpochRow → Bool
is_claimed none row = false
is_claimed (some last) row = leb row.epoch last

-- BigInt division drops the fraction; the loop has passed over totals that are not positive.
abbrev pub epoch_yield : ℤ → EpochRow → ℤ
epoch_yield shares row = quot (row.yield_amount *ℤ shares) row.total_shares

abbrev pub push_claimed : ℕ → PendingYield → PendingYield
push_claimed epoch p = record p { claimed_epochs = epoch ∷ p.claimed_epochs }

abbrev pub push_pending : ℕ → ℤ → PendingYield → PendingYield
push_pending epoch amount p = record p {
  pending_yield = amount +ℤ p.pending_yield;
  epochs = epoch ∷ p.epochs;
}

-- The loop over the epochs, from the first on; `rest` is what the later ones give.
unfoldable pub pending_from : Option ℕ → ℤ → List EpochRow → PendingYield
pending_from last shares [] = record { pending_yield = pos 0; epochs = []; claimed_epochs = [] }
pending_from last shares (row ∷ rows) =
    let rest = pending_from last shares rows in
    if is_claimed last row
    then push_claimed row.epoch rest
    else if leb_ℤ row.total_shares (pos 0)
    then rest
    else if ltb_ℤ (pos 0) (epoch_yield shares row)
    then push_pending row.epoch (epoch_yield shares row) rest
    else rest

abbrev pub pending_for : Option HolderRow → List EpochRow → PendingYield
pending_for none rows = pending_from none (pos 0) rows
pending_for (some h) rows = pending_from (some h.last_claimed_epoch) h.shares rows

abbrev pub is_holder : ℕ → ℕ → HolderRow → Bool
is_holder contract user h = h.contract_id == contract && h.user_address == user

unfoldable pub get_user_pending_yield : ℕ → ℕ → ℕ → List HolderRow → List EpochRow → PendingYield
unfolding pending_from sort_by_epoch
get_user_pending_yield now contract user holders rows =
    pending_for (find (is_holder contract user) holders) (epoch_rows now contract rows)
