-- ===== src/Indexer/Positions/Balances.antt =====
-- Shares are neither made nor lost by the position updates of `handleDeposit` and
-- `handleWithdraw`.
use stellar_yield_contracts.Base.{
  ℕ, ◌≡◌, some, List, [], ◌∷◌, arith, ◌==◌, if◌then◌else◌, find, upsert,
}
use stellar_yield_contracts.Base.Int.{ℤ, pos, ◌+ℤ◌, ◌-ℤ◌, ◌≤ℤ◌, int_laws, +ℤ_parts, eq_of_parts}
use stellar_yield_contracts.Indexer.Store.{
  Store, Vault, Position, vault_of, is_position, position_of,
}
use stellar_yield_contracts.Indexer.Positions.{
  Deposit, Withdraw, add_to_position, take_from_position, handle_deposit, handle_withdraw,
  add_assets, new_position, empty_position,
}
use stellar_yield_contracts.Indexer.Positions.Effects.{
  handle_deposit-DepositEffect, deposited_position, position_of-handle_withdraw,
}

-- The withdrawal that undoes a deposit.
abbrev pub undo : Deposit → Withdraw
undo d = record { owner = d.receiver; assets = d.assets; shares = d.shares }

take_from-add_to :
    (now later : ℕ) (d : Deposit) (p : Position)
    → pos 0 ≤ℤ p.shares
    → pos 0 ≤ℤ p.deposited
    → let q = take_from_position later (undo d) (add_to_position now d p) in
      (q.shares ≡ p.shares) × (q.deposited ≡ p.deposited)
unfolding take_from_position add_to_position ◌+ℤ◌ ◌-ℤ◌
take_from-add_to now later d p h k = ground arith

-- A deposit followed by the withdrawal of the same shares and assets leaves the position's shares
-- and its deposited amount as they were, if these are not negative.
pub handle_withdraw-handle_deposit :
    (now later c : ℕ) (d : Deposit) (s : Store) (v : Vault) (p : Position)
    → vault_of c s ≡ some v
    → position_of d.receiver v.id s ≡ some p
    → pos 0 ≤ℤ p.shares
    → pos 0 ≤ℤ p.deposited
    → (q : Position) × (position_of d.receiver v.id
          (handle_withdraw later c (undo d) (handle_deposit now c d s))
        ≡ some q)
      × (q.shares ≡ p.shares)
      × (q.deposited ≡ p.deposited)
unfolding add_assets deposited_position
handle_withdraw-handle_deposit now later c d s v p known held h k =
    let effect = handle_deposit-DepositEffect now c s v known d in
    let v' = add_assets (v.total_assets +ℤ d.assets) d v in
    let back =
      position_of-handle_withdraw later c (handle_deposit now c d s) v' effect.vault_row (undo d)
        (add_to_position now d p) (rw held at effect.position_row) in
    let (shares, deposited) = take_from-add_to now later d p h k in
    (take_from_position later (undo d) (add_to_position now d p), back, shares, deposited)

-- The shares that the positions in one vault hold together.
abbrev pub shares_in : ℕ → List Position → ℤ
shares_in vault [] = pos 0
shares_in vault (p ∷ ps) =
    if p.vault_id == vault then p.shares +ℤ shares_in vault ps else shares_in vault ps

pub shares_in-add :
    (now : ℕ) (d : Deposit) (vault : ℕ) (ps : List Position)
    → shares_in vault (
        upsert (is_position d.receiver vault) (new_position now d vault) (add_to_position now d) ps)
      ≡ shares_in vault ps +ℤ d.shares
unfolding add_to_position
shares_in-add now d vault [] = ground (
  arith,
  +ℤ_parts d.shares (pos 0),
  +ℤ_parts (pos 0) d.shares,
  eq_of_parts (d.shares +ℤ pos 0) (pos 0 +ℤ d.shares),
)
shares_in-add now d vault (p ∷ ps) = grind (int_laws, shares_in-add now d vault ps)

pub shares_in-take :
    (now : ℕ) (w : Withdraw) (vault : ℕ) (ps : List Position) (p : Position)
    → find (is_position w.owner vault) ps ≡ some p
    → w.shares ≤ℤ p.shares
    → shares_in vault (
        upsert
          (is_position w.owner vault)
          (empty_position now w vault)
          (take_from_position now w)
          ps)
      ≡ shares_in vault ps -ℤ w.shares
unfolding take_from_position
shares_in-take now w vault [] p e h = ground arith
shares_in-take now w vault (q ∷ ps) p e h = grind (int_laws, shares_in-take now w vault ps p)
