-- ===== src/Yields/Pending/Vault.antt =====
-- What the holders of a vault are promised together.
use stellar_yield_contracts.Base.{
  if◌then◌else◌, ◌&&◌, ◌==◌, ℕ, ◌≤◌, ◌≡◌, refl, ap, ◌∙◌, some, List, [], ◌∷◌, leb, find, select,
  Bool-cases, inl, inr, All,
}
use stellar_yield_contracts.Base.Int.{ℤ, pos, ◌+ℤ◌}
use stellar_yield_contracts.Yields.Pending.{
  is_live, pending_for, HolderRow, EpochRow, pending_from, insert_by_epoch, sort_by_epoch,
  epoch_rows, is_holder, get_user_pending_yield,
}
use stellar_yield_contracts.Yields.Pending.Solvency.{
  Covers, Holder, sum_shares, sum_yields, total_promised, promised_all, pending-promised_all,
  pos-+ℤ, total_promised-le,
}

insert_by_epoch-All :
    (P : EpochRow → Type 0) (r : EpochRow) (rows : List EpochRow)
    → P r
    → All P rows
    → All P (insert_by_epoch r rows)
insert_by_epoch-All P r [] h hs = (h, tt)
insert_by_epoch-All P r (q ∷ rows) h (k, hs) = elim (Bool-cases (leb r.epoch q.epoch)) [
  | inl e ↦ simp e (h, (k, hs))
  | inr e ↦ simp e (k, insert_by_epoch-All P r rows h hs)
]

sort_by_epoch-All :
    (P : EpochRow → Type 0) (rows : List EpochRow) → All P rows → All P (sort_by_epoch rows)
unfolding sort_by_epoch
sort_by_epoch-All P [] h = tt
sort_by_epoch-All P (r ∷ rows) (h, hs) =
    insert_by_epoch-All P r (sort_by_epoch rows) h (sort_by_epoch-All P rows hs)

-- The epochs of a vault that have not expired.
abbrev pub live_epochs : ℕ → ℕ → List EpochRow → List EpochRow
live_epochs now contract [] = []
live_epochs now contract (r ∷ rows) =
    if r.contract_id == contract && is_live now r.expires_at
    then r ∷ live_epochs now contract rows
    else live_epochs now contract rows

select-live_epochs :
    (now contract : ℕ) (rows : List EpochRow)
    → live_epochs now contract rows
      ≡ select (λ r. r.contract_id == contract && is_live now r.expires_at) rows
select-live_epochs now contract [] = refl
select-live_epochs now contract (r ∷ rows) = rw (select-live_epochs now contract rows) refl

-- The epochs that the loop runs over, if those of the vault cover what is held.
pub epoch_rows-All :
    (held now contract : ℕ) (rows : List EpochRow)
    → All (Covers held) (live_epochs now contract rows)
    → All (Covers held) (epoch_rows now contract rows)
epoch_rows-All held now contract rows h =
    sort_by_epoch-All (Covers held) _ (rw (select-live_epochs now contract rows) at h)

-- A user of the vault, with the shares and the last epoch claimed of the position.
pub record Holding (contract : ℕ) (table : List HolderRow) (user : ℕ × ℕ × ℕ) : Type 0 where
  pub row : HolderRow
  pub found : find (is_holder contract user.0) table ≡ some row
  pub last : row.last_claimed_epoch ≡ user.1
  pub shares : row.shares ≡ pos user.2

abbrev pub holders_of : List (ℕ × ℕ × ℕ) → List Holder
holders_of [] = []
holders_of ((user, last, shares) ∷ users) = (some last, shares) ∷ holders_of users

-- The pending yields of the users, added up.
abbrev pub sum_pending : ℕ → ℕ → List HolderRow → List EpochRow → List (ℕ × ℕ × ℕ) → ℤ
sum_pending now contract table rows [] = pos 0
sum_pending now contract table rows ((user, last, shares) ∷ users) =
    (get_user_pending_yield now contract user table rows).pending_yield
    +ℤ sum_pending now contract table rows users

module _ (now contract held : ℕ) (table : List HolderRow) (rows : List EpochRow)
    (cs : All (Covers held) (live_epochs now contract rows)) where
  pending-Holding :
      (user last shares : ℕ)
      → Holding contract table (user, last, shares)
      → (get_user_pending_yield now contract user table rows).pending_yield
        ≡ pos (
            promised_all held
              (some last)
              shares
              (epoch_rows now contract rows)
              (epoch_rows-All held now contract rows cs))
  unfolding get_user_pending_yield
  pending-Holding user last shares h =
      ap (λ f. (pending_for f (epoch_rows now contract rows)).pending_yield) h.found
      ∙ ap (λ l. (pending_from (some l) h.row.shares (epoch_rows now contract rows)).pending_yield)
          h.last
      ∙ ap (λ s. (pending_from (some last) s (epoch_rows now contract rows)).pending_yield) h.shares
      ∙ pending-promised_all (some last) shares held (epoch_rows now contract rows)
          (epoch_rows-All held now contract rows cs)

  sum_pending-total :
      (users : List (ℕ × ℕ × ℕ))
      → All (Holding contract table) users
      → sum_pending now contract table rows users
        ≡ pos (
            total_promised held
              (holders_of users)
              (epoch_rows now contract rows)
              (epoch_rows-All held now contract rows cs))
  sum_pending-total [] h = refl
  sum_pending-total ((user, last, shares) ∷ users) (h, hs) =
      rw (pending-Holding user last shares h, sum_pending-total users hs) (pos-+ℤ _ _)

  -- Users of a vault whose shares add up to no more than the shares at the distribution of each of its epochs that
  -- have not expired, none of which has a negative yield, are together promised no more pending yield than the yields
  -- of the epochs that have not expired add up to.
  pub sum_pending-le :
      (users : List (ℕ × ℕ × ℕ))
      → All (Holding contract table) users
      → sum_shares (holders_of users) ≤ held
      → (n : ℕ) × (sum_pending now contract table rows users ≡ pos n)
        × (n
            ≤ sum_yields held
                (epoch_rows now contract rows)
                (epoch_rows-All held now contract rows cs))
  sum_pending-le users hs few = (
    _,
    sum_pending-total users hs,
    total_promised-le held (holders_of users) (epoch_rows now contract rows)
        (epoch_rows-All held now contract rows cs) few,
  )
