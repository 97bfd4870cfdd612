-- ===== src/Yields/Pending/Tests.antt =====
-- Two holders and three epochs, of which one has expired.
use stellar_yield_contracts.Base.{ℕ, ◌≤◌, ◌≡◌, refl, Option, none, some, List, [], ◌∷◌, arith, All}
use stellar_yield_contracts.Base.Int.{pos, quot, ◌*ℤ◌, ◌+ℤ◌}
use stellar_yield_contracts.Yields.Pending.{HolderRow, EpochRow, epoch_rows, get_user_pending_yield}
use stellar_yield_contracts.Yields.Pending.Solvency.{Covers, sum_yields}
use stellar_yield_contracts.Yields.Pending.Vault.{
  epoch_rows-All, live_epochs, sum_pending, sum_pending-le,
}

abbrev table : List HolderRow
table =
    record { contract_id = 7; user_address = 1; shares = pos 10; last_claimed_epoch = 1 }
    ∷ record { contract_id = 7; user_address = 2; shares = pos 20; last_claimed_epoch = 0 }
    ∷ []

abbrev epoch : ℕ → ℕ → Option ℕ → EpochRow
epoch n amount expires_at = record {
  contract_id = 7;
  epoch = n;
  yield_amount = pos amount;
  total_shares = pos 30;
  expires_at = expires_at;
}

-- An epoch of a vault with fewer shares.
abbrev other_vault : EpochRow
other_vault = record {
  contract_id = 8;
  epoch = 1;
  yield_amount = pos 40;
  total_shares = pos 3;
  expires_at = none;
}

abbrev rows : List EpochRow
rows = epoch 2 100 none ∷ epoch 1 50 none ∷ epoch 3 60 (some 5) ∷ other_vault ∷ []

second_user :
    get_user_pending_yield 9 7 2 table rows
    ≡ record { pending_yield = pos 99; epochs = 1 ∷ 2 ∷ []; claimed_epochs = [] }
unfolding get_user_pending_yield quot ◌*ℤ◌ ◌+ℤ◌
second_user = refl

abbrev epoch-Covers : (n amount : ℕ) (expires_at : Option ℕ) → Covers 30 (epoch n amount expires_at)
epoch-Covers n amount expires_at = record {
  yield = amount;
  total = 30;
  is_yield = refl;
  is_total = refl;
  enough = omega arith;
}

abbrev rows-Covers : All (Covers 30) (live_epochs 9 7 rows)
rows-Covers = (epoch-Covers 2 100 none, (epoch-Covers 1 50 none, tt))

sum_pending-le_example :
    (n : ℕ) × (sum_pending 9 7 table rows ((1, 1, 10) ∷ (2, 0, 20) ∷ []) ≡ pos n)
    × (n ≤ sum_yields 30 (epoch_rows 9 7 rows) (epoch_rows-All 30 9 7 rows rows-Covers))
sum_pending-le_example =
    sum_pending-le 9 7 30 table rows rows-Covers ((1, 1, 10) ∷ (2, 0, 20) ∷ [])
      (
        record { row = _; found = refl; last = refl; shares = refl },
        (record { row = _; found = refl; last = refl; shares = refl }, tt),
      )
      (omega arith)
