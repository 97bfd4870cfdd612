-- ===== src/Indexer/Positions/Tests.antt =====
-- Runs of the deposit and withdrawal handlers on the small database of the fixtures.
use stellar_yield_contracts.Base.{◌⊎◌, ◌+◌, ◌≡◌, refl, some, List, [], ◌∷◌, arith}
use stellar_yield_contracts.Base.Int.{pos, ◌+ℤ◌, ◌-ℤ◌}
use stellar_yield_contracts.Indexer.Store.{
  Vault, Position, in_progress, vault_funded, vault_of, position_of, position_update,
}
use stellar_yield_contracts.Indexer.Fixtures.{pool, alice, start}
use stellar_yield_contracts.Indexer.Positions.{Deposit, Withdraw, handle_deposit, handle_withdraw}
use stellar_yield_contracts.Indexer.Positions.Balances.{handle_withdraw-handle_deposit, undo}
use stellar_yield_contracts.Indexer.Positions.Runs.{
  Flow, inflow, outflow, run_flows, KeepsBalance, run_flows-KeepsBalance,
  handle_withdraw-in_progress,
}
use stellar_yield_contracts.Indexer.Positions.Funding.{
  Deposits, run_deposits, funded_count, IsReached, IsNotReached, deposited_total,
  run_deposits-funded_count,
}

abbrev gift : Deposit
gift = record { receiver = 5; assets = pos 20; shares = pos 4 }

abbrev exit : Withdraw
exit = record { owner = 5; assets = pos 30; shares = pos 14 }

deposit_notifies :
    (handle_deposit 9 70 gift start).notices ≡ vault_funded 70 (pos 110) (pos 100) ∷ []
unfolding handle_deposit ◌+ℤ◌
deposit_notifies = refl

withdraw_emits :
    (handle_withdraw 9 70 exit start).notices ≡ position_update 5 70 (pos 0) (pos 0) ∷ []
unfolding handle_withdraw ◌-ℤ◌
withdraw_emits = refl

handle_withdraw-handle_deposit_example :
    (q : Position) × (position_of 5 1
        (handle_withdraw 12 70 (undo gift) (handle_deposit 9 70 gift start))
      ≡ some q)
    × (q.shares ≡ pos 10)
    × (q.deposited ≡ pos 10)
handle_withdraw-handle_deposit_example =
    handle_withdraw-handle_deposit 9 12 70 gift start pool alice refl refl (omega arith)
      (omega arith)

abbrev flows : List Flow
flows = inflow 9 gift ∷ outflow 12 exit ∷ []

run_flows-KeepsBalance_example :
    (v' : Vault) × (vault_of 70 (run_flows 70 flows start) ≡ some v')
    × (v'.id ≡ 1)
    × KeepsBalance 1 pool start v' (run_flows 70 flows start)
unfolding handle_deposit ◌+ℤ◌
run_flows-KeepsBalance_example =
    run_flows-KeepsBalance 70 flows start pool refl
      (tt, ((record alice { shares = pos 14; deposited = pos 30 }, refl, omega arith), tt))

handle_withdraw-in_progress_example :
    (v' : Vault) × (vault_of 70
        (handle_withdraw 12 70 exit (run_flows 70 (inflow 9 gift ∷ []) start))
      ≡ some v')
    × (v'.settlement_status ≡ some in_progress)
handle_withdraw-in_progress_example =
    handle_withdraw-in_progress 70 12 (inflow 9 gift ∷ []) exit start pool refl refl refl

abbrev gifts : Deposits
gifts = (9, gift) ∷ (10, gift) ∷ []

run_deposits-funded_count_example :
    let end = pos 90 +ℤ deposited_total gifts in
    let before = funded_count 70 start.notices in
    let after = funded_count 70 (run_deposits 70 gifts start).notices in
    (IsReached (pos 100) (pos 90) end × (after ≡ before + 1))
    ⊎ (IsNotReached (pos 100) (pos 90) end × (after ≡ before))
run_deposits-funded_count_example =
    run_deposits-funded_count 70 gifts start pool (pos 100) refl refl (omega arith)
