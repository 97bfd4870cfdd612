-- ===== src/Indexer/Lifecycle/Tests.antt =====
-- A vault that matures, is paused and is cancelled.
use stellar_yield_contracts.Base.{◌≡◌, ◌≢◌, refl, true, none, some, List, [], ◌∷◌, arith}
use stellar_yield_contracts.Base.Int.{pos}
use stellar_yield_contracts.Indexer.Store.{Store, Vault, active, matured, closed, vault_of}
use stellar_yield_contracts.Indexer.Fixtures.{pool, start}
use stellar_yield_contracts.Indexer.Lifecycle.{handle_vault_created}
use stellar_yield_contracts.Indexer.Lifecycle.Settled.{
  LifeEvent, changed, removed, set_paused, run_life, IsSettled, run_life-IsSettled,
}

created_vault : vault_of 71 (handle_vault_created 2 71 (some (pos 500)) start) ≢ none
unfolding handle_vault_created
created_vault e = ground (arith, e)

abbrev young : Vault
young = record pool { state = active }

abbrev running : Store
running = record start { vaults = young ∷ [] }

young-IsSettled : IsSettled young
young-IsSettled = record {
  frozen = λ n e. ground (arith, e);
  matured_status = λ e. ground (arith, e);
  closed_status = λ e. ground (arith, e);
}

abbrev life : List LifeEvent
life = changed (some matured) ∷ set_paused true ∷ changed (some closed) ∷ removed ∷ []

run_life-IsSettled_example :
    (v' : Vault) × (vault_of 70 (run_life 70 life running) ≡ some v')
    × IsSettled v'
    × (v'.total_supply ≡ pos 100)
run_life-IsSettled_example = run_life-IsSettled 70 life running young refl young-IsSettled
