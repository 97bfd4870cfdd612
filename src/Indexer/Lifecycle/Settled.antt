-- ===== src/Indexer/Lifecycle/Settled.antt =====
-- What the life of a vault keeps, and what cancelling its funding erases.
use stellar_yield_contracts.Base.{
  ℕ, ◌≡◌, refl, ◌∙◌, Bool, true, Option, none, some, List, [], ◌∷◌, arith, find-upsert_self,
  ==_refl,
}
use stellar_yield_contracts.Base.Int.{ℤ, pos}
use stellar_yield_contracts.Indexer.Store.{
  Store, Vault, VaultState, funding, active, matured, closed, cancelled, other, not_started,
  complete, has_contract, vault_of,
}
use stellar_yield_contracts.Indexer.Positions.Effects.{vault_of-update_self}
use stellar_yield_contracts.Indexer.Lifecycle.{
  VaultUpsert, new_vault, overwrite, upsert_vault, handle_cancel_funding, enter_state,
  handle_vault_state_changed, handle_vault_removed, handle_pause_state,
}

abbrev cancelling : ℕ → VaultUpsert
cancelling c = record {
  contract_id = c;
  state = cancelled;
  total_assets = pos 0;
  total_supply = pos 0;
  funding_target = none;
}

-- Cancelling the funding of a known vault sets its state, and sets its total assets and its total supply to
-- 0 whatever they were; the rest of its row stays.
pub handle_cancel_funding-erases :
    (id c : ℕ) (s : Store) (v : Vault)
    → vault_of c s ≡ some v
    → vault_of c (handle_cancel_funding id c s)
      ≡ some (record v { state = cancelled; total_assets = pos 0; total_supply = pos 0 })
unfolding handle_cancel_funding upsert_vault
handle_cancel_funding-erases id c s v known =
    find-upsert_self (has_contract c) (new_vault id (cancelling c)) (overwrite (cancelling c))
      s.vaults (==_refl c) (λ r h. h)
    ∙ rw known refl

-- The events of one vault that change its row, but for its deposits and withdrawals.
pub data LifeEvent : Type 0 where
  changed : Option VaultState → LifeEvent
  removed : LifeEvent
  set_paused : Bool → LifeEvent

abbrev pub apply_life : ℕ → LifeEvent → Store → Store
apply_life c (changed new_state) s = handle_vault_state_changed c new_state s
apply_life c removed s = handle_vault_removed c s
apply_life c (set_paused paused) s = handle_pause_state c paused s

unfoldable pub run_life : ℕ → List LifeEvent → Store → Store
run_life c [] s = s
run_life c (e ∷ es) s = run_life c es (apply_life c e s)

-- A vault whose supply at maturity was recorded has it recorded at its present supply, and a matured or
-- closed vault has a settlement status.
pub record IsSettled (v : Vault) : Type 0 where
  pub frozen : (n : ℤ) → v.supply_at_maturity ≡ some n → n ≡ v.total_supply
  pub matured_status : v.state ≡ matured → v.settlement_status ≡ some not_started
  pub closed_status : v.state ≡ closed → v.settlement_status ≡ some complete

enter_state-IsSettled :
    (new_state : VaultState) (v : Vault)
    → IsSettled v
    → IsSettled (enter_state new_state v)
      × ((enter_state new_state v).total_supply ≡ v.total_supply)
enter_state-IsSettled matured v h = (
  record {
    frozen = λ n e. ground (arith, e);
    matured_status = λ e. refl;
    closed_status = λ e. ground (arith, e);
  },
  refl,
)
enter_state-IsSettled closed v h = (
  record { frozen = h.frozen; matured_status = λ e. ground (arith, e); closed_status = λ e. refl },
  refl,
)
enter_state-IsSettled funding v h = (
  record {
    frozen = h.frozen;
    matured_status = λ e. ground (arith, e);
    closed_status = λ e. ground (arith, e);
  },
  refl,
)
enter_state-IsSettled active v h = (
  record {
    frozen = h.frozen;
    matured_status = λ e. ground (arith, e);
    closed_status = λ e. ground (arith, e);
  },
  refl,
)
enter_state-IsSettled cancelled v h = (
  record {
    frozen = h.frozen;
    matured_status = λ e. ground (arith, e);
    closed_status = λ e. ground (arith, e);
  },
  refl,
)
enter_state-IsSettled (other k) v h = (
  record {
    frozen = h.frozen;
    matured_status = λ e. ground (arith, e);
    closed_status = λ e. ground (arith, e);
  },
  refl,
)

-- The row after one event.
abbrev life_row : LifeEvent → Vault → Vault
life_row (changed none) v = v
life_row (changed (some new_state)) v = enter_state new_state v
life_row removed v = record v { archived = true }
life_row (set_paused paused) v = record v { paused = paused }

enter_state-contract :
    (new_state : VaultState) (v : Vault) → (enter_state new_state v).contract_id ≡ v.contract_id
enter_state-contract matured v = refl
enter_state-contract closed v = refl
enter_state-contract funding v = refl
enter_state-contract active v = refl
enter_state-contract cancelled v = refl
enter_state-contract (other k) v = refl

vault_of-apply_life :
    (c : ℕ) (e : LifeEvent) (s : Store) (v : Vault)
    → vault_of c s ≡ some v
    → vault_of c (apply_life c e s) ≡ some (life_row e v)
unfolding handle_vault_state_changed handle_vault_removed handle_pause_state
vault_of-apply_life c (changed none) s v known = known
vault_of-apply_life c (changed (some new_state)) s v known =
    vault_of-update_self c (enter_state new_state) s v (λ r. enter_state-contract new_state r) known
vault_of-apply_life c removed s v known = vault_of-update_self c _ s v (λ r. refl) known
vault_of-apply_life c (set_paused paused) s v known = vault_of-update_self c _ s v (λ r. refl) known

life_row-IsSettled :
    (e : LifeEvent) (v : Vault)
    → IsSettled v
    → IsSettled (life_row e v) × ((life_row e v).total_supply ≡ v.total_supply)
life_row-IsSettled (changed none) v h = (h, refl)
life_row-IsSettled (changed (some new_state)) v h = enter_state-IsSettled new_state v h
life_row-IsSettled removed v h = (
  record { frozen = h.frozen; matured_status = h.matured_status; closed_status = h.closed_status },
  refl,
)
life_row-IsSettled (set_paused paused) v h = (
  record { frozen = h.frozen; matured_status = h.matured_status; closed_status = h.closed_status },
  refl,
)

-- Over any sequence of state changes, removals, pauses and resumptions of a known vault, a recorded supply
-- at maturity is the vault's supply, a matured vault's settlement has not started and a closed vault's is
-- complete, if this held at the start; and the supply does not change.
pub run_life-IsSettled :
    (c : ℕ) (es : List LifeEvent) (s : Store) (v : Vault)
    → vault_of c s ≡ some v
    → IsSettled v
    → (v' : Vault) × (vault_of c (run_life c es s) ≡ some v')
      × IsSettled v'
      × (v'.total_supply ≡ v.total_supply)
unfolding run_life
run_life-IsSettled c [] s v known h = (v, known, h, refl)
run_life-IsSettled c (e ∷ es) s v known h =
    let (settled, supply) = life_row-IsSettled e v h in
    let (v', found, rest, same) =
      run_life-IsSettled c es (apply_life c e s) (life_row e v) (vault_of-apply_life c e s v known)
        settled in
    (v', found, rest, same ∙ supply)
