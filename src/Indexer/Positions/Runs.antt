-- ===== src/Indexer/Positions/Runs.antt =====
-- Sequences of deposits and withdrawals of one vault, in the order in which they are processed.
use stellar_yield_contracts.Base.{ℕ, false, ◌≡◌, refl, ap, ◌∙◌, some, List, [], ◌∷◌}
use stellar_yield_contracts.Base.Int.{pos, eqb_ℤ, pos_part, neg_part, ◌+ℤ◌, ◌≤ℤ◌, int_laws}
use stellar_yield_contracts.Indexer.Store.{
  Store, Vault, Position, vault_of, position_of, matured, in_progress,
}
use stellar_yield_contracts.Indexer.Positions.{
  Deposit, Withdraw, handle_deposit, handle_withdraw, add_assets, burn, deposit_position,
  withdraw_position,
}
use stellar_yield_contracts.Indexer.Positions.Effects.{
  vault_of-handle_deposit, handle_deposit-rows, handle_withdraw-positions,
}
use stellar_yield_contracts.Indexer.Positions.Withdrawn.{refreshed, vault_of-handle_withdraw}
use stellar_yield_contracts.Indexer.Positions.Balances.{shares_in, shares_in-add, shares_in-take}

-- An event of the vault, with the time at which it is processed.
pub data Flow : Type 0 where
  inflow : ℕ → Deposit → Flow
  outflow : ℕ → Withdraw → Flow

abbrev pub apply_flow : ℕ → Flow → Store → Store
apply_flow c (inflow now d) s = handle_deposit now c d s
apply_flow c (outflow now w) s = handle_withdraw now c w s

pub run_flows : ℕ → List Flow → Store → Store
run_flows c [] s = s
run_flows c (f ∷ fs) s = run_flows c fs (apply_flow c f s)

-- A withdrawal takes no more than its owner's position holds.
abbrev IsCovered : ℕ → Flow → Store → Type 0
IsCovered vault (inflow now d) s = Unit {0}
IsCovered vault (outflow now w) s =
    (p : Position) × (position_of w.owner vault s ≡ some p) × (w.shares ≤ℤ p.shares)

abbrev pub AllCovered : ℕ → ℕ → List Flow → Store → Type 0
AllCovered c vault [] s = Unit {0}
AllCovered c vault (f ∷ fs) s = IsCovered vault f s × AllCovered c vault fs (apply_flow c f s)

-- The shares held and burned, against those minted: what a run leaves in balance.
abbrev pub KeepsBalance : ℕ → Vault → Store → Vault → Store → Type 0
KeepsBalance vault v s v' s' =
    shares_in vault s'.positions +ℤ v'.ever_burned +ℤ v.ever_minted
    ≡ shares_in vault s.positions +ℤ v.ever_burned +ℤ v'.ever_minted

-- What one event does to the vault's row.
flow_row : Flow → Vault → Vault
flow_row (inflow now d) v = add_assets (v.total_assets +ℤ d.assets) d v
flow_row (outflow now w) v = refreshed (burn w.shares v)

vault_of-apply_flow :
    (c : ℕ) (f : Flow) (s : Store) (v : Vault)
    → vault_of c s ≡ some v
    → vault_of c (apply_flow c f s) ≡ some (flow_row f v)
unfolding flow_row
vault_of-apply_flow c (inflow now d) s v known = vault_of-handle_deposit now c s v known d
vault_of-apply_flow c (outflow now w) s v known = vault_of-handle_withdraw now c w s v known

flow_row-id : (f : Flow) (v : Vault) → (flow_row f v).id ≡ v.id
unfolding flow_row add_assets
flow_row-id (inflow now d) v = refl
flow_row-id (outflow now w) v = refl

apply_flow-KeepsBalance :
    (c : ℕ) (f : Flow) (s : Store) (v : Vault)
    → vault_of c s ≡ some v
    → IsCovered v.id f s
    → KeepsBalance v.id v s (flow_row f v) (apply_flow c f s)
unfolding flow_row add_assets deposit_position withdraw_position
apply_flow-KeepsBalance c (inflow now d) s v known h =
    rw (handle_deposit-rows now c d s).1
      (rw (known, shares_in-add now d v.id s.positions) (omega int_laws))
apply_flow-KeepsBalance c (outflow now w) s v known (p, held, enough) =
    rw (handle_withdraw-positions now c w s)
      (rw (known, shares_in-take now w v.id s.positions p held enough) (omega int_laws))

-- Two runs that keep the balance of the same vault, one after the other.
KeepsBalance-trans :
    (vault : ℕ) (u v w : Vault) (s t r : Store)
    → KeepsBalance vault u s v t
    → KeepsBalance vault v t w r
    → KeepsBalance vault u s w r
KeepsBalance-trans vault u v w s t r h k =
    omega (int_laws, ap pos_part h, ap neg_part h, ap pos_part k, ap neg_part k)

-- Over any sequence of deposits and withdrawals of a known vault in which each withdrawal is
-- covered by its owner's position, the shares held in the vault's positions change by exactly the
-- shares minted less the shares burned.
pub run_flows-KeepsBalance :
    (c : ℕ) (fs : List Flow) (s : Store) (v : Vault)
    → vault_of c s ≡ some v
    → AllCovered c v.id fs s
    → (v' : Vault) × (vault_of c (run_flows c fs s) ≡ some v')
      × (v'.id ≡ v.id)
      × KeepsBalance v.id v s v' (run_flows c fs s)
unfolding run_flows
run_flows-KeepsBalance c [] s v known h = (v, known, refl, refl)
run_flows-KeepsBalance c (f ∷ fs) s v known (here, later) =
    let row = vault_of-apply_flow c f s v known in
    let same = flow_row-id f v in
    let first = apply_flow-KeepsBalance c f s v known here in
    let (v', found, id, rest) =
      run_flows-KeepsBalance c fs (apply_flow c f s) (flow_row f v) row (rw same later) in
    (
      v',
      found,
      id ∙ same,
      KeepsBalance-trans v.id v (flow_row f v) v' s (apply_flow c f s)
          (run_flows c fs (apply_flow c f s)) first (rw same at rest),
    )

flow_row-supply :
    (f : Flow) (v : Vault)
    → ((flow_row f v).total_supply ≡ v.total_supply) × ((flow_row f v).state ≡ v.state)
unfolding flow_row add_assets
flow_row-supply (inflow now d) v = (refl, refl)
flow_row-supply (outflow now w) v = (refl, refl)

run_flows-supply :
    (c : ℕ) (fs : List Flow) (s : Store) (v : Vault)
    → vault_of c s ≡ some v
    → (v' : Vault) × (vault_of c (run_flows c fs s) ≡ some v')
      × (v'.total_supply ≡ v.total_supply)
      × (v'.state ≡ v.state)
unfolding run_flows
run_flows-supply c [] s v known = (v, known, refl, refl)
run_flows-supply c (f ∷ fs) s v known =
    let (supply, state) = flow_row-supply f v in
    let (v', found, e, k) =
      run_flows-supply c fs (apply_flow c f s) (flow_row f v) (vault_of-apply_flow c f s v known) in
    (v', found, e ∙ supply, k ∙ state)

-- Whatever was deposited and withdrawn before, a withdrawal from a matured vault whose stored
-- supply was not zero at the start leaves its settlement status at in_progress: no sequence of
-- withdrawals, even of every share, makes it complete.
pub handle_withdraw-in_progress :
    (c now : ℕ) (fs : List Flow) (w : Withdraw) (s : Store) (v : Vault)
    → vault_of c s ≡ some v
    → v.state ≡ matured
    → eqb_ℤ v.total_supply (pos 0) ≡ false
    → (v' : Vault) × (vault_of c (handle_withdraw now c w (run_flows c fs s)) ≡ some v')
      × (v'.settlement_status ≡ some in_progress)
handle_withdraw-in_progress c now fs w s v known m supply =
    let (u, found, same_supply, same_state) = run_flows-supply c fs s v known in
    (
      refreshed (burn w.shares u),
      vault_of-handle_withdraw now c w (run_flows c fs s) u found,
      rw (same_state, m, same_supply, supply),
    )
