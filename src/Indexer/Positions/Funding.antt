-- ===== src/Indexer/Positions/Funding.antt =====
-- The `vault.funded` notification of `handleDeposit`.
use stellar_yield_contracts.Base.{
  ℕ, ◌+◌, ◌≡◌, ◌∙◌, ap, Bool, true, false, some, List, [], ◌∷◌, ◌++◌, arith, ◌==◌, All, ==_refl,
  ◌⊎◌, inl, inr, Bool-cases,
}
use stellar_yield_contracts.Base.Int.{ltb_ℤ, leb_ℤ, ℤ, pos, ◌+ℤ◌, ◌≤ℤ◌, int_laws, +ℤ_parts}
use stellar_yield_contracts.Indexer.Store.{
  Store, Vault, Notice, vault_funded, fee_earned, epoch_recorded, epoch_closed, user_deposit,
  user_withdraw, yield_distributed, position_update, vault_of, update_vault, record_tvl_snapshot,
  record_tvl,
}
use stellar_yield_contracts.Indexer.Positions.{
  Deposit, handle_deposit, crosses_target, announce_funded, add_assets, deposit_position,
}
use stellar_yield_contracts.Indexer.Positions.Effects.{
  record_tvl-frame, deposit_position-frame, vault_of-handle_deposit,
}

abbrev pub count_one : Bool → ℕ
count_one true = 1
count_one false = 0

-- How many `vault.funded` notifications of the vault there are.
abbrev is_funded : ℕ → Notice → Bool
is_funded c (vault_funded k total target) = k == c
is_funded c (fee_earned k e f n) = false
is_funded c (epoch_recorded k e y) = false
is_funded c (epoch_closed k e y) = false
is_funded c (user_deposit k r n) = false
is_funded c (user_withdraw k r n) = false
is_funded c (yield_distributed e a) = false
is_funded c (position_update u k x y) = false

abbrev pub funded_count : ℕ → List Notice → ℕ
funded_count c [] = 0
funded_count c (n ∷ ns) = count_one (is_funded c n) + funded_count c ns

funded_count-append :
    (c : ℕ) (ms : List Notice) (n : Notice)
    → funded_count c (ms ++ n ∷ []) ≡ funded_count c ms + count_one (is_funded c n)
funded_count-append c [] n = omega arith
funded_count-append c (m ∷ ms) n = omega (arith, funded_count-append c ms n)

announce-count :
    (c : ℕ) (new target : ℤ) (funded : Bool) (s : Store)
    → funded_count c (announce_funded c new (some target) funded s).notices
      ≡ funded_count c s.notices + count_one funded
announce-count c new target true s =
    funded_count-append c s.notices (vault_funded c new target)
    ∙ ap (λ b. funded_count c s.notices + count_one b) (==_refl c)
announce-count c new target false s = omega arith

-- The deposits into one vault, each with the time at which it is processed.
abbrev pub Deposits : Type 0
Deposits = List (ℕ × Deposit)

pub run_deposits : ℕ → Deposits → Store → Store
run_deposits c [] s = s
run_deposits c ((now, d) ∷ ds) s = run_deposits c ds (handle_deposit now c d s)

abbrev pub deposited_total : Deposits → ℤ
deposited_total [] = pos 0
deposited_total ((now, d) ∷ ds) = d.assets +ℤ deposited_total ds

handle_deposit-count :
    (now c : ℕ) (d : Deposit) (s : Store) (v : Vault) (target : ℤ)
    → vault_of c s ≡ some v
    → v.funding_target ≡ some target
    → funded_count c (handle_deposit now c d s).notices
      ≡ funded_count c s.notices
        + count_one (crosses_target (some target) v.total_assets (v.total_assets +ℤ d.assets))
unfolding handle_deposit record_tvl_snapshot
handle_deposit-count now c d s v target known e =
    let s₁ = deposit_position now d (vault_of c s) s in
    let (same_vaults, same_notices) = deposit_position-frame now d (vault_of c s) s in
    let row : vault_of c s₁ ≡ some v = rw same_vaults known in
    let new = v.total_assets +ℤ d.assets in
    let s₂ = update_vault c (add_assets new d) s₁ in
    let s₃ = record_tvl (vault_of c s₂) s₂ in
    let b = crosses_target (some target) v.total_assets new in
    rw (row, e)
      (announce-count c new target b s₃
        ∙ ap (λ ns. funded_count c ns + count_one b)
            ((record_tvl-frame (vault_of c s₂) s₂).2 ∙ same_notices))

-- A rise that is split in two crosses the target once or not at all, in one of its parts.
crosses_target-split :
    (target a x y : ℤ)
    → pos 0 ≤ℤ x
    → pos 0 ≤ℤ y
    → count_one (crosses_target (some target) a (a +ℤ x))
        + count_one (crosses_target (some target) (a +ℤ x) (a +ℤ x +ℤ y))
      ≡ count_one (crosses_target (some target) a (a +ℤ (x +ℤ y)))
unfolding crosses_target
crosses_target-split target a x y h k =
    ground (arith, +ℤ_parts a x, +ℤ_parts x y, +ℤ_parts (a +ℤ x) y, +ℤ_parts a (x +ℤ y))

crosses_target-same : (target a : ℤ) → count_one (crosses_target (some target) a (a +ℤ pos 0)) ≡ 0
unfolding crosses_target
crosses_target-same target a = ground (arith, +ℤ_parts a (pos 0))

deposited_total_nonneg :
    (ds : Deposits) → All (λ e. pos 0 ≤ℤ e.1.assets) ds → pos 0 ≤ℤ deposited_total ds
deposited_total_nonneg [] h = omega arith
deposited_total_nonneg ((now, d) ∷ ds) (p, h) = omega (int_laws, deposited_total_nonneg ds h)

-- The target is positive, and the assets start below it and end at or above it.
abbrev pub IsReached : ℤ → ℤ → ℤ → Type 0
IsReached target start end = (pos 1 ≤ℤ target) × (start +ℤ pos 1 ≤ℤ target) × (target ≤ℤ end)

abbrev pub IsNotReached : ℤ → ℤ → ℤ → Type 0
IsNotReached target start end = (target ≤ℤ pos 0) ⊎ ((target ≤ℤ start) ⊎ (end +ℤ pos 1 ≤ℤ target))

crosses_target-cases :
    (target a b : ℤ)
    → (IsReached target a b × (count_one (crosses_target (some target) a b) ≡ 1))
      ⊎ (IsNotReached target a b × (count_one (crosses_target (some target) a b) ≡ 0))
unfolding crosses_target
crosses_target-cases target a b = elim (Bool-cases (ltb_ℤ (pos 0) target)) [
  | inr none_asked ↦ inr (inl (ground (arith, none_asked)), ground (arith, none_asked))
  | inl asked ↦ elim (Bool-cases (ltb_ℤ a target)) [
    | inr before ↦ inr (inr (inl (ground (arith, before))), ground (arith, asked, before))
    | inl below ↦ elim (Bool-cases (leb_ℤ target b)) [
      | inr short ↦ inr (
        inr (inr (ground (arith, short, +ℤ_parts b (pos 1)))),
        ground (arith, asked, below, short),
      )
      | inl there ↦ inl (
        (ground (arith, asked), ground (arith, below, +ℤ_parts a (pos 1)), ground (arith, there)),
        ground (arith, asked, below, there),
      )
    ]
  ]
]

run_deposits-crosses_target :
    (c : ℕ) (ds : Deposits) (s : Store) (v : Vault) (target : ℤ)
    → vault_of c s ≡ some v
    → v.funding_target ≡ some target
    → All (λ e. pos 0 ≤ℤ e.1.assets) ds
    → funded_count c (run_deposits c ds s).notices
      ≡ funded_count c s.notices
        + count_one
            (crosses_target (some target) v.total_assets (v.total_assets +ℤ deposited_total ds))
unfolding run_deposits add_assets
run_deposits-crosses_target c [] s v target known e h =
    omega (arith, crosses_target-same target v.total_assets)
run_deposits-crosses_target c ((now, d) ∷ ds) s v target known e (p, h) =
    let v' = add_assets (v.total_assets +ℤ d.assets) d v in
    omega (
      arith,
      handle_deposit-count now c d s v target known e,
      run_deposits-crosses_target c ds (handle_deposit now c d s) v' target
          (vault_of-handle_deposit now c s v known d) e h,
      crosses_target-split target v.total_assets d.assets (deposited_total ds) p
          (deposited_total_nonneg ds h),
    )

-- Over any sequence of deposits of nonnegative assets into a known vault with a funding target,
-- vault.funded is sent once if the total starts below a positive target and ends at or above it,
-- and otherwise not at all.
pub run_deposits-funded_count :
    (c : ℕ) (ds : Deposits) (s : Store) (v : Vault) (target : ℤ)
    → vault_of c s ≡ some v
    → v.funding_target ≡ some target
    → All (λ e. pos 0 ≤ℤ e.1.assets) ds
    → let end = v.total_assets +ℤ deposited_total ds in
      let before = funded_count c s.notices in
      let after = funded_count c (run_deposits c ds s).notices in
      (IsReached target v.total_assets end × (after ≡ before + 1))
      ⊎ (IsNotReached target v.total_assets end × (after ≡ before))
run_deposits-funded_count c ds s v target known e h =
    let count = run_deposits-crosses_target c ds s v target known e h in
    elim (crosses_target-cases target v.total_assets (v.total_assets +ℤ deposited_total ds)) [
      | inl (reached, once) ↦ inl (reached, omega (arith, count, once))
      | inr (missed, never) ↦ inr (missed, omega (arith, count, never))
    ]
