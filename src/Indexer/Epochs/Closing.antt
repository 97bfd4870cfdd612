-- ===== src/Indexer/Epochs/Closing.antt =====
-- The check with which a claim closes its epoch: when it closes it, and that it does so once.
use stellar_yield_contracts.Base.{
  ℕ, ◌+◌, ◌≡◌, ◌⊎◌, refl, ap, ◌∙◌, Bool, true, false, ◌&&◌, ◌||◌, Option, none, some, List, [], ◌∷◌,
  ◌++◌, arith, ◌==◌, ==_refl, update_where, inl, inr, Option-cases, Bool-cases, is_some,
  find-update_where_self, find-update_where_other, find_sound,
}
use stellar_yield_contracts.Base.Int.{ℤ, ltb_ℤ}
use stellar_yield_contracts.Indexer.Store.{
  Store, Vault, Epoch, vault_of, Notice, epoch_closed, vault_funded, fee_earned, epoch_recorded,
  user_deposit, user_withdraw, yield_distributed, position_update,
}
use stellar_yield_contracts.Indexer.Epochs.{
  YieldClaimed, is_epoch, epoch_of, epoch_at, claimed_amount, close, close_found,
  close_epoch_if_fully_claimed, claim, announce_closed, claim_from, handle_yield_claimed,
  process_claim,
}

pub announce_closed-same :
    (c epoch : ℕ) (r : Option ℤ) (s : Store)
    → ((announce_closed c epoch (r, s)).snapshots ≡ s.snapshots)
      × ((announce_closed c epoch (r, s)).positions ≡ s.positions)
      × ((announce_closed c epoch (r, s)).vaults ≡ s.vaults)
      × ((announce_closed c epoch (r, s)).epochs ≡ s.epochs)
      × ((announce_closed c epoch (r, s)).indexed_events ≡ s.indexed_events)
announce_closed-same c epoch none s = (refl, refl, refl, refl, refl)
announce_closed-same c epoch (some r) s = (refl, refl, refl, refl, refl)

-- The two outcomes of the closing check.
abbrev pub Outcome : ℕ → ℕ → ℕ → Epoch → Store → Type 0
Outcome now c epoch e s =
    ((is_some e.closed_at || ltb_ℤ (claimed_amount c epoch s.indexed_events) e.yield_amount ≡ true)
      × (close_epoch_if_fully_claimed now c epoch s ≡ (none, s)))
    ⊎ ((is_some e.closed_at ≡ false)
        × (ltb_ℤ (claimed_amount c epoch s.indexed_events) e.yield_amount ≡ false)
        × (close_epoch_if_fully_claimed now c epoch s ≡ (
          some e.yield_amount,
          record s { epochs = update_where (is_epoch e.vault_id epoch) (close now) s.epochs },
        )))

pub close_epoch-found :
    (now c epoch : ℕ) (s : Store) (v : Vault) (o : Option Epoch)
    → vault_of c s ≡ some v
    → epoch_of v.id epoch s ≡ o
    → close_epoch_if_fully_claimed now c epoch s ≡ close_found now c epoch o s
unfolding close_epoch_if_fully_claimed
close_epoch-found now c epoch s v o known row =
    ap (λ o. close_found now c epoch o s) (ap (λ o. epoch_at epoch o s) known ∙ row)

pub close_epoch-cases :
    (now c epoch : ℕ) (s : Store) (v : Vault) (e : Epoch)
    → vault_of c s ≡ some v
    → epoch_of v.id epoch s ≡ some e
    → Outcome now c epoch e s
close_epoch-cases now c epoch s v e known row =
    let found = close_epoch-found now c epoch s v (some e) known row in
    elim (Bool-cases
      (is_some e.closed_at || ltb_ℤ (claimed_amount c epoch s.indexed_events) e.yield_amount)) [
        | inl t ↦ inl (t, rw (found, t) refl)
        | inr f ↦ inr (ground (arith, f), ground (arith, f), rw (found, f) refl)
      ]

abbrev one_if : Bool → ℕ
one_if true = 1
one_if false = 0

-- How often the closing of an epoch is among the notices.
abbrev is_closing : ℕ → ℕ → Notice → Bool
is_closing c epoch (vault_funded k total target) = false
is_closing c epoch (fee_earned k e f n) = false
is_closing c epoch (epoch_recorded k e y) = false
is_closing c epoch (epoch_closed k e y) = k == c && e == epoch
is_closing c epoch (user_deposit k r n) = false
is_closing c epoch (user_withdraw k r n) = false
is_closing c epoch (yield_distributed e a) = false
is_closing c epoch (position_update u k x y) = false

abbrev pub closed_count : ℕ → ℕ → List Notice → ℕ
closed_count c epoch [] = 0
closed_count c epoch (n ∷ ns) = one_if (is_closing c epoch n) + closed_count c epoch ns

closed_count-append :
    (c epoch : ℕ) (ms : List Notice) (n : Notice)
    → closed_count c epoch (ms ++ n ∷ []) ≡ closed_count c epoch ms + one_if (is_closing c epoch n)
closed_count-append c epoch [] n = omega arith
closed_count-append c epoch (m ∷ ms) n = omega (arith, closed_count-append c epoch ms n)

-- The row of an epoch keeps its yield; it is closed at most once, with one notice; a closing date
-- stays.
abbrev pub ClosesOnce : ℕ → ℕ → ℕ → Epoch → Store → Store → Type 0
ClosesOnce c vault epoch e s t =
    (e' : Epoch) × (epoch_of vault epoch t ≡ some e')
    × (e'.yield_amount ≡ e.yield_amount)
    × (is_some e.closed_at ≡ true → e'.closed_at ≡ e.closed_at)
    × (closed_count c epoch t.notices + one_if (is_some e.closed_at)
        ≡ closed_count c epoch s.notices + one_if (is_some e'.closed_at))

close_same :
    (c k now : ℕ) (s : Store) (v : Vault) (e : Epoch) (amount : ℤ)
    → epoch_of v.id k s ≡ some e
    → is_some e.closed_at ≡ false
    → ClosesOnce c v.id k e s (
        announce_closed c k
          (some amount, record s { epochs = update_where (is_epoch v.id k) (close now) s.epochs }))
close_same c k now s v e amount row fresh = (
  close now e,
  find-update_where_self (is_epoch v.id k) (close now) s.epochs e (λ x h. h) row,
  refl,
  λ h. ground (arith, h, fresh),
  rw (closed_count-append c k s.notices (epoch_closed c k amount), ==_refl c, ==_refl k, fresh)
      (omega arith),
)

close_other :
    (c k epoch now : ℕ) (s : Store) (v : Vault) (e : Epoch) (amount : ℤ)
    → epoch_of v.id k s ≡ some e
    → epoch == k ≡ false
    → ClosesOnce c v.id k e s (
        announce_closed c epoch (
          some amount,
          record s { epochs = update_where (is_epoch v.id epoch) (close now) s.epochs },
        ))
close_other c k epoch now s v e amount row other = (
  e,
  find-update_where_other (is_epoch v.id epoch) (is_epoch v.id k) (close now) s.epochs
        (λ x h. ground (arith, h, other))
      ∙ row,
  refl,
  λ h. refl,
  rw (closed_count-append c k s.notices (epoch_closed c epoch amount), ==_refl c, other)
      (omega arith),
)

close_row :
    (c k epoch now : ℕ) (s : Store) (v : Vault) (e e₂ : Epoch)
    → epoch_of v.id k s ≡ some e
    → epoch_of v.id epoch s ≡ some e₂
    → is_some e₂.closed_at ≡ false
    → ClosesOnce c v.id k e s (
        announce_closed c epoch (
          some e₂.yield_amount,
          record s { epochs = update_where (is_epoch e₂.vault_id epoch) (close now) s.epochs },
        ))
close_row c k epoch now s v e e₂ row found fresh =
    let mine = find_sound (is_epoch v.id epoch) s.epochs e₂ found in
    let vault_same : e₂.vault_id ≡ v.id = ground (arith, mine) in
    elim (Bool-cases (epoch == k)) [
      | inl same ↦
          let at_k : epoch ≡ k = ground (arith, same) in
          let rows : e ≡ e₂ = ground (arith, row, found, at_k) in
          let open_row : is_some e.closed_at ≡ false =
            ap (λ (q : Epoch). is_some q.closed_at) rows ∙ fresh in
          rw (at_k, vault_same) (close_same c k now s v e e₂.yield_amount row open_row)
      | inr other ↦ rw vault_same (close_other c k epoch now s v e e₂.yield_amount row other)
    ]

close_epoch-ClosesOnce :
    (now c k epoch : ℕ) (s : Store) (v : Vault) (e : Epoch)
    → vault_of c s ≡ some v
    → epoch_of v.id k s ≡ some e
    → ClosesOnce c v.id k e s (announce_closed c epoch (close_epoch_if_fully_claimed now c epoch s))
close_epoch-ClosesOnce now c k epoch s v e known row = elim (Option-cases (epoch_of v.id epoch s)) [
  | inl missing ↦
      rw (close_epoch-found now c epoch s v none known missing) (e, row, refl, λ h. refl, refl)
  | inr (e₂, found) ↦ elim (close_epoch-cases now c epoch s v e₂ known found) [
    | inl (_, kept) ↦ rw kept (e, row, refl, λ h. refl, refl)
    | inr (fresh, _, closed) ↦ rw closed (close_row c k epoch now s v e e₂ row found fresh)
  ]
]

-- The claims of one vault's events, as they come.
pub record ClaimEvent : Type 0 where
  pub now : ℕ
  pub ledger : ℕ
  pub tx_hash : ℕ
  pub event_type : ℕ
  pub claimed : YieldClaimed

abbrev pub process_event : ℕ → ClaimEvent → Store → Store
process_event c x s = process_claim x.now c x.ledger x.tx_hash x.event_type x.claimed s

unfoldable pub process_claims : ℕ → List ClaimEvent → Store → Store
process_claims c [] s = s
process_claims c (x ∷ xs) s = process_claims c xs (process_event c x s)

pub handle_yield_claimed-known :
    (now c : ℕ) (y : YieldClaimed) (s : Store) (v : Vault)
    → vault_of c s ≡ some v
    → handle_yield_claimed now c y s
      ≡ announce_closed c y.epoch (close_epoch_if_fully_claimed now c y.epoch (claim y v s))
unfolding handle_yield_claimed
handle_yield_claimed-known now c y s v known =
    ap (λ (o : Option Vault). claim_from now c y o s) known

close_found-tables :
    (now c epoch : ℕ) (o : Option Epoch) (s : Store)
    → ((close_found now c epoch o s).1.snapshots ≡ s.snapshots)
      × ((close_found now c epoch o s).1.positions ≡ s.positions)
      × ((close_found now c epoch o s).1.vaults ≡ s.vaults)
      × ((close_found now c epoch o s).1.indexed_events ≡ s.indexed_events)
close_found-tables now c epoch none s = (refl, refl, refl, refl)
close_found-tables now c epoch (some e) s = ground arith

-- The tables that the closing check of a claim leaves as the claim's own statements left them.
pub handle_yield_claimed-tables :
    (now c : ℕ) (y : YieldClaimed) (s : Store) (v : Vault)
    → vault_of c s ≡ some v
    → ((handle_yield_claimed now c y s).snapshots ≡ (claim y v s).snapshots)
      × ((handle_yield_claimed now c y s).positions ≡ (claim y v s).positions)
      × ((handle_yield_claimed now c y s).vaults ≡ s.vaults)
      × ((handle_yield_claimed now c y s).indexed_events ≡ s.indexed_events)
unfolding claim close_epoch_if_fully_claimed
handle_yield_claimed-tables now c y s v known =
    let t = claim y v s in
    let o = epoch_at y.epoch (vault_of c t) t in
    let (snapshots, positions, vaults, events) = close_found-tables now c y.epoch o t in
    let (snapshots', positions', vaults', epochs', events') =
      announce_closed-same c y.epoch (close_found now c y.epoch o t).0
        (close_found now c y.epoch o t).1 in
    rw (handle_yield_claimed-known now c y s v known)
      (snapshots' ∙ snapshots, positions' ∙ positions, vaults' ∙ vaults, events' ∙ events)

process_event-ClosesOnce :
    (c k : ℕ) (x : ClaimEvent) (s : Store) (v : Vault) (e : Epoch)
    → vault_of c s ≡ some v
    → epoch_of v.id k s ≡ some e
    → ClosesOnce c v.id k e s (process_event c x s)
unfolding process_claim claim
process_event-ClosesOnce c k x s v e known row =
    rw (handle_yield_claimed-known x.now c x.claimed s v known)
      (close_epoch-ClosesOnce x.now c k x.claimed.epoch (claim x.claimed v s) v e known row)

process_event-vault :
    (c : ℕ) (x : ClaimEvent) (s : Store) (v : Vault)
    → vault_of c s ≡ some v
    → vault_of c (process_event c x s) ≡ some v
unfolding process_claim claim
process_event-vault c x s v known =
    let (snapshots, positions, vaults, events) =
      handle_yield_claimed-tables x.now c x.claimed s v known in
    rw vaults known

-- Over any sequence of claims of a known vault, each processed with its row of indexed_events, the
-- row of an epoch keeps its yield; the epoch_closed notices of the epoch grow by one when the row
-- goes from open to closed, and not otherwise; and a closed row keeps its closing time.
pub process_claims-ClosesOnce :
    (c k : ℕ) (xs : List ClaimEvent) (s : Store) (v : Vault) (e : Epoch)
    → vault_of c s ≡ some v
    → epoch_of v.id k s ≡ some e
    → ClosesOnce c v.id k e s (process_claims c xs s)
unfolding process_claims
process_claims-ClosesOnce c k [] s v e known row = (e, row, refl, λ h. refl, refl)
process_claims-ClosesOnce c k (x ∷ xs) s v e known row =
    let (e₁, row₁, yield₁, stays₁, count₁) = process_event-ClosesOnce c k x s v e known row in
    let (e₂, row₂, yield₂, stays₂, count₂) =
      process_claims-ClosesOnce c k xs (process_event c x s) v e₁
        (process_event-vault c x s v known) row₁ in
    (
      e₂,
      row₂,
      yield₂ ∙ yield₁,
      λ h. stays₂ (ap is_some (stays₁ h) ∙ h) ∙ stays₁ h,
      omega (arith, count₁, count₂),
    )
