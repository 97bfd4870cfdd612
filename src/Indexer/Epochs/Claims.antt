-- ===== src/Indexer/Epochs/Claims.antt =====
-- A claim's effect on the user's rows, and what its own row comes too late for.
use stellar_yield_contracts.Base.{
  ℕ, ◌≡◌, refl, ◌∙◌, sym, Bool, true, false, Option, none, some, List, [], ◌∷◌, arith, ==_refl,
  find, insert_new, update_where, inl, inr, Option-cases, max, find-insert_new_fresh,
  find-insert_new_found, find-update_where_self, insert_new_present, find-insert_new_present,
  is_some, if◌then◌else◌,
}
use stellar_yield_contracts.Base.Int.{ℤ, pos, ltb_ℤ, ◌+ℤ◌, zero-+ℤ, +ℤ_assoc, +ℤ_comm}
use stellar_yield_contracts.Indexer.Store.{
  Store, Vault, Position, Snapshot, Epoch, IndexedEvent, vault_of, position_of, is_position,
}
use stellar_yield_contracts.Indexer.Epochs.{
  YieldClaimed, epoch_of, is_snapshot, snapshot, claimed_amount, close_epoch_if_fully_claimed,
  add_claim, raise_claimed, claim, handle_yield_claimed, has_position, claim_row, process_claim,
}
use stellar_yield_contracts.Indexer.Epochs.Closing.{
  close_epoch-cases, handle_yield_claimed-known, handle_yield_claimed-tables,
}

-- What a user has claimed of an epoch so far, and the shares that the snapshot holds.
abbrev pub claimed_so_far : Option Snapshot → ℤ
claimed_so_far none = pos 0
claimed_so_far (some r) = r.cumulative_yield_claimed

abbrev pub snapshot_shares : Option Snapshot → ℤ
snapshot_shares none = pos 0
snapshot_shares (some r) = r.shares

add_claim-find :
    (p : Snapshot → Bool) (row : Snapshot) (amount : ℤ) (rs : List Snapshot)
    → p row ≡ true
    → row.cumulative_yield_claimed ≡ pos 0
    → row.shares ≡ pos 0
    → ((r : Snapshot) → p r ≡ true → p (add_claim amount r) ≡ true)
    → (r : Snapshot) × (find p (update_where p (add_claim amount) (insert_new p row rs)) ≡ some r)
      × (r.cumulative_yield_claimed ≡ claimed_so_far (find p rs) +ℤ amount)
      × (r.shares ≡ snapshot_shares (find p rs))
add_claim-find p row amount rs hit none_claimed no_shares keep = elim (Option-cases (find p rs)) [
  | inl missing ↦ (
    add_claim amount row,
    find-update_where_self p (add_claim amount) _ row keep
        (find-insert_new_fresh p row rs hit missing),
    rw (missing, none_claimed) refl,
    rw (missing, no_shares) refl,
  )
  | inr (r, found) ↦ (
    add_claim amount r,
    find-update_where_self p (add_claim amount) _ r keep (find-insert_new_found p p row rs r found),
    rw found refl,
    rw found refl,
  )
]

-- A claim of a known vault adds its amount to what the user has claimed of the epoch, in a snapshot
-- with no shares where there was none, and raises the last claimed epoch of the user's position to
-- the claim's epoch if it was lower.
pub handle_yield_claimed-adds :
    (now c : ℕ) (y : YieldClaimed) (s : Store) (v : Vault) (p : Position)
    → vault_of c s ≡ some v
    → position_of y.user v.id s ≡ some p
    → let t = handle_yield_claimed now c y s in
      let before = find (is_snapshot y.user v.id y.epoch) s.snapshots in
      ((r : Snapshot) × (find (is_snapshot y.user v.id y.epoch) t.snapshots ≡ some r)
        × (r.cumulative_yield_claimed ≡ claimed_so_far before +ℤ y.amount)
        × (r.shares ≡ snapshot_shares before))
      × (position_of y.user v.id t
          ≡ some (record p { last_claimed_epoch = max p.last_claimed_epoch y.epoch }))
unfolding claim
handle_yield_claimed-adds now c y s v p known mine =
    let (snapshots, positions, vaults, events) = handle_yield_claimed-tables now c y s v known in
    rw (snapshots, positions)
      (
        add_claim-find (is_snapshot y.user v.id y.epoch) (snapshot y.user v.id y.epoch (pos 0))
            y.amount s.snapshots (ground arith) refl refl (λ r h. h),
        find-update_where_self (is_position y.user v.id) (raise_claimed y.epoch) s.positions p
            (λ r h. h) mine,
      )

claimed_amount-insert :
    (c epoch : ℕ) (p : IndexedEvent → Bool) (row : IndexedEvent) (es : List IndexedEvent)
    → find p es ≡ none
    → claimed_amount c epoch (insert_new p row es)
      ≡ claimed_amount c epoch es +ℤ claimed_amount c epoch (row ∷ [])
unfolding claimed_amount
claimed_amount-insert c epoch p row [] h = sym (zero-+ℤ _)
claimed_amount-insert c epoch p row (e ∷ es) h =
    let miss : p e ≡ false = ground (arith, h) in
    let rest = claimed_amount-insert c epoch p row es (ground (arith, h)) in
    rw (miss, rest) (sym (+ℤ_assoc _ _ _))

claimed_amount-claim_row :
    (c ledger tx_hash event_type : ℕ) (y : YieldClaimed)
    → claimed_amount c y.epoch (claim_row c ledger tx_hash event_type y ∷ []) ≡ y.amount
unfolding claimed_amount
claimed_amount-claim_row c ledger tx_hash event_type y =
    rw (==_refl c, ==_refl y.epoch) (+ℤ_comm y.amount (pos 0) ∙ zero-+ℤ y.amount)

-- The row of a claim is added, unless its position in the ledger is taken.
claimed_amount-recorded :
    (c ledger tx_hash event_type : ℕ) (y : YieldClaimed) (es : List IndexedEvent)
    → claimed_amount c y.epoch
        (insert_new (has_position c ledger 0 0) (claim_row c ledger tx_hash event_type y) es)
      ≡ (if is_some (find (has_position c ledger 0 0) es)
          then claimed_amount c y.epoch es
          else claimed_amount c y.epoch es +ℤ y.amount)
claimed_amount-recorded c ledger tx_hash event_type y es =
    elim (Option-cases (find (has_position c ledger 0 0) es)) [
      | inl free ↦
          rw
            (
              free,
              claimed_amount-insert c y.epoch (has_position c ledger 0 0) _ es free,
              claimed_amount-claim_row c ledger tx_hash event_type y,
            )
            refl
      | inr (r, taken) ↦
          rw
            (
              insert_new_present (has_position c ledger 0 0)
                  (claim_row c ledger tx_hash event_type y) es (rw taken refl),
              taken,
            )
            refl
    ]

close_epoch-short :
    (now c epoch : ℕ) (s : Store) (v : Vault) (e : Epoch)
    → vault_of c s ≡ some v
    → epoch_of v.id epoch s ≡ some e
    → ltb_ℤ (claimed_amount c epoch s.indexed_events) e.yield_amount ≡ true
    → close_epoch_if_fully_claimed now c epoch s ≡ (none, s)
close_epoch-short now c epoch s v e known row short =
    elim (close_epoch-cases now c epoch s v e known row) [
      | inl (_, kept) ↦ kept
      | inr (_, enough, _) ↦ cc
    ]

-- The claim that completes an epoch does not close it: when the claims recorded before fall short of
-- the yield, processing a claim leaves the epochs as they were. The recorded claims grow by its amount,
-- whatever that is, or stay where an event of the vault is recorded already at the position that every
-- claim of the ledger has.
pub process_claim-epochs :
    (now c ledger tx_hash event_type : ℕ) (y : YieldClaimed) (s : Store) (v : Vault) (e : Epoch)
    → vault_of c s ≡ some v
    → epoch_of v.id y.epoch s ≡ some e
    → ltb_ℤ (claimed_amount c y.epoch s.indexed_events) e.yield_amount ≡ true
    → let t = process_claim now c ledger tx_hash event_type y s in
      (t.epochs ≡ s.epochs)
      × (claimed_amount c y.epoch t.indexed_events ≡ (
          if is_some (find (has_position c ledger 0 0) s.indexed_events)
          then claimed_amount c y.epoch s.indexed_events
          else claimed_amount c y.epoch s.indexed_events +ℤ y.amount))
unfolding process_claim claim
process_claim-epochs now c ledger tx_hash event_type y s v e known row short =
    let (snapshots, positions, vaults, events) = handle_yield_claimed-tables now c y s v known in
    (
      rw
          (
            handle_yield_claimed-known now c y s v known,
            close_epoch-short now c y.epoch (claim y v s) v e known row short,
          )
          refl,
      rw events (claimed_amount-recorded c ledger tx_hash event_type y s.indexed_events),
    )

-- Of the claims of one vault in one ledger only the first is recorded: after a claim of a known
-- vault has been processed, processing another claim of the same ledger leaves indexed_events, and
-- with it the recorded claims of every epoch, as they were.
pub process_claim-same_ledger :
    (now now' c ledger tx_hash tx_hash' event_type event_type' : ℕ) (y y' : YieldClaimed)
    (s : Store) (v : Vault)
    → vault_of c s ≡ some v
    → let t = process_claim now c ledger tx_hash event_type y s in
      (process_claim now' c ledger tx_hash' event_type' y' t).indexed_events ≡ t.indexed_events
unfolding process_claim
process_claim-same_ledger now now' c ledger tx_hash tx_hash' event_type event_type' y y' s v known =
    let (snapshots, positions, vaults, events) = handle_yield_claimed-tables now c y s v known in
    let t = process_claim now c ledger tx_hash event_type y s in
    let (snapshots', positions', vaults', events') =
      handle_yield_claimed-tables now' c y' t v (rw vaults known) in
    rw events' (
      insert_new_present (has_position c ledger 0 0) (claim_row c ledger tx_hash' event_type' y') _
        (find-insert_new_present (has_position c ledger 0 0)
          (claim_row c ledger tx_hash event_type y) _ (rw (==_refl c, ==_refl ledger) refl)))
