-- ===== src/Indexer/Epochs/Replay.antt =====
-- A `yield_distributed` event handled once and handled twice: the epoch's row and the snapshots of
-- the holders.
use stellar_yield_contracts.Base.{
  ℕ, ◌≡◌, refl, ap, ◌∙◌, Bool, true, false, ◌&&◌, Option, none, some, List, [], ◌∷◌, ◌++◌, arith,
  ◌==◌, find, insert_new, inl, inr, Bool-cases, is_some, All, find-insert_new_fresh,
  find-insert_new_found, find-insert_new_other, find-insert_new_present, find-insert_new_keeps,
  insert_new_present,
}
use stellar_yield_contracts.Base.Int.{ℤ, pos, ltb_ℤ}
use stellar_yield_contracts.Indexer.Store.{
  Store, Vault, Position, Snapshot, vault_of, position_of, is_position, record_tvl_snapshot,
  record_tvl, fee_earned, epoch_recorded,
}
use stellar_yield_contracts.Indexer.Epochs.{
  YieldDistributed, split_fee, is_epoch, epoch_of, new_epoch, is_snapshot, snapshot,
  snapshot_holders, distribute, distribute_to, handle_yield_distributed,
}

abbrev holds : ℕ → Position → Bool
holds vault p = p.vault_id == vault && ltb_ℤ (pos 0) p.shares

abbrev pub Covered : ℕ → ℕ → List Snapshot → Position → Type 0
Covered vault epoch rows p =
    holds vault p ≡ true → is_some (find (is_snapshot p.user_address vault epoch) rows) ≡ true

is_snapshot_self :
    (user vault epoch : ℕ) (shares : ℤ)
    → is_snapshot user vault epoch (snapshot user vault epoch shares) ≡ true
is_snapshot_self user vault epoch shares = ground arith

snapshot_holders_keeps :
    (vault epoch : ℕ) (ps : List Position) (rows : List Snapshot) (q : Snapshot → Bool)
    → is_some (find q rows) ≡ true
    → is_some (find q (snapshot_holders vault epoch ps rows)) ≡ true
unfolding snapshot_holders
snapshot_holders_keeps vault epoch [] rows q h = h
snapshot_holders_keeps vault epoch (p ∷ ps) rows q h = elim (Bool-cases (holds vault p)) [
  | inl held ↦
      rw held (snapshot_holders_keeps vault epoch ps _ q (find-insert_new_keeps _ q _ rows h))
  | inr free ↦ rw free (snapshot_holders_keeps vault epoch ps rows q h)
]

snapshot_holders_covers :
    (vault epoch : ℕ) (ps : List Position) (rows : List Snapshot)
    → All (Covered vault epoch (snapshot_holders vault epoch ps rows)) ps
unfolding snapshot_holders
snapshot_holders_covers vault epoch [] rows = tt
snapshot_holders_covers vault epoch (p ∷ ps) rows = elim (Bool-cases (holds vault p)) [
  | inl held ↦ (
    rw held (λ h.
        snapshot_holders_keeps vault epoch ps _ _ (
          find-insert_new_present _ _ rows (is_snapshot_self p.user_address vault epoch p.shares))),
    snapshot_holders_covers vault epoch ps _,
  )
  | inr free ↦ (λ h. ground (arith, h, free), snapshot_holders_covers vault epoch ps _)
]

snapshot_holders-Covered :
    (vault epoch : ℕ) (ps : List Position) (rows : List Snapshot)
    → All (Covered vault epoch rows) ps
    → snapshot_holders vault epoch ps rows ≡ rows
unfolding snapshot_holders
snapshot_holders-Covered vault epoch [] rows h = refl
snapshot_holders-Covered vault epoch (p ∷ ps) rows (here, later) =
    elim (Bool-cases (holds vault p)) [
      | inl held ↦
          rw
            (
              held,
              insert_new_present _ (snapshot p.user_address vault epoch p.shares) rows (here held),
            )
            (snapshot_holders-Covered vault epoch ps rows later)
      | inr free ↦ rw free (snapshot_holders-Covered vault epoch ps rows later)
    ]

snapshot_holders_found :
    (vault epoch : ℕ) (ps : List Position) (rows : List Snapshot) (q : Snapshot → Bool)
    (r : Snapshot)
    → find q rows ≡ some r
    → find q (snapshot_holders vault epoch ps rows) ≡ some r
unfolding snapshot_holders
snapshot_holders_found vault epoch [] rows q r h = h
snapshot_holders_found vault epoch (p ∷ ps) rows q r h = elim (Bool-cases (holds vault p)) [
  | inl held ↦
      rw held (snapshot_holders_found vault epoch ps _ q r (find-insert_new_found _ q _ rows r h))
  | inr free ↦ rw free (snapshot_holders_found vault epoch ps rows q r h)
]

snapshot_holders_first :
    (vault epoch user : ℕ) (x : Position) (ps : List Position) (rows : List Snapshot) (p : Position)
    → is_position user vault x ≡ true
    → x ≡ p
    → ltb_ℤ (pos 0) p.shares ≡ true
    → find (is_snapshot user vault epoch) rows ≡ none
    → find (is_snapshot user vault epoch) (snapshot_holders vault epoch (x ∷ ps) rows)
      ≡ some (snapshot user vault epoch p.shares)
unfolding snapshot_holders
snapshot_holders_first vault epoch user x ps rows p mine same h fresh =
    let user_same : x.user_address ≡ user = ground (arith, mine) in
    let share_same = ap (λ (q : Position). q.shares) same in
    let held : holds vault x ≡ true = rw share_same (ground (arith, mine, h)) in
    rw (held, user_same, share_same)
      (snapshot_holders_found vault epoch ps _ _ _ (
        find-insert_new_fresh (is_snapshot user vault epoch) (snapshot user vault epoch p.shares)
          rows (is_snapshot_self user vault epoch p.shares) fresh))

snapshot_holders_other :
    (vault epoch user : ℕ) (ps : List Position) (rows : List Snapshot) (p : Position)
    → find (is_position user vault) ps ≡ some p
    → ltb_ℤ (pos 0) p.shares ≡ true
    → find (is_snapshot user vault epoch) rows ≡ none
    → find (is_snapshot user vault epoch) (snapshot_holders vault epoch ps rows)
      ≡ some (snapshot user vault epoch p.shares)
unfolding snapshot_holders
snapshot_holders_other vault epoch user [] rows p e h fresh = ground arith
snapshot_holders_other vault epoch user (x ∷ ps) rows p e h fresh =
    elim (Bool-cases (is_position user vault x)) [
      | inl mine ↦
          snapshot_holders_first vault epoch user x ps rows p mine (ground (arith, e, mine)) h fresh
      | inr other ↦ elim (Bool-cases (holds vault x)) [
        | inl held ↦
            let unlike : is_snapshot user vault epoch (snapshot x.user_address vault epoch x.shares)
                ≡ false =
              ground (arith, other, held) in
            rw held (
              snapshot_holders_other vault epoch user ps _ p (ground (arith, e, other)) h
                (find-insert_new_other _ _ _ rows unlike ∙ fresh))
        | inr free ↦
            rw free
              (snapshot_holders_other vault epoch user ps rows p (ground (arith, e, other)) h fresh)
      ]
    ]

record_tvl-same :
    (v : Option Vault) (s : Store)
    → ((record_tvl v s).vaults ≡ s.vaults)
      × ((record_tvl v s).positions ≡ s.positions)
      × ((record_tvl v s).epochs ≡ s.epochs)
      × ((record_tvl v s).snapshots ≡ s.snapshots)
      × ((record_tvl v s).notices ≡ s.notices)
record_tvl-same none s = (refl, refl, refl, refl, refl)
record_tvl-same (some v) s = (refl, refl, refl, refl, refl)

-- What one distribution of a known vault's yield does to the tables, field by field.
distribute-tables :
    (c : ℕ) (y : YieldDistributed) (v : Vault) (s : Store)
    → ((distribute c y v s).vaults ≡ s.vaults)
      × ((distribute c y v s).positions ≡ s.positions)
      × ((distribute c y v s).epochs ≡ insert_new (is_epoch v.id y.epoch) (new_epoch v y) s.epochs)
      × ((distribute c y v s).snapshots ≡ snapshot_holders v.id y.epoch s.positions s.snapshots)
      × ((distribute c y v s).notices
          ≡ (s.notices
              ++ fee_earned c y.epoch
                  (split_fee y.amount v.operator_fee_bps).operator_fee
                  (split_fee y.amount v.operator_fee_bps).net_yield
                ∷ [])
            ++ epoch_recorded c y.epoch y.amount ∷ [])
unfolding distribute record_tvl_snapshot
distribute-tables c y v s =
    let s₁ : Store = record s {
      epochs = insert_new (is_epoch v.id y.epoch) (new_epoch v y) s.epochs;
    } in
    let (vaults, positions, epochs, snapshots, notices) = record_tvl-same (vault_of c s₁) s₁ in
    (vaults, positions, epochs, rw (positions, snapshots) refl, rw notices refl)

handle_yield_distributed-known :
    (c : ℕ) (y : YieldDistributed) (s : Store) (v : Vault)
    → vault_of c s ≡ some v
    → handle_yield_distributed c y s ≡ (split_fee y.amount v.operator_fee_bps, distribute c y v s)
unfolding handle_yield_distributed
handle_yield_distributed-known c y s v known =
    ap (λ (o : Option Vault). distribute_to c y o s) known

-- When a known vault's distribution event is handled a second time, the epochs, the snapshots, the
-- vaults and the positions stay as the first run left them, but the fee and epoch notices are sent
-- again.
pub handle_yield_distributed-replay :
    (c : ℕ) (y : YieldDistributed) (s : Store) (v : Vault)
    → vault_of c s ≡ some v
    → let once = (handle_yield_distributed c y s).1 in
      let twice = (handle_yield_distributed c y once).1 in
      let fees = split_fee y.amount v.operator_fee_bps in
      (twice.epochs ≡ once.epochs)
      × (twice.snapshots ≡ once.snapshots)
      × (twice.vaults ≡ once.vaults)
      × (twice.positions ≡ once.positions)
      × (twice.notices
          ≡ (once.notices ++ fee_earned c y.epoch fees.operator_fee fees.net_yield ∷ [])
            ++ epoch_recorded c y.epoch y.amount ∷ [])
handle_yield_distributed-replay c y s v known =
    let once = distribute c y v s in
    let (vaults₁, positions₁, epochs₁, snapshots₁, notices₁) = distribute-tables c y v s in
    let again : vault_of c once ≡ some v = rw vaults₁ known in
    let (vaults₂, positions₂, epochs₂, snapshots₂, notices₂) = distribute-tables c y v once in
    rw
      (
        handle_yield_distributed-known c y s v known,
        handle_yield_distributed-known c y once v again,
      )
      (
        epochs₂
            ∙ rw epochs₁ (
                insert_new_present _ (new_epoch v y) _ (
                  find-insert_new_present (is_epoch v.id y.epoch) (new_epoch v y) s.epochs
                    (ground arith))),
        snapshots₂
            ∙ rw (positions₁, snapshots₁)
                (snapshot_holders-Covered v.id y.epoch s.positions _
                  (snapshot_holders_covers v.id y.epoch s.positions s.snapshots)),
        vaults₂,
        positions₂,
        notices₂,
      )

-- After the distribution of an epoch that a known vault had no row of, the epoch's row holds the
-- yield and the vault's supply, and is open; and every user whose position in the vault holds
-- shares, and who had no snapshot of the epoch, has one with those shares and nothing claimed.
pub handle_yield_distributed-records :
    (c user : ℕ) (y : YieldDistributed) (s : Store) (v : Vault) (p : Position)
    → vault_of c s ≡ some v
    → epoch_of v.id y.epoch s ≡ none
    → position_of user v.id s ≡ some p
    → ltb_ℤ (pos 0) p.shares ≡ true
    → find (is_snapshot user v.id y.epoch) s.snapshots ≡ none
    → (epoch_of v.id y.epoch (handle_yield_distributed c y s).1 ≡ some (new_epoch v y))
      × (find (is_snapshot user v.id y.epoch) (handle_yield_distributed c y s).1.snapshots
          ≡ some (snapshot user v.id y.epoch p.shares))
handle_yield_distributed-records c user y s v p known fresh mine held clear =
    let (vaults, positions, epochs, snapshots, notices) = distribute-tables c y v s in
    rw (handle_yield_distributed-known c y s v known, epochs, snapshots)
      (
        find-insert_new_fresh (is_epoch v.id y.epoch) (new_epoch v y) s.epochs (ground arith) fresh,
        snapshot_holders_other v.id y.epoch user s.positions s.snapshots p mine held clear,
      )
