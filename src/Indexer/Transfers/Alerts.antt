-- ===== src/Indexer/Transfers/Alerts.antt =====
-- The rows that a run of transfers and of their fees writes.
use stellar_yield_contracts.Base.{
  none, ◌==◌, ℕ, ◌≡◌, refl, sym, ap, ◌∙◌, Option, some, List, [], ◌∷◌, ◌++◌, append_assoc,
  append-nil, if◌then◌else◌, Bool-cases, inl, inr,
}
use stellar_yield_contracts.Base.Int.{ℤ, ltb_ℤ}
use stellar_yield_contracts.Indexer.Store.{Vault}
use stellar_yield_contracts.Indexer.Transfers.{
  Transfer, TransferFee, RawEvent, TransferRow, TransferAlert, TransferTables, transfer_row,
  find_vault_id, hash_of, alert_row, handle_transfer, handle_transfer_fee_collected,
}

-- An event, with the time at which it is processed and its contract.
pub data TransferEvent : Type 0 where
  transferred : (now contract : ℕ) → Transfer → RawEvent → TransferEvent
  fee_collected : (now contract : ℕ) → TransferFee → RawEvent → TransferEvent

abbrev apply_transfer : Option ℤ → TransferEvent → TransferTables → TransferTables
apply_transfer threshold (transferred now c t event) s = handle_transfer now c threshold t event s
apply_transfer threshold (fee_collected now c f event) s =
    handle_transfer_fee_collected now c f event s

unfoldable pub after_transfers : Option ℤ → List TransferEvent → TransferTables → TransferTables
after_transfers threshold [] s = s
after_transfers threshold (e ∷ es) s = after_transfers threshold es (apply_transfer threshold e s)

-- The rows that the handlers write for the events.
abbrev rows_written : List Vault → List TransferEvent → List TransferRow
rows_written vaults [] = []
rows_written vaults (transferred now c t event ∷ es) =
    transfer_row now c t event vaults ∷ rows_written vaults es
rows_written vaults (fee_collected now c f event ∷ es) = rows_written vaults es

abbrev alerts_written : List Vault → ℤ → List TransferEvent → List TransferAlert
alerts_written vaults threshold [] = []
alerts_written vaults threshold (transferred now c t event ∷ es) =
    if ltb_ℤ threshold t.amount
    then alert_row now c threshold t event vaults ∷ alerts_written vaults threshold es
    else alerts_written vaults threshold es
alerts_written vaults threshold (fee_collected now c f event ∷ es) =
    alerts_written vaults threshold es

-- The vault of a contract among those that are known.
abbrev pub vault_among : ℕ → List Vault → Option ℕ
vault_among contract [] = none
vault_among contract (v ∷ vaults) =
    if v.contract_id == contract then some v.id else vault_among contract vaults

abbrev first_given : Option ℕ → Option ℕ → Option ℕ
first_given none b = b
first_given (some a) b = some a

-- What the events say of themselves, by the vaults that are known: a row for each transfer, and one for each
-- above the threshold.
abbrev pub rows_of : List Vault → List TransferEvent → List TransferRow
rows_of vaults [] = []
rows_of vaults (transferred now c t event ∷ es) =
    record {
      vault_id = vault_among c vaults;
      from_address = t.from_address;
      to_address = t.to_address;
      amount = t.amount;
      tx_hash = first_given event.id event.tx_hash;
      ledger = event.ledger;
      created_at = now;
    }
    ∷ rows_of vaults es
rows_of vaults (fee_collected now c f event ∷ es) = rows_of vaults es

abbrev pub alerts_of : List Vault → ℤ → List TransferEvent → List TransferAlert
alerts_of vaults threshold [] = []
alerts_of vaults threshold (transferred now c t event ∷ es) =
    if ltb_ℤ threshold t.amount
    then record {
      vault_id = vault_among c vaults;
      contract_id = c;
      amount = t.amount;
      from_address = t.from_address;
      to_address = t.to_address;
      tx_hash = first_given event.id event.tx_hash;
      threshold = threshold;
      created_at = now;
    }
      ∷ alerts_of vaults threshold es
    else alerts_of vaults threshold es
alerts_of vaults threshold (fee_collected now c f event ∷ es) = alerts_of vaults threshold es

find_vault_id-vault_among :
    (c : ℕ) (vaults : List Vault) → find_vault_id c vaults ≡ vault_among c vaults
find_vault_id-vault_among c [] = refl
find_vault_id-vault_among c (v ∷ vaults) = elim (Bool-cases (v.contract_id == c)) [
  | inl e ↦ rw e refl
  | inr e ↦ rw e (find_vault_id-vault_among c vaults)
]

hash_of-first_given : (id tx_hash : Option ℕ) → hash_of id tx_hash ≡ first_given id tx_hash
hash_of-first_given none tx_hash = refl
hash_of-first_given (some id) tx_hash = refl

rows_written-rows_of :
    (vaults : List Vault) (es : List TransferEvent) → rows_written vaults es ≡ rows_of vaults es
rows_written-rows_of vaults [] = refl
rows_written-rows_of vaults (transferred now c t event ∷ es) =
    rw
      (
        find_vault_id-vault_among c vaults,
        hash_of-first_given event.id event.tx_hash,
        rows_written-rows_of vaults es,
      )
      refl
rows_written-rows_of vaults (fee_collected now c f event ∷ es) = rows_written-rows_of vaults es

alerts_written-alerts_of :
    (vaults : List Vault) (threshold : ℤ) (es : List TransferEvent)
    → alerts_written vaults threshold es ≡ alerts_of vaults threshold es
alerts_written-alerts_of vaults threshold [] = refl
alerts_written-alerts_of vaults threshold (transferred now c t event ∷ es) =
    rw
      (
        find_vault_id-vault_among c vaults,
        hash_of-first_given event.id event.tx_hash,
        alerts_written-alerts_of vaults threshold es,
      )
      refl
alerts_written-alerts_of vaults threshold (fee_collected now c f event ∷ es) =
    alerts_written-alerts_of vaults threshold es

module _ (threshold : ℤ) where
  vaults-apply_transfer :
      (e : TransferEvent) (s : TransferTables)
      → (apply_transfer (some threshold) e s).vaults ≡ s.vaults
  unfolding handle_transfer handle_transfer_fee_collected
  vaults-apply_transfer (transferred now c t event) s =
      elim (Bool-cases (ltb_ℤ threshold t.amount)) [ inl e ↦ simp e | inr e ↦ simp e ]
  vaults-apply_transfer (fee_collected now c f event) s = refl

  rows-apply_transfer :
      (e : TransferEvent) (es : List TransferEvent) (s : TransferTables)
      → (apply_transfer (some threshold) e s).transfers ++ rows_written s.vaults es
        ≡ s.transfers ++ rows_written s.vaults (e ∷ es)
  unfolding handle_transfer handle_transfer_fee_collected
  rows-apply_transfer (transferred now c t event) es s =
      elim (Bool-cases (ltb_ℤ threshold t.amount)) [
        | inl e ↦ simp e (append_assoc s.transfers _ _)
        | inr e ↦ simp e (append_assoc s.transfers _ _)
      ]
  rows-apply_transfer (fee_collected now c f event) es s = refl

  alerts-apply_transfer :
      (e : TransferEvent) (es : List TransferEvent) (s : TransferTables)
      → (apply_transfer (some threshold) e s).transfer_alerts
          ++ alerts_written s.vaults threshold es
        ≡ s.transfer_alerts ++ alerts_written s.vaults threshold (e ∷ es)
  unfolding handle_transfer handle_transfer_fee_collected
  alerts-apply_transfer (transferred now c t event) es s =
      elim (Bool-cases (ltb_ℤ threshold t.amount)) [
        | inl e ↦ simp e (append_assoc s.transfer_alerts _ _)
        | inr e ↦ simp e refl
      ]
  alerts-apply_transfer (fee_collected now c f event) es s = refl

  after_transfers-written :
      (es : List TransferEvent) (s : TransferTables)
      → ((after_transfers (some threshold) es s).transfers
          ≡ s.transfers ++ rows_written s.vaults es)
        × ((after_transfers (some threshold) es s).transfer_alerts
            ≡ s.transfer_alerts ++ alerts_written s.vaults threshold es)
  unfolding after_transfers
  after_transfers-written [] s = (sym (append-nil s.transfers), sym (append-nil s.transfer_alerts))
  after_transfers-written (e ∷ es) s =
      let next = apply_transfer (some threshold) e s in
      let ih = after_transfers-written es next in
      let same = vaults-apply_transfer e s in
      (
        ih.0 ∙ ap (λ v. next.transfers ++ rows_written v es) same ∙ rows-apply_transfer e es s,
        ih.1
            ∙ ap (λ v. next.transfer_alerts ++ alerts_written v threshold es) same
            ∙ alerts-apply_transfer e es s,
      )

  -- A run of transfers and transfer fees, with a threshold that is a number, adds to the transfers one row per
  -- transfer, and to the alerts one row per transfer whose amount is above the threshold, both in the order
  -- of the events. A row has the addresses and the amount of its transfer, the known vault of the contract, if
  -- there is one, and the id of the event, or else its transaction hash.
  pub after_transfers-rows :
      (es : List TransferEvent) (s : TransferTables)
      → ((after_transfers (some threshold) es s).transfers ≡ s.transfers ++ rows_of s.vaults es)
        × ((after_transfers (some threshold) es s).transfer_alerts
            ≡ s.transfer_alerts ++ alerts_of s.vaults threshold es)
  after_transfers-rows es s =
      let (rows, alerts) = after_transfers-written es s in
      (
        rows ∙ ap (λ r. s.transfers ++ r) (rows_written-rows_of s.vaults es),
        alerts ∙ ap (λ r. s.transfer_alerts ++ r) (alerts_written-alerts_of s.vaults threshold es),
      )
