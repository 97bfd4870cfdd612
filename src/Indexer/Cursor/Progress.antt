-- ===== src/Indexer/Cursor/Progress.antt =====
-- How far `backfill` moves the cursor.
use stellar_yield_contracts.Base.{
  ℕ, zero, suc, ◌+◌, ◌-◌, ◌≤◌, ◌<◌, ◌≡◌, ◌⊎◌, inl, inr, refl, ap, sym, ◌∙◌, min, max, false, Option,
  none, some, List, ltb, arith, Bool-cases, Option-cases, or_else,
}
use stellar_yield_contracts.Indexer.Cursor.{
  RpcEvent, Control, IndexerState, Ended, returned, threw, commit_batch, advance, backfill_loop,
  backfill, all_paused,
}

module _ {S : Type 0} (process : RpcEvent → S → S) where
  -- What a loop from a cursor to a tip has done when it ends.
  pub record Progress (cursor tip : ℕ) (e : Ended) (t : IndexerState S) : Type 0 where
    pub ended : (e ≡ returned) ⊎ (e ≡ threw)
    pub saved : t.saved_ledger ≡ t.last_ledger
    pub low : cursor ≤ t.last_ledger
    pub high : t.last_ledger ≤ max cursor tip
    pub complete : e ≡ returned → tip ≤ t.last_ledger

  backfill_loop-Progress :
      (fetch : ℕ → Option (List RpcEvent)) (batch_size tip fuel cursor : ℕ) (s : IndexerState S)
      → 0 < batch_size
      → tip - cursor < fuel
      → s.last_ledger ≡ cursor
      → s.saved_ledger ≡ cursor
      → Progress cursor tip
          (backfill_loop process fetch batch_size tip fuel cursor s).0
          (backfill_loop process fetch batch_size tip fuel cursor s).1
  unfolding backfill_loop
  backfill_loop-Progress fetch batch_size tip zero cursor s positive enough last saved =
      let no : ⊥ = omega (arith, enough) in elim no [ ]
  backfill_loop-Progress fetch batch_size tip (suc fuel) cursor s positive enough last saved =
      elim (Bool-cases (ltb cursor tip)) [
        | inr over ↦ rw over (record {
          ended = inl refl;
          saved = saved ∙ sym last;
          low = omega (arith, last);
          high = omega (arith, last);
          complete = λ e. ground (arith, over, last);
        })
        | inl more ↦ elim (Option-cases (fetch (cursor + 1))) [
          | inl failed ↦
              rw (more, failed)
                (record {
                  ended = inr refl;
                  saved = saved ∙ sym last;
                  low = omega (arith, last);
                  high = omega (arith, last);
                  complete = λ e. ground (arith, e);
                })
          | inr (events, fetched) ↦
              let below : cursor < tip = ground (arith, more) in
              let batch_to = min (cursor + batch_size) tip in
              let rest =
                backfill_loop-Progress fetch batch_size tip fuel batch_to
                  (advance process batch_to (commit_batch process (cursor + 1) batch_to events s))
                  positive (omega arith) refl refl in
              rw (more, fetched)
                (record {
                  ended = rest.ended;
                  saved = rest.saved;
                  low = omega (arith, rest.low);
                  high = omega (arith, rest.high);
                  complete = rest.complete;
                })
        ]
      ]

  reached :
      (tip batch_to : ℕ) (r t : IndexerState S)
      → t.last_ledger ≡ batch_to
      → t.saved_ledger ≡ batch_to
      → (batch_to < tip → (r.last_ledger ≡ tip) × (r.saved_ledger ≡ tip))
      → (tip ≤ batch_to → r ≡ t)
      → batch_to ≤ tip
      → (r.last_ledger ≡ tip) × (r.saved_ledger ≡ tip)
  reached tip batch_to r t last saved ahead there h = elim (Bool-cases (ltb batch_to tip)) [
    | inl below ↦ ahead (ground (arith, below))
    | inr over ↦
        let at : tip ≤ batch_to = ground (arith, over) in
        let same = there at in
        (
          ap (λ (q : IndexerState S). q.last_ledger) same ∙ last ∙ omega (arith, at),
          ap (λ (q : IndexerState S). q.saved_ledger) same ∙ saved ∙ omega (arith, at),
        )
  ]

  backfill_loop-reaches :
      (fetch : ℕ → Option (List RpcEvent)) (fetched : ℕ → List RpcEvent)
      (batch_size tip fuel cursor : ℕ) (s : IndexerState S)
      → 0 < batch_size
      → tip - cursor < fuel
      → ((n : ℕ) → fetch n ≡ some (fetched n))
      → let r = backfill_loop process fetch batch_size tip fuel cursor s in
        (r.0 ≡ returned)
        × (cursor < tip → (r.1.last_ledger ≡ tip) × (r.1.saved_ledger ≡ tip))
        × (tip ≤ cursor → r.1 ≡ s)
  unfolding backfill_loop
  backfill_loop-reaches fetch fetched batch_size tip zero cursor s positive enough total =
      let no : ⊥ = omega (arith, enough) in elim no [ ]
  backfill_loop-reaches fetch fetched batch_size tip (suc fuel) cursor s positive enough total =
      elim (Bool-cases (ltb cursor tip)) [
        | inr over ↦ rw over (refl, λ h. ground (arith, over, h), λ h. refl)
        | inl more ↦
            let below : cursor < tip = ground (arith, more) in
            let batch_to = min (cursor + batch_size) tip in
            let t =
              advance process batch_to
                (commit_batch process (cursor + 1) batch_to (fetched (cursor + 1)) s) in
            let (done, ahead, there) =
              backfill_loop-reaches fetch fetched batch_size tip fuel batch_to t positive
                (omega arith) total in
            rw (more, total (cursor + 1))
              (
                done,
                λ h. reached tip batch_to _ t refl refl ahead there (omega arith),
                λ h. ground (arith, more, h),
              )
      ]

  -- A backfill from the indexer's own cursor, whose two copies agree, ends: it returns or throws. The two
  -- copies agree again, the cursor has not gone back nor past the tip, and it is at the tip if the
  -- backfill returned, unless every watched contract is paused.
  pub backfill-Progress :
      (fetch : ℕ → Option (List RpcEvent)) (loaded : Option (List Control)) (batch_size tip : ℕ)
      (s : IndexerState S)
      → 0 < batch_size
      → s.saved_ledger ≡ s.last_ledger
      → all_paused (record s { controls = or_else loaded s.controls }) ≡ false
      → Progress s.last_ledger tip
          (backfill process fetch loaded batch_size tip none s).0
          (backfill process fetch loaded batch_size tip none s).1
  unfolding backfill
  backfill-Progress fetch loaded batch_size tip s positive same free = rw free (
      backfill_loop-Progress fetch batch_size tip (tip - s.last_ledger + 1) s.last_ledger
        (record s { controls = or_else loaded s.controls }) positive (omega arith) refl same)

  -- When no call fails and not every watched contract is paused, a backfill from a ledger below its end returns with both copies of the cursor at its
  -- end, wherever the cursor was before: a backfill of old ledgers moves the cursor back.
  pub backfill_reaches_tip :
      (fetch : ℕ → Option (List RpcEvent)) (fetched : ℕ → List RpcEvent)
      (loaded : Option (List Control)) (batch_size tip start : ℕ) (s : IndexerState S)
      → 0 < batch_size
      → ((n : ℕ) → fetch n ≡ some (fetched n))
      → all_paused (record s { controls = or_else loaded s.controls }) ≡ false
      → start < tip
      → let r = backfill process fetch loaded batch_size tip (some start) s in
        (r.0 ≡ returned) × (r.1.last_ledger ≡ tip) × (r.1.saved_ledger ≡ tip)
  unfolding backfill
  backfill_reaches_tip fetch fetched loaded batch_size tip start s positive total free below =
      let (done, ahead, there) =
        backfill_loop-reaches fetch fetched batch_size tip (tip - start + 1) start
          (record s { controls = or_else loaded s.controls }) positive (omega arith) total in
      let (last, saved) = ahead below in rw free (done, last, saved)
