-- ===== src/Indexer/Cursor/Ticks.antt =====
-- What one tick does to the two copies of the cursor.
use stellar_yield_contracts.Base.{
  if◌then◌else◌, [], ℕ, ◌+◌, ◌<◌, ◌≡◌, ◌⊎◌, inl, inr, refl, ap, sym, min, Bool, true, false, Option,
  none, some, List, ltb, leb, arith, Bool-cases, or_else,
}
use stellar_yield_contracts.Indexer.Cursor.{
  RpcEvent, Control, IndexerState, returned, threw, all_paused, tick, tick_batch, tick_events,
  replay_resumed_contracts,
}

module _ {S : Type 0} (process : RpcEvent → S → S) where
  tick_batch-last :
      (commits : Bool) (batch_size latest : ℕ) (o : Option (List RpcEvent)) (s : IndexerState S)
      → 0 < batch_size
      → s.last_ledger < latest
      → let r = tick_batch process commits batch_size latest o s in
        (r.1.last_ledger ≡ s.last_ledger)
        × (((r.1.saved_ledger ≡ s.saved_ledger) × (r.1.tables ≡ s.tables))
            ⊎ ((r.0 ≡ threw) × (r.1.saved_ledger ≡ latest)))
  tick_batch-last commits batch_size latest none s positive behind = (refl, inl (refl, refl))
  tick_batch-last false batch_size latest (some events) s positive behind = (refl, inl (refl, refl))
  tick_batch-last true batch_size latest (some events) s positive behind =
      let ahead : ltb s.last_ledger (min latest (s.last_ledger + batch_size)) ≡ true =
        ground (arith, positive, behind) in
      rw ahead (refl, inr (refl, refl))

  -- No tick moves the cursor in memory, whatever the server and the database answer, and the cursor of the
  -- database moves only in a tick that throws, to the latest ledger.
  pub tick-cursors :
      (fetch_for : ℕ → ℕ → Option (List RpcEvent)) (fetch : ℕ → Option (List RpcEvent))
      (loaded : Option (List Control)) (commits : Bool) (replay_size batch_size : ℕ)
      (latest : Option ℕ) (s : IndexerState S)
      → 0 < batch_size
      → let r = tick process fetch_for fetch loaded commits replay_size batch_size latest s in
        (r.1.last_ledger ≡ s.last_ledger)
        × ((r.1.saved_ledger ≡ s.saved_ledger) ⊎ ((r.0 ≡ threw) × (latest ≡ some r.1.saved_ledger)))
  unfolding tick
  tick-cursors fetch_for fetch loaded commits replay_size batch_size none s positive =
      (refl, inl refl)
  tick-cursors fetch_for fetch loaded commits replay_size batch_size (some latest) s positive =
      elim (Bool-cases (leb latest s.last_ledger)) [
        | inl caught_up ↦ rw caught_up (refl, inl refl)
        | inr behind ↦
            let (controls, tables) =
              replay_resumed_contracts process fetch_for replay_size s.last_ledger
                (or_else loaded s.controls) s.tables in
            let s₁ : IndexerState S = record s { controls = controls; tables = tables } in
            let (last, saved) =
              tick_batch-last commits batch_size latest (tick_events process fetch s₁) s₁ positive
                (ground (arith, behind)) in
            rw behind (
              last,
              elim saved [
                | inl (same, _) ↦ inl same
                | inr (e, reached_latest) ↦ inr (e, ap some (sym reached_latest))
              ],
            )
      ]

  tick_batch-fetched :
      (commits : Bool) (batch_size latest : ℕ) (o : Option (List RpcEvent)) (events : List RpcEvent)
      (s : IndexerState S)
      → 0 < batch_size
      → s.last_ledger < latest
      → o ≡ some events
      → let r = tick_batch process commits batch_size latest o s in
        (r.0 ≡ (if commits then threw else returned))
        × (r.1.last_ledger ≡ s.last_ledger)
        × (r.1.saved_ledger ≡ (if commits then latest else s.saved_ledger))
  tick_batch-fetched false batch_size latest o events s positive behind e = rw e (refl, refl, refl)
  tick_batch-fetched true batch_size latest o events s positive behind e =
      let ahead : ltb s.last_ledger (min latest (s.last_ledger + batch_size)) ≡ true =
        ground (arith, positive, behind) in
      rw (e, ahead) (refl, refl, refl)

  tick_events-some :
      (fetch : ℕ → Option (List RpcEvent)) (fetched : ℕ → List RpcEvent) (s : IndexerState S)
      → ((n : ℕ) → fetch n ≡ some (fetched n))
      → (events : List RpcEvent) × (tick_events process fetch s ≡ some events)
  tick_events-some fetch fetched s total = elim (Bool-cases (all_paused s)) [
    | inl paused ↦ ([], rw paused refl)
    | inr free ↦ (fetched (s.last_ledger + 1), rw free (total (s.last_ledger + 1)))
  ]

  -- A tick that finds ledgers after its cursor and whose fetch does not fail throws if its transaction commits,
  -- after it has moved the cursor of the database to the latest ledger; if the transaction fails, it returns
  -- and leaves the cursor of the database. Either way the cursor in memory stays where it was.
  pub tick-last_ledger :
      (fetch_for : ℕ → ℕ → Option (List RpcEvent)) (fetch : ℕ → Option (List RpcEvent))
      (fetched : ℕ → List RpcEvent) (loaded : Option (List Control)) (commits : Bool)
      (replay_size batch_size latest : ℕ) (s : IndexerState S)
      → 0 < batch_size
      → s.last_ledger < latest
      → ((n : ℕ) → fetch n ≡ some (fetched n))
      → let r =
          tick process fetch_for fetch loaded commits replay_size batch_size (some latest) s in
        (r.0 ≡ (if commits then threw else returned))
        × (r.1.last_ledger ≡ s.last_ledger)
        × (r.1.saved_ledger ≡ (if commits then latest else s.saved_ledger))
  unfolding tick
  tick-last_ledger fetch_for fetch fetched loaded commits replay_size batch_size latest s positive
        behind total =
      let (controls, tables) =
        replay_resumed_contracts process fetch_for replay_size s.last_ledger
          (or_else loaded s.controls) s.tables in
      let s₁ : IndexerState S = record s { controls = controls; tables = tables } in
      let (events, given) = tick_events-some fetch fetched s₁ total in
      let later : leb latest s.last_ledger ≡ false = ground (arith, behind) in
      rw later (
        tick_batch-fetched commits batch_size latest (tick_events process fetch s₁) events s₁
          positive behind given)
