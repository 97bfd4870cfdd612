-- ===== src/Indexer/Cursor.antt =====
-- The cursor of backend/src/services/indexer.ts: `tick`, `backfill`, the replay of resumed contracts,
-- the ledger anchors and `withBackoff`. `process` is what `processEvent` does to the tables: it catches
-- every error of its own. `fetch` is the RPC call `getEvents` from a ledger on, with its retries; none
-- where it throws.
pub mod Backoff
pub mod Progress
pub mod Ticks
mod Tests
use stellar_yield_contracts.Base.{
  ℕ, zero, suc, ◌+◌, ◌-◌, ◌*◌, ◌/◌, min, Bool, true, false, ◌&&◌, ◌||◌, not, Option, none, some,
  List, [], ◌∷◌, ◌++◌, ltb, leb, ◌==◌, if◌then◌else◌, find, or_else,
}

-- What the loops read of an event of the RPC server.
pub record RpcEvent : Type 0 where
  pub contract_id : ℕ
  pub ledger : ℕ
  pub event_id : ℕ

-- `ContractIndexerControl`, with its key
pub record Control : Type 0 where
  pub contract_id : ℕ
  pub indexing_paused : Bool
  pub paused_at_ledger : Option ℕ

-- `lastLedger` in memory, `indexer_state.last_ledger` and `ledger_anchors` in the database, the contracts
-- that are watched with their controls, and the other tables.
pub record IndexerState (S : Type 0) : Type 0 where
  pub last_ledger : ℕ
  pub saved_ledger : ℕ
  pub anchors : List ℕ
  pub watched : List ℕ
  pub controls : List Control
  pub tables : S

-- How a run of the indexer's code ends; `threw` is an exception that leaves it.
pub data Ended : Type 0 where
  returned threw out_of_fuel : Ended

abbrev control_paused : Option Control → Bool
control_paused none = false
control_paused (some k) = k.indexing_paused

abbrev has_control : ℕ → Control → Bool
has_control id k = k.contract_id == id

-- `activeContractIds`
abbrev pub active_contract_ids : List ℕ → List Control → List ℕ
active_contract_ids [] controls = []
active_contract_ids (id ∷ ids) controls =
    let rest = active_contract_ids ids controls in
    if control_paused (find (has_control id) controls) then rest else id ∷ rest

abbrev pub no_contracts : List ℕ → Bool
no_contracts [] = true
no_contracts (id ∷ ids) = false

-- Every watched contract is paused.
abbrev pub all_paused : {S : Type 0} → IndexerState S → Bool
all_paused s =
    no_contracts (active_contract_ids s.watched s.controls) && not (no_contracts s.watched)

-- The multiples of 1000 in a range, but 0.
unfoldable pub anchors_between : ℕ → ℕ → ℕ → List ℕ
anchors_between zero seq to_ledger = []
anchors_between (suc fuel) seq to_ledger =
    let rest = anchors_between fuel (seq + 1000) to_ledger in
    if leb seq to_ledger then (if ltb 0 seq then seq ∷ rest else rest) else []

-- `recordAnchorsIfNeeded`: the ledgers that it records
abbrev pub anchor_ledgers : ℕ → ℕ → List ℕ
anchor_ledgers from_ledger to_ledger =
    anchors_between (to_ledger + 1) ((from_ledger + 999) / 1000 * 1000) to_ledger

module _ {S : Type 0} (process : RpcEvent → S → S) where
  abbrev pub process_all : List RpcEvent → S → S
  process_all [] t = t
  process_all (e ∷ es) t = process_all es (process e t)

  -- The transaction of a batch: its events, the cursor in the database and the anchors.
  abbrev pub commit_batch : ℕ → ℕ → List RpcEvent → IndexerState S → IndexerState S
  commit_batch from_ledger to_ledger events s = record s {
    tables = process_all events s.tables;
    saved_ledger = to_ledger;
    anchors = s.anchors ++ anchor_ledgers from_ledger to_ledger;
  }

  -- `cursor = batchTo; this.lastLedger = cursor`
  abbrev pub advance : ℕ → IndexerState S → IndexerState S
  advance batch_to s = record s { last_ledger = batch_to }

  -- One round of a loop: its test, what it fetched, and how it goes on.
  abbrev pub backfill_round :
      Bool
      → Option (List RpcEvent)
      → (List RpcEvent → Ended × IndexerState S)
      → IndexerState S
      → Ended × IndexerState S
  backfill_round false fetched next s = (returned, s)
  backfill_round true none next s = (threw, s)
  backfill_round true (some events) next s = next events

  -- The loop of `backfill`. An error of the call or of the transaction is caught, and the handler calls
  -- `this.tuneBatchSize`, which no class declares: it throws before the `break`.
  unfoldable pub backfill_loop :
      (ℕ → Option (List RpcEvent)) → ℕ → ℕ → ℕ → ℕ → IndexerState S → Ended × IndexerState S
  backfill_loop fetch batch_size tip zero cursor s = (out_of_fuel, s)
  backfill_loop fetch batch_size tip (suc fuel) cursor s =
      let batch_to = min (cursor + batch_size) tip in
      backfill_round (ltb cursor tip) (fetch (cursor + 1))
        (λ events.
          backfill_loop fetch batch_size tip fuel batch_to
            (advance batch_to (commit_batch (cursor + 1) batch_to events s)))
        s

  -- `backfill`. `loaded` is what `loadContractControls` reads, none where the query fails. Each round advances the cursor, so one more round than there are ledgers is enough.
  unfoldable pub backfill :
      (ℕ → Option (List RpcEvent))
      → Option (List Control)
      → ℕ
      → ℕ
      → Option ℕ
      → IndexerState S
      → Ended × IndexerState S
  unfolding backfill_loop
  backfill fetch loaded batch_size tip start_ledger s =
      let cursor = or_else start_ledger s.last_ledger in
      let s₁ = record s { controls = or_else loaded s.controls } in
      if all_paused s₁
      then (returned, s₁)
      else backfill_loop fetch batch_size tip (tip - cursor + 1) cursor s₁

  abbrev process_up_to : ℕ → List RpcEvent → S → S
  process_up_to to_ledger [] t = t
  process_up_to to_ledger (e ∷ es) t =
      process_up_to to_ledger es (if ltb to_ledger e.ledger then t else process e t)

  abbrev replay_round : Bool → Option (List RpcEvent) → (List RpcEvent → Bool × S) → S → Bool × S
  replay_round false fetched next t = (true, t)
  replay_round true none next t = (false, t)
  replay_round true (some events) next t = next events

  -- `replayContract`: whether it reached the end, and the tables
  unfoldable pub replay_contract : (ℕ → Option (List RpcEvent)) → ℕ → ℕ → ℕ → ℕ → S → Bool × S
  replay_contract fetch batch_size to_ledger zero cursor t = (false, t)
  replay_contract fetch batch_size to_ledger (suc fuel) cursor t =
      replay_round (ltb cursor to_ledger) (fetch (cursor + 1))
        (λ events.
          replay_contract fetch batch_size to_ledger fuel (min (cursor + batch_size) to_ledger)
            (process_up_to to_ledger events t))
        t

  abbrev clear_marker : Bool → Control → Control
  clear_marker done k = if done then record k { paused_at_ledger = none } else k

  -- One round of the loop of `replayResumedContracts`.
  abbrev replay_control :
      (ℕ → ℕ → Option (List RpcEvent)) → ℕ → ℕ → Control → Option ℕ → S → Control × S
  replay_control fetch_for batch_size last k none t = (k, t)
  replay_control fetch_for batch_size last k (some paused_at) t =
      if k.indexing_paused
      then (k, t)
      else if ltb paused_at last
      then (let (done, t₁) =
            replay_contract (fetch_for k.contract_id) batch_size last (last - paused_at + 1)
              paused_at t in
          (clear_marker done k, t₁))
      else (clear_marker true k, t)

  -- `replayResumedContracts`
  unfoldable pub replay_resumed_contracts :
      (ℕ → ℕ → Option (List RpcEvent)) → ℕ → ℕ → List Control → S → List Control × S
  unfolding replay_contract
  replay_resumed_contracts fetch_for batch_size last [] t = ([], t)
  replay_resumed_contracts fetch_for batch_size last (k ∷ ks) t =
      let (k₁, t₁) = replay_control fetch_for batch_size last k k.paused_at_ledger t in
      let (ks₁, t₂) = replay_resumed_contracts fetch_for batch_size last ks t₁ in (k₁ ∷ ks₁, t₂)

  -- The fetch of `tick`: nothing is fetched while every watched contract is paused.
  abbrev tick_events : (ℕ → Option (List RpcEvent)) → IndexerState S → Option (List RpcEvent)
  tick_events fetch s = if all_paused s then some [] else fetch (s.last_ledger + 1)

  -- The transaction of `tick` and what follows it. After the commit the code evaluates
  -- `this.tuneBatchSize(batchDurationMs)`, of which neither name is declared, when the batch is not empty.
  abbrev tick_commit : Bool → ℕ → ℕ → List RpcEvent → IndexerState S → Ended × IndexerState S
  tick_commit commits batch_size latest events s =
      if commits
      then (let t = commit_batch (s.last_ledger + 1) latest events s in
          if ltb s.last_ledger (min latest (s.last_ledger + batch_size))
          then (threw, t)
          else (returned, record t { last_ledger = latest }))
      else (returned, s)

  -- The error handler of the fetch calls `tuneBatchSize` too.
  abbrev tick_batch :
      Bool → ℕ → ℕ → Option (List RpcEvent) → IndexerState S → Ended × IndexerState S
  tick_batch commits batch_size latest none s = (threw, s)
  tick_batch commits batch_size latest (some events) s =
      tick_commit commits batch_size latest events s

  -- `tick`. `loaded` is as for `backfill`; `commits` tells
  -- whether the transaction succeeds.
  unfoldable pub tick :
      (ℕ → ℕ → Option (List RpcEvent))
      → (ℕ → Option (List RpcEvent))
      → Option (List Control)
      → Bool
      → ℕ
      → ℕ
      → Option ℕ
      → IndexerState S
      → Ended × IndexerState S
  unfolding replay_resumed_contracts
  tick fetch_for fetch loaded commits replay_size batch_size none s = (returned, s)
  tick fetch_for fetch loaded commits replay_size batch_size (some latest) s =
      if leb latest s.last_ledger
      then (returned, s)
      else (let controls = or_else loaded s.controls in
          let (replayed, t) =
            replay_resumed_contracts fetch_for replay_size s.last_ledger controls s.tables in
          let s₁ = record s { controls = replayed; tables = t } in
          tick_batch commits batch_size latest (tick_events fetch s₁) s₁)
