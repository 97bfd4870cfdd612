-- ===== src/Indexer/Cursor/Tests.antt =====
-- A backfill and a tick over a server with one event, and calls that are rate limited.
use stellar_yield_contracts.Base.{
  ℕ, ◌*◌, ◌≡◌, refl, true, Option, none, some, List, [], ◌∷◌, ◌++◌, ltb, if◌then◌else◌, arith,
}
use stellar_yield_contracts.Indexer.Cursor.{
  RpcEvent, IndexerState, returned, threw, backfill, tick, anchor_ledgers, anchors_between,
}
use stellar_yield_contracts.Indexer.Cursor.Progress.{
  Progress, backfill-Progress, backfill_reaches_tip,
}
use stellar_yield_contracts.Indexer.Cursor.Ticks.{tick-last_ledger}
use stellar_yield_contracts.Indexer.Cursor.Backoff.{
  Attempt, success, rate_limited, with_backoff, IsBounded, with_backoff-IsBounded,
}

abbrev log_event : RpcEvent → List ℕ → List ℕ
log_event e t = t ++ e.event_id ∷ []

abbrev event : RpcEvent
event = record { contract_id = 70; ledger = 12; event_id = 8 }

abbrev server : ℕ → List RpcEvent
server n = if ltb 12 n then [] else event ∷ []

abbrev fetch : ℕ → Option (List RpcEvent)
fetch n = some (server n)

abbrev fetch_for : ℕ → ℕ → Option (List RpcEvent)
fetch_for id n = fetch n

abbrev fresh : IndexerState (List ℕ)
fresh = record {
  last_ledger = 10;
  saved_ledger = 10;
  anchors = [];
  watched = 70 ∷ [];
  controls = [];
  tables = [];
}

anchors_at_thousands : anchor_ledgers 1500 3000 ≡ 2000 ∷ 3000 ∷ []
unfolding anchors_between
anchors_at_thousands = refl

-- The event comes with every batch that starts at or before its ledger, so it is processed twice.
backfill_twice : (backfill log_event fetch none 1 13 none fresh).1.tables ≡ 8 ∷ 8 ∷ []
unfolding backfill
backfill_twice = refl

backfill-Progress_example :
    Progress log_event 10 13
      (backfill log_event fetch none 2 13 none fresh).0
      (backfill log_event fetch none 2 13 none fresh).1
backfill-Progress_example =
    backfill-Progress log_event fetch none 2 13 fresh (omega arith) refl refl

backfill_reaches_tip_example :
    let r = backfill log_event fetch none 2 7 (some 3) fresh in
    (r.0 ≡ returned) × (r.1.last_ledger ≡ 7) × (r.1.saved_ledger ≡ 7)
backfill_reaches_tip_example =
    backfill_reaches_tip log_event fetch server none 2 7 3 fresh (omega arith) (λ n. refl) refl
      (omega arith)

tick-last_ledger_example :
    let r = tick log_event fetch_for fetch none true 5 2 (some 13) fresh in
    (r.0 ≡ threw) × (r.1.last_ledger ≡ 10) × (r.1.saved_ledger ≡ 13)
tick-last_ledger_example =
    tick-last_ledger log_event fetch_for fetch server none true 5 2 13 fresh (omega arith)
      (omega arith) (λ n. refl)

abbrev busy_twice : ℕ → Attempt ℕ
busy_twice n = if ltb n 2 then rate_limited else success 99

abbrev half : ℕ → ℕ → ℕ
half attempt ceiling = attempt * 500

with_backoff-IsBounded_example :
    IsBounded busy_twice half 5 1000 (with_backoff busy_twice half 5 1000)
with_backoff-IsBounded_example = with_backoff-IsBounded busy_twice half 5 1000
