-- ===== src/Rpc/Limiter/Reach.antt =====
-- `withRpcLimit` of rpcLimiter.ts: each call acquires, runs, and releases in `finally`. The
-- states that any interleaving of such calls reaches.
use stellar_yield_contracts.Base.{ℕ, ◌+◌, ◌-◌, ◌<◌, Option, none, some}
use stellar_yield_contracts.Rpc.Limiter.{
  Semaphore, Acquired, granted, queued, semaphore, acquire, release,
}

-- The semaphore, the calls that hold a permit, and how often a release woke a waiter.
pub record Calls : Type 0 where
  pub semaphore : Semaphore
  pub active : ℕ
  pub handoffs : ℕ

abbrev entered : Acquired → ℕ → ℕ
entered granted n = n + 1
entered queued n = n

-- A call begins.
unfoldable pub begin : ℕ → Calls → Calls
begin caller c =
    let (answer, s) = acquire caller c.semaphore in
    record c { semaphore = s; active = entered answer c.active }

abbrev left : Option ℕ → ℕ → ℕ
left none n = n - 1
left (some _) n = n

abbrev counted : Option ℕ → ℕ → ℕ
counted none n = n
counted (some _) n = n + 1

-- A call ends, and the waiter that it wakes begins to run.
unfoldable pub finish : Calls → Calls
finish c =
    let (woken, s) = release c.semaphore in
    record { semaphore = s; active = left woken c.active; handoffs = counted woken c.handoffs }

abbrev pub idle : ℕ → Calls
idle permits = record { semaphore = semaphore permits; active = 0; handoffs = 0 }

-- Any interleaving; only a call that holds a permit can end.
pub data Reach (permits : ℕ) : Calls → Type 0 where
  start : Reach permits (idle permits)
  begun : {c : Calls} (caller : ℕ) → Reach permits c → Reach permits (begin caller c)
  finished : {c : Calls} → Reach permits c → 0 < c.active → Reach permits (finish c)
