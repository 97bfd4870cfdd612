-- ===== src/Rpc/Limiter.antt =====
-- backend/src/services/rpcLimiter.ts: the semaphore round every RPC call. A caller is named by a
-- number; JavaScript runs one `acquire` or `release` at a time, so a run is a sequence of steps.
pub mod Reach
pub mod Bounds
mod Tests
use stellar_yield_contracts.Base.{ℕ, Option, none, some, List, [], ◌∷◌, ◌++◌, if◌then◌else◌}
use stellar_yield_contracts.Base.Int.{ℤ, pos, ◌+ℤ◌, ◌-ℤ◌, ltb_ℤ}

-- `RpcSemaphore`: its three fields. `available` is signed, as in the source.
pub record Semaphore : Type 0 where
  pub permits : ℕ
  pub available : ℤ
  pub waiting : List ℕ

-- What `acquire` answers: a permit at once, or a place in the queue.
pub data Acquired : Type 0 where
  granted queued : Acquired

-- The constructor.
unfoldable pub semaphore : ℕ → Semaphore
semaphore permits = record { permits = permits; available = pos permits; waiting = [] }

-- `acquire`
unfoldable pub acquire : ℕ → Semaphore → Acquired × Semaphore
acquire caller s =
    if ltb_ℤ (pos 0) s.available
    then (granted, record s { available = s.available -ℤ pos 1 })
    else (queued, record s { waiting = s.waiting ++ caller ∷ [] })

-- `release`, on the queue that `waiting.shift()` finds: the caller that it wakes, if any.
abbrev release_to : List ℕ → Semaphore → Option ℕ × Semaphore
release_to [] s = (none, record s { available = s.available +ℤ pos 1 })
release_to (next ∷ rest) s =
    (some next, record s { waiting = rest; available = s.available -ℤ pos 1 })

unfoldable pub release : Semaphore → Option ℕ × Semaphore
release s = release_to s.waiting s
