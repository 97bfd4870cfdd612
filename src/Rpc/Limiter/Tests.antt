-- ===== src/Rpc/Limiter/Tests.antt =====
-- Runs of the limiter.
use stellar_yield_contracts.Base.{◌+◌, ◌≤◌, ◌≡◌, arith}
use stellar_yield_contracts.Base.Int.{pos, ◌+ℤ◌, ◌-ℤ◌}
use stellar_yield_contracts.Rpc.Limiter.{semaphore, acquire, release}
use stellar_yield_contracts.Rpc.Limiter.Reach.{
  Calls, Reach, start, begun, finished, begin, finish, idle,
}
use stellar_yield_contracts.Rpc.Limiter.Bounds.{active-le-permits, available-handoffs}

-- One permit: call 1 runs, call 2 waits; both end.
abbrev busy : Calls
busy = begin 2 (begin 1 (idle 1))

abbrev drained : Calls
drained = finish (finish busy)

busy-Reach : Reach 1 busy
busy-Reach = begun 2 (begun 1 start)

drained-Reach : Reach 1 drained
unfolding begin finish acquire release semaphore ◌+ℤ◌ ◌-ℤ◌
drained-Reach = finished (finished busy-Reach (omega arith)) (omega arith)

active-le-permits_example : busy.active ≤ 1
active-le-permits_example = active-le-permits busy-Reach

available-handoffs_example :
    drained.semaphore.available +ℤ pos (drained.active + drained.handoffs) ≡ pos 1
available-handoffs_example = available-handoffs drained-Reach
