-- ===== src/Rpc/Limiter/Bounds.antt =====
-- What every interleaving of limited RPC calls keeps, and the permits that it loses.
use stellar_yield_contracts.Base.{ℕ, ◌+◌, ◌≤◌, ◌<◌, ◌≡◌, refl, List, [], ◌∷◌, arith}
use stellar_yield_contracts.Base.Int.{pos, pos_part, neg_part, ◌+ℤ◌, ◌-ℤ◌, int_laws}
use stellar_yield_contracts.Rpc.Limiter.{Semaphore, queued, semaphore, acquire, release}
use stellar_yield_contracts.Rpc.Limiter.Reach.{Calls, Reach, start, begun, finished, begin, finish}

-- The free permits that `available` shows never exceed those that are not in use, and a permit is
-- missing for each handoff.
pub record IsSound (permits : ℕ) (c : Calls) : Type 0 where
  pub bounded : c.active + pos_part c.semaphore.available ≤ permits
  pub counted :
      pos_part c.semaphore.available + c.active + c.handoffs
      ≡ permits + neg_part c.semaphore.available

begin-IsSound :
    {permits : ℕ} {c : Calls} (caller : ℕ) → IsSound permits c → IsSound permits (begin caller c)
unfolding begin acquire ◌-ℤ◌
begin-IsSound caller h = ground arith

finish-IsSound :
    {permits : ℕ} (s : Semaphore) (active handoffs : ℕ) (waiting : List ℕ)
    → s.waiting ≡ waiting
    → 0 < active
    → IsSound permits (record { semaphore = s; active = active; handoffs = handoffs })
    → IsSound permits (finish (record { semaphore = s; active = active; handoffs = handoffs }))
unfolding finish release ◌-ℤ◌ ◌+ℤ◌
finish-IsSound s active handoffs [] e p h = ground arith
finish-IsSound s active handoffs (w ∷ ws) e p h = ground arith

Reach-IsSound : {permits : ℕ} {c : Calls} → Reach permits c → IsSound permits c
unfolding semaphore
Reach-IsSound start = omega arith
Reach-IsSound (begun caller r) = begin-IsSound caller (Reach-IsSound r)
Reach-IsSound (finished {c} r p) =
    finish-IsSound c.semaphore c.active c.handoffs c.semaphore.waiting refl p (Reach-IsSound r)

-- However calls interleave, at most `permits` of them hold a permit at one time.
pub active-le-permits : {permits : ℕ} {c : Calls} → Reach permits c → c.active ≤ permits
active-le-permits r = let h = Reach-IsSound r in omega arith

-- Each handoff to a waiting call loses a permit for good: in every reachable state the free
-- permits, the calls in flight and the handoffs so far add up to the configured permits.
pub available-handoffs :
    {permits : ℕ} {c : Calls}
    → Reach permits c
    → c.semaphore.available +ℤ pos (c.active + c.handoffs) ≡ pos permits
available-handoffs r = let h = Reach-IsSound r in omega int_laws

-- Once no call is in flight and as many handoffs have happened as there are permits, every further
-- call is queued, and none that waits is left to be woken by a release.
pub acquire_starved :
    {permits : ℕ} {c : Calls} (caller : ℕ)
    → Reach permits c
    → c.active ≡ 0
    → permits ≤ c.handoffs
    → ((acquire caller c.semaphore).0 ≡ queued) × ((begin caller c).active ≡ 0)
unfolding acquire begin
acquire_starved caller r idle_now lost = let h = Reach-IsSound r in ground arith
