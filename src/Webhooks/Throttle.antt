-- ===== src/Webhooks/Throttle.antt =====
-- backend/src/services/webhookThrottle.ts: how many requests a webhook is sent in one hour.
mod Hour
mod Tests
use mathlib.Core.Path.{subst}
use stellar_yield_contracts.Base.{
  ℕ, suc, ◌+◌, ◌-◌, ◌≤◌, ◌<◌, ◌≡◌, refl, sym, ap, ◌∙◌, ◌⊎◌, inl, inr, Bool, true, false, Option,
  none, some, or_else, List, [], ◌∷◌, ◌++◌, arith, find, update_where, find_sound, ltb, leb, ◌==◌,
  ==_iff, ==_refl, if◌then◌else◌, Bool-cases, All, Option-cases,
}
use stellar_yield_contracts.Base.Int.{ℤ, pos, leb_ℤ, ltb_ℤ}
use stellar_yield_contracts.Vaults.Names.{Text}
use stellar_yield_contracts.Webhooks.Store.{
  Webhook, Sent, Counters, State, Outcome, response, threw, is_webhook, webhook_of, DeliveryError,
  ssrf_check_failed,
}
use stellar_yield_contracts.Webhooks.Worker.{
  current_hour_bucket, count_one_more, over_limit, throttled_by, is_webhook_throttled,
  record_failure, record_success, settle_outcome, send, unless_throttled, deliver_to,
  process_webhook_delivery, response_ok, log_sent,
}
use stellar_yield_contracts.Webhooks.Circuit.{count_sent}
use stellar_yield_contracts.Webhooks.Circuit.Kept.{count_failure-id}
use stellar_yield_contracts.Webhooks.Circuit.Steps.{
  Step, unchanged, counted, cleared, process_webhook_delivery-Step,
}
use stellar_yield_contracts.Webhooks.Circuit.Opening.{
  Job, run_job, run_jobs, count_failure-limit, count_sent-append, deliver_to-closed, run_job-open,
}

record_failure-kept :
    (now : ℕ) (w : Webhook) (payload : ℕ) (error : DeliveryError) (delivery : Option ℕ) (st : State)
    → ((record_failure now w payload error delivery st).sent ≡ st.sent)
      × ((record_failure now w payload error delivery st).redis ≡ st.redis)
unfolding record_failure
record_failure-kept now w payload error none st = (refl, refl)
record_failure-kept now w payload error (some d) st = (refl, refl)

record_success-kept :
    (now : ℕ) (w : Webhook) (delivery : Option ℕ) (st : State)
    → ((record_success now w delivery st).sent ≡ st.sent)
      × ((record_success now w delivery st).redis ≡ st.redis)
unfolding record_success
record_success-kept now w none st = (ground arith, ground arith)
record_success-kept now w (some d) st = (ground arith, ground arith)

abbrev pub limit_in : Option Webhook → Option (Option ℤ)
limit_in none = none
limit_in (some w) = some w.max_per_hour

abbrev pub limit_of : ℕ → State → Option (Option ℤ)
limit_of n st = limit_in (webhook_of n st)

update_where-limit :
    (q : Webhook → Bool) (f : Webhook → Webhook) (n : ℕ) (rows : List Webhook)
    → ((w : Webhook) → (f w).id ≡ w.id)
    → ((w : Webhook) → (f w).max_per_hour ≡ w.max_per_hour)
    → limit_in (find (is_webhook n) (update_where q f rows)) ≡ limit_in (find (is_webhook n) rows)
update_where-limit q f n [] same keep = refl
update_where-limit q f n (w ∷ rows) same keep =
    ground (arith, same w, keep w, update_where-limit q f n rows same keep)

pub Step-limit :
    (n : ℕ) {rows rows' : List Webhook}
    → Step rows rows'
    → limit_in (find (is_webhook n) rows') ≡ limit_in (find (is_webhook n) rows)
Step-limit n unchanged = refl
Step-limit n (counted now k w read closed) =
    update_where-limit (is_webhook w.id) _ n _
      (λ u. count_failure-id now (w.consecutive_failures + 1) u)
      (λ u. count_failure-limit now (w.consecutive_failures + 1) u)
Step-limit n (cleared k w read closed) =
    update_where-limit (is_webhook w.id) _ n _ (λ u. refl) (λ u. refl)

raised : ℕ → ℕ → Counters → State → State
raised webhook hour c st = record st { redis = some (count_one_more webhook hour c) }

some_counters : {c c' : Counters} → some c ≡ some c' → c ≡ c'
some_counters {c} h = ap (λ o. or_else o c) h

limited-throttled :
    (webhook limit now : ℕ) (st : State)
    → 0 < limit
    → throttled_by webhook (some (pos limit)) now st
      ≡ over_limit webhook (pos limit) (current_hour_bucket now) st.redis st
limited-throttled webhook limit now st positive =
    let some_left : leb_ℤ (pos limit) (pos 0) ≡ false = ground (arith, positive) in
    rw some_left refl

over_limit-up :
    (webhook limit hour : ℕ) (c : Counters) (redis : Option Counters) (st : State)
    → redis ≡ some c
    → over_limit webhook (pos limit) hour redis st
      ≡ (ltb_ℤ (pos limit) (pos (c webhook hour + 1)), raised webhook hour c st)
unfolding raised
over_limit-up webhook limit hour c none st h = ground (arith, h)
over_limit-up webhook limit hour c (some c') st h = rw (some_counters h) refl

is_webhook_throttled-up :
    (now limit : ℕ) (w : Webhook) (c : Counters) (st : State)
    → w.max_per_hour ≡ some (pos limit)
    → 0 < limit
    → st.redis ≡ some c
    → is_webhook_throttled now w st ≡ (
      ltb_ℤ (pos limit) (pos (c w.id (current_hour_bucket now) + 1)),
      raised w.id (current_hour_bucket now) c st,
    )
unfolding is_webhook_throttled
is_webhook_throttled-up now limit w c st h positive up =
    ap (λ m. throttled_by w.id m now st) h
    ∙ limited-throttled w.id limit now st positive
    ∙ over_limit-up w.id limit (current_hour_bucket now) c st.redis st up

-- What a job did to the counters and the requests, for a webhook with a limit.
abbrev pub Spends : ℕ → ℕ → ℕ → Counters → State → State → Type 0
Spends n hour limit c st st' =
    (c' : Counters) × (st'.redis ≡ some c')
    × (count_sent n st'.sent + (limit - c' n hour) ≤ count_sent n st.sent + (limit - c n hour))

count_one_more_here : (n hour : ℕ) (c : Counters) → count_one_more n hour c n hour ≡ c n hour + 1
count_one_more_here n hour c = ground arith

module _ (sign : ℕ → Text → Text) (window_hours : ℕ) (url_allowed : ℕ → Bool) where
  settle_outcome-kept :
      (now : ℕ) (w : Webhook) (payload : ℕ) (delivery : Option ℕ) (outcome : Outcome) (st : State)
      → ((settle_outcome sign window_hours url_allowed now w payload delivery outcome st).0.sent
          ≡ st.sent)
        × ((settle_outcome sign window_hours url_allowed now w payload delivery outcome st).0.redis
            ≡ st.redis)
  settle_outcome-kept now w payload delivery (response status) st =
      elim (Bool-cases (response_ok status)) [
        | inl e ↦ rw e (record_success-kept now w delivery st)
        | inr e ↦ rw e (record_failure-kept now w payload _ delivery st)
      ]
  settle_outcome-kept now w payload delivery threw st =
      record_failure-kept now w payload _ delivery st

  count_sent-log_sent :
      (n now : ℕ) (w : Webhook) (payload : ℕ) (st : State)
      → w.id ≡ n
      → count_sent n (log_sent sign window_hours url_allowed now w payload st).sent
        ≡ count_sent n st.sent + 1
  count_sent-log_sent n now w payload st mine = count_sent-append n st.sent _ mine

  send-kept :
      (n now : ℕ) (w : Webhook) (payload : ℕ) (delivery : Option ℕ) (outcome : Outcome) (st : State)
      → w.id ≡ n
      → (count_sent n (send sign window_hours url_allowed now w payload delivery outcome st).0.sent
          ≤ count_sent n st.sent + 1)
        × ((send sign window_hours url_allowed now w payload delivery outcome st).0.redis
            ≡ st.redis)
  send-kept n now w payload delivery outcome st mine = elim (Bool-cases (url_allowed w.url)) [
    | inl e ↦
        let (sent, redis) =
          settle_outcome-kept now w payload delivery outcome
            (log_sent sign window_hours url_allowed now w payload st) in
        let one_more = count_sent-log_sent n now w payload st mine in
        rw e (rw sent (omega (arith, one_more)), redis)
    | inr e ↦
        let (sent, redis) = record_failure-kept now w payload ssrf_check_failed delivery st in
        rw e (rw sent (omega arith), redis)
  ]

  unless_throttled-Spends :
      (n hour limit now : ℕ) (w : Webhook) (payload : ℕ) (delivery : Option ℕ) (outcome : Outcome)
      (c : Counters) (st : State) (skip : Bool)
      → w.id ≡ n
      → ltb_ℤ (pos limit) (pos (c n hour + 1)) ≡ skip
      → Spends n hour limit c st
          (unless_throttled sign window_hours url_allowed now w payload delivery outcome
            (skip, raised n hour c st)).0
  unfolding raised
  unless_throttled-Spends n hour limit now w payload delivery outcome c st true mine h =
      (count_one_more n hour c, refl, omega (arith, count_one_more_here n hour c))
  unless_throttled-Spends n hour limit now w payload delivery outcome c st false mine h =
      let (sent, redis) = send-kept n now w payload delivery outcome (raised n hour c st) mine in
      let room : c n hour + 1 ≤ limit = ground (arith, h) in
      (count_one_more n hour c, redis, omega (arith, sent, room, count_one_more_here n hour c))

  pub deliver_to-Spends :
      (n hour limit now : ℕ) (w : Webhook) (payload : ℕ) (delivery : Option ℕ) (outcome : Outcome)
      (c : Counters) (st : State)
      → w.id ≡ n
      → current_hour_bucket now ≡ hour
      → w.max_per_hour ≡ some (pos limit)
      → 0 < limit
      → st.redis ≡ some c
      → Spends n hour limit c st
          (deliver_to sign window_hours url_allowed now (some w) payload delivery outcome st).0
  deliver_to-Spends n hour limit now w payload delivery outcome c st mine at h positive up =
      elim (Bool-cases w.circuit_open) [
        | inl e ↦ simp e (c, up, omega arith)
        | inr e ↦
            let throttled : is_webhook_throttled now w st
                ≡ (ltb_ℤ (pos limit) (pos (c n hour + 1)), raised n hour c st) =
              is_webhook_throttled-up now limit w c st h positive up
              ∙ ap
                  (λ k. (
                    ltb_ℤ (pos limit) (pos (c k (current_hour_bucket now) + 1)),
                    raised k (current_hour_bucket now) c st,
                  ))
                  mine
              ∙ ap (λ k. (ltb_ℤ (pos limit) (pos (c n k + 1)), raised n k c st)) at in
            subst (λ r. Spends n hour limit c st r.0)
              (sym (
                deliver_to-closed sign window_hours url_allowed now w payload delivery outcome st e
                ∙ ap
                    (λ p.
                      unless_throttled sign window_hours url_allowed now w payload delivery outcome
                        p)
                    throttled))
              (unless_throttled-Spends n hour limit now w payload delivery outcome c st _ mine refl)
      ]
