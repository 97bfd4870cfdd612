-- ===== src/Webhooks/Circuit/Opening.antt =====
-- A webhook that fails again and again is called until its circuit opens, and no more.
use mathlib.Core.Path.{subst}
use stellar_yield_contracts.Base.{
  length, ◌<◌, ℕ, ◌+◌, ◌-◌, min, ◌≤◌, ◌≡◌, refl, sym, ap, ◌∙◌, Bool, true, false, Option, none,
  some, List, [], ◌∷◌, ◌++◌, arith, find, update_where, find-update_where_self, find_sound, leb,
  ==_iff, Bool-cases, inl, inr, All,
}
use stellar_yield_contracts.Vaults.Names.{Text}
use stellar_yield_contracts.Webhooks.Store.{
  Webhook, Sent, State, Outcome, response, threw, is_webhook, webhook_of, DeliveryError, non_2xx,
  request_threw,
}
use stellar_yield_contracts.Webhooks.Worker.{
  throttled_by, unless_throttled, count_failure, is_webhook_throttled, record_failure,
  settle_outcome, send, deliver_to, process_webhook_delivery, response_ok, log_sent,
}
use stellar_yield_contracts.Webhooks.Circuit.{IsTripped, count_sent}
use stellar_yield_contracts.Webhooks.Circuit.Kept.{count_failure-id, count_failure-IsTripped}
use stellar_yield_contracts.Webhooks.Circuit.Steps.{record_failure-webhooks}

-- A delivery job for the webhook, and what its request gives.
pub record Job : Type 0 where
  pub now : ℕ
  pub payload : ℕ
  pub delivery : Option ℕ
  pub outcome : Outcome

abbrev pub IsFailing : Outcome → Type 0
IsFailing (response status) = response_ok status ≡ false
IsFailing threw = Unit

record_failure-sent :
    (now : ℕ) (w : Webhook) (payload : ℕ) (error : DeliveryError) (delivery : Option ℕ) (st : State)
    → (record_failure now w payload error delivery st).sent ≡ st.sent
unfolding record_failure
record_failure-sent now w payload error none st = refl
record_failure-sent now w payload error (some d) st = refl

count_failure-failures :
    (now n : ℕ) (w : Webhook) → (count_failure now n w).consecutive_failures ≡ n
count_failure-failures now n w = ground arith

pub count_failure-limit :
    (now n : ℕ) (w : Webhook) → (count_failure now n w).max_per_hour ≡ w.max_per_hour
count_failure-limit now n w = ground arith

count_failure-url : (now n : ℕ) (w : Webhook) → (count_failure now n w).url ≡ w.url
count_failure-url now n w = ground arith

pub count_sent-append :
    (n : ℕ) (sent : List Sent) (s : Sent)
    → s.webhook_id ≡ n
    → count_sent n (sent ++ (s ∷ [])) ≡ count_sent n sent + 1
count_sent-append n [] s e = ground (arith, e)
count_sent-append n (r ∷ sent) s e = ground (arith, count_sent-append n sent s e)

module _ (sign : ℕ → Text → Text) (window_hours : ℕ) (url_allowed : ℕ → Bool) where
  abbrev pub run_job : ℕ → Job → State → State
  run_job n j st =
      (process_webhook_delivery sign window_hours url_allowed j.now n j.payload j.delivery j.outcome
        st).0

  unfoldable pub run_jobs : ℕ → List Job → State → State
  run_jobs n [] st = st
  run_jobs n (j ∷ js) st = run_jobs n js (run_job n j st)

  -- The webhook is not throttled, and its URL passes the check of the SSRF protection.
  pub record IsOpenTo (n : ℕ) (w : Webhook) (st : State) : Type 0 where
    pub known : webhook_of n st ≡ some w
    pub unlimited : w.max_per_hour ≡ none
    pub allowed : url_allowed w.url ≡ true

  unthrottled :
      (now : ℕ) (w : Webhook) (st : State)
      → w.max_per_hour ≡ none
      → is_webhook_throttled now w st ≡ (false, st)
  unfolding is_webhook_throttled
  unthrottled now w st h = ap (λ m. throttled_by w.id m now st) h

  settle_outcome-failing :
      (now : ℕ) (w : Webhook) (payload : ℕ) (delivery : Option ℕ) (outcome : Outcome) (st : State)
      → IsFailing outcome
      → (error : DeliveryError) × ((settle_outcome sign window_hours url_allowed now w payload
            delivery outcome st).0
          ≡ record_failure now w payload error delivery st)
  settle_outcome-failing now w payload delivery (response status) st h =
      (non_2xx (some status), rw h refl)
  settle_outcome-failing now w payload delivery threw st h = (request_threw, refl)

  send-allowed :
      (now : ℕ) (w : Webhook) (payload : ℕ) (delivery : Option ℕ) (outcome : Outcome) (st : State)
      → url_allowed w.url ≡ true
      → send sign window_hours url_allowed now w payload delivery outcome st
        ≡ settle_outcome sign window_hours url_allowed now w payload delivery outcome
            (log_sent sign window_hours url_allowed now w payload st)
  send-allowed now w payload delivery outcome st h = rw h refl

  pub deliver_to-closed :
      (now : ℕ) (w : Webhook) (payload : ℕ) (delivery : Option ℕ) (outcome : Outcome) (st : State)
      → w.circuit_open ≡ false
      → deliver_to sign window_hours url_allowed now (some w) payload delivery outcome st
        ≡ unless_throttled sign window_hours url_allowed now w payload delivery outcome
            (is_webhook_throttled now w st)
  deliver_to-closed now w payload delivery outcome st h = simp h refl

  -- A failing job with a circuit that is closed sends a request and records a failure.
  run_job-failed :
      (n : ℕ) (w : Webhook) (j : Job) (st : State)
      → IsOpenTo n w st
      → w.circuit_open ≡ false
      → IsFailing j.outcome
      → (error : DeliveryError) × (run_job n j st
          ≡ record_failure j.now w j.payload error j.delivery
              (log_sent sign window_hours url_allowed j.now w j.payload st))
  unfolding process_webhook_delivery
  run_job-failed n w j st h closed fails =
      let logged = log_sent sign window_hours url_allowed j.now w j.payload st in
      let (error, settled) =
        settle_outcome-failing j.now w j.payload j.delivery j.outcome logged fails in
      (
        error,
        ap
              (λ f.
                (deliver_to sign window_hours url_allowed j.now f j.payload j.delivery j.outcome
                  st).0)
              h.known
            ∙ ap (λ r. r.0)
                (deliver_to-closed j.now w j.payload j.delivery j.outcome st closed
                  ∙ ap
                      (λ c.
                        unless_throttled sign window_hours url_allowed j.now w j.payload j.delivery
                          j.outcome c)
                      (unthrottled j.now w st h.unlimited)
                  ∙ send-allowed j.now w j.payload j.delivery j.outcome st h.allowed)
            ∙ settled,
      )

  pub run_job-open :
      (n : ℕ) (w : Webhook) (j : Job) (st : State)
      → webhook_of n st ≡ some w
      → w.circuit_open ≡ true
      → run_job n j st ≡ st
  unfolding process_webhook_delivery
  run_job-open n w j st known opened =
      ap
        (λ f.
          (deliver_to sign window_hours url_allowed j.now f j.payload j.delivery j.outcome st).0)
        known
      ∙ simp opened refl

  -- The webhook after a failing job, the requests that the job sent counted.
  abbrev Failed : ℕ → Webhook → State → Webhook → State → Type 0
  Failed n w st w' st' =
      IsOpenTo n w' st'
      × IsTripped w'
      × (w'.consecutive_failures ≡ min (w.consecutive_failures + 1) 5)
      × (count_sent n st'.sent
          ≡ count_sent n st.sent + (w'.consecutive_failures - w.consecutive_failures))

  counted-Failed :
      (n : ℕ) (w : Webhook) (j : Job) (st : State) (error : DeliveryError)
      → IsOpenTo n w st
      → IsTripped w
      → w.consecutive_failures < 5
      → Failed n w st (count_failure j.now (w.consecutive_failures + 1) w) (
          record_failure j.now w j.payload error j.delivery
            (log_sent sign window_hours url_allowed j.now w j.payload st))
  counted-Failed n w j st error h tripped low =
      let logged = log_sent sign window_hours url_allowed j.now w j.payload st in
      let mine : w.id ≡ n = (==_iff w.id n).0 (find_sound (is_webhook n) st.webhooks w h.known) in
      let one_more = count_failure-failures j.now (w.consecutive_failures + 1) w in
      (
        record {
          known =
              ap (λ rows. find (is_webhook n) rows)
                (record_failure-webhooks j.now w j.payload error j.delivery logged)
              ∙ ap
                  (λ m. find (is_webhook n) (
                    update_where (is_webhook m) (count_failure j.now (w.consecutive_failures + 1))
                      st.webhooks))
                  mine
              ∙ find-update_where_self (is_webhook n) _ st.webhooks w
                  (λ u e. rw (count_failure-id j.now (w.consecutive_failures + 1) u) e) h.known;
          unlimited = count_failure-limit j.now (w.consecutive_failures + 1) w ∙ h.unlimited;
          allowed =
              ap (λ u. url_allowed u) (count_failure-url j.now (w.consecutive_failures + 1) w)
              ∙ h.allowed;
        },
        count_failure-IsTripped j.now w tripped,
        omega (arith, one_more, low),
        ap (λ sent. count_sent n sent)
              (record_failure-sent j.now w j.payload error j.delivery logged)
            ∙ count_sent-append n st.sent _ mine
            ∙ omega (arith, one_more),
      )

  run_job-Failed :
      (n : ℕ) (w : Webhook) (j : Job) (st : State)
      → IsOpenTo n w st
      → IsTripped w
      → w.consecutive_failures ≤ 5
      → IsFailing j.outcome
      → (w' : Webhook) × Failed n w st w' (run_job n j st)
  run_job-Failed n w j st h tripped bound fails = elim (Bool-cases (leb 5 w.consecutive_failures)) [
    | inl e ↦
        let same = run_job-open n w j st h.known (tripped ∙ e) in
        let full : w.consecutive_failures ≡ 5 = ground (arith, e, bound) in
        (
          w,
          subst (λ s. Failed n w st w s) (sym same) (h, tripped, omega (arith, full), omega arith),
        )
    | inr e ↦
        let (error, ran) = run_job-failed n w j st h (tripped ∙ e) fails in
        let after = count_failure j.now (w.consecutive_failures + 1) w in
        (
          after,
          subst (λ s. Failed n w st after s) (sym ran)
              (counted-Failed n w j st error h tripped (ground (arith, e))),
        )
  ]

  -- A webhook with at most five failures, whose circuit agrees with them, that has no limit per hour and whose URL is allowed,
  -- given any number of jobs whose requests all fail, counts its failures up to five and no further,
  -- its circuit open from then on; and it is sent exactly one request for each failure counted.
  pub run_jobs-opens :
      (n : ℕ) (w : Webhook) (jobs : List Job) (st : State)
      → IsOpenTo n w st
      → IsTripped w
      → w.consecutive_failures ≤ 5
      → All (λ j. IsFailing j.outcome) jobs
      → (w' : Webhook) × (webhook_of n (run_jobs n jobs st) ≡ some w')
        × IsTripped w'
        × (w'.consecutive_failures ≡ min (w.consecutive_failures + length jobs) 5)
        × (count_sent n (run_jobs n jobs st).sent
            ≡ count_sent n st.sent + (w'.consecutive_failures - w.consecutive_failures))
  unfolding run_jobs
  run_jobs-opens n w [] st h tripped bound fails =
      (w, h.known, tripped, omega (arith, bound), omega arith)
  run_jobs-opens n w (j ∷ jobs) st h tripped bound (fail, fails) =
      let (w1, (open1, tripped1, count1, sent1)) = run_job-Failed n w j st h tripped bound fail in
      let (w', known, tripped', count, sent) =
        run_jobs-opens n w1 jobs (run_job n j st) open1 tripped1 (omega (arith, count1)) fails in
      (
        w',
        known,
        tripped',
        omega (arith, count, count1, bound),
        omega (arith, sent, sent1, count, count1, bound),
      )
