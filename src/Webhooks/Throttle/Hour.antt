-- ===== src/Webhooks/Throttle/Hour.antt =====
-- The requests that jobs send to a webhook within one clock hour.
use mathlib.Core.Path.{subst}
use stellar_yield_contracts.Base.{
  ℕ, ◌+◌, ◌-◌, ◌≤◌, ◌<◌, ◌≡◌, sym, ap, ◌∙◌, inl, inr, Option, some, Bool, or_else, List, [], ◌∷◌,
  arith, All, Option-cases, ==_iff, find_sound,
}
use stellar_yield_contracts.Base.Int.{ℤ, pos}
use stellar_yield_contracts.Vaults.Names.{Text}
use stellar_yield_contracts.Webhooks.Store.{Counters, State, is_webhook, webhook_of}
use stellar_yield_contracts.Webhooks.Worker.{
  current_hour_bucket, deliver_to, process_webhook_delivery,
}
use stellar_yield_contracts.Webhooks.Circuit.{count_sent}
use stellar_yield_contracts.Webhooks.Circuit.Steps.{process_webhook_delivery-Step}
use stellar_yield_contracts.Webhooks.Circuit.Opening.{Job, run_job, run_jobs}
use stellar_yield_contracts.Webhooks.Throttle.{
  limit_in, limit_of, Step-limit, Spends, deliver_to-Spends,
}

some_limit : {a b : Option ℤ} → some a ≡ some b → a ≡ b
some_limit {a} h = ap (λ o. or_else o a) h

module _ (sign : ℕ → Text → Text) (window_hours : ℕ) (url_allowed : ℕ → Bool) where
  run_job-Spends :
      (n hour limit : ℕ) (j : Job) (c : Counters) (st : State)
      → current_hour_bucket j.now ≡ hour
      → limit_of n st ≡ some (some (pos limit))
      → 0 < limit
      → st.redis ≡ some c
      → Spends n hour limit c st (run_job sign window_hours url_allowed n j st)
  unfolding process_webhook_delivery
  run_job-Spends n hour limit j c st at h positive up = elim (Option-cases (webhook_of n st)) [
    | inl gone ↦ let absurd : ⊥ = ground (arith, ap limit_in gone, h) in elim absurd [ ]
    | inr (w, known) ↦
        let mine : w.id ≡ n = (==_iff w.id n).0 (find_sound (is_webhook n) st.webhooks w known) in
        let its : w.max_per_hour ≡ some (pos limit) = some_limit (sym (ap limit_in known) ∙ h) in
        subst
          (λ f.
            Spends n hour limit c st
              (deliver_to sign window_hours url_allowed j.now f j.payload j.delivery j.outcome
                st).0)
          (sym known)
          (deliver_to-Spends sign window_hours url_allowed n hour limit j.now w j.payload j.delivery
            j.outcome c st mine at its positive up)
  ]

  run_jobs-Spends :
      (n hour limit : ℕ) (jobs : List Job) (c : Counters) (st : State)
      → All (λ j. current_hour_bucket j.now ≡ hour) jobs
      → limit_of n st ≡ some (some (pos limit))
      → 0 < limit
      → st.redis ≡ some c
      → Spends n hour limit c st (run_jobs sign window_hours url_allowed n jobs st)
  unfolding run_jobs
  run_jobs-Spends n hour limit [] c st within h positive up = (c, up, omega arith)
  run_jobs-Spends n hour limit (j ∷ jobs) c st (at, within) h positive up =
      let (c1, up1, spent1) = run_job-Spends n hour limit j c st at h positive up in
      let step =
        process_webhook_delivery-Step sign window_hours url_allowed j.now n j.payload j.delivery
          j.outcome st in
      let (c', up', spent) =
        run_jobs-Spends n hour limit jobs c1 (run_job sign window_hours url_allowed n j st) within
          (Step-limit n step ∙ h) positive up1 in
      (c', up', omega (arith, spent, spent1))

  -- While Redis is up, a webhook with a positive limit per hour is sent, by any number of delivery jobs of one
  -- clock hour, whatever their requests give, no more requests than its limit allows beyond those
  -- that its counter for the hour has counted.
  pub run_jobs-limited :
      (n hour limit : ℕ) (jobs : List Job) (c : Counters) (st : State)
      → All (λ j. current_hour_bucket j.now ≡ hour) jobs
      → limit_of n st ≡ some (some (pos limit))
      → 0 < limit
      → st.redis ≡ some c
      → count_sent n (run_jobs sign window_hours url_allowed n jobs st).sent
        ≤ count_sent n st.sent + (limit - c n hour)
  run_jobs-limited n hour limit jobs c st within h positive up =
      let (c', up', spent) = run_jobs-Spends n hour limit jobs c st within h positive up in
      omega (arith, spent)
