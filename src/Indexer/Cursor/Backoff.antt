-- ===== src/Indexer/Cursor/Backoff.antt =====
-- `withBackoff` of indexer.ts.
use stellar_yield_contracts.Base.{
  ℕ, zero, suc, ◌+◌, ◌*◌, ◌^◌, ◌≤◌, ◌<◌, ◌≡◌, refl, min, false, Option, none, some, leb, arith,
  Bool-cases, inl, inr, if◌then◌else◌,
}

-- What one call does: it returns, throws an error that names status 429, or throws another.
pub data Attempt (A : Type 0) : Type 0 where
  success : A → Attempt A
  rate_limited failed : Attempt A

-- The value, or none where the error is thrown on; the calls made and the milliseconds waited.
pub record Backoff (A : Type 0) : Type 0 where
  pub value : Option A
  pub calls : ℕ
  pub waited : ℕ

-- `RPC_BACKOFF_MAX_DELAY_MS`
abbrev pub rpc_backoff_max_delay_ms : ℕ
rpc_backoff_max_delay_ms = 30000

-- `call n` is the answer to the call of attempt `n`; `jitter n c` is `random() * c` at that attempt.
module _ {A : Type 0} (call : ℕ → Attempt A) (jitter : ℕ → ℕ → ℕ) (retries start_delay_ms : ℕ) where
  abbrev pub delay_ms : ℕ → ℕ
  delay_ms attempt = min (jitter attempt (start_delay_ms * 2 ^ attempt)) rpc_backoff_max_delay_ms

  abbrev pub backoff_round : Attempt A → ℕ → ℕ → Backoff A → Backoff A
  backoff_round (success a) attempt waited next = record {
    value = some a;
    calls = attempt + 1;
    waited = waited;
  }
  backoff_round failed attempt waited next = record {
    value = none;
    calls = attempt + 1;
    waited = waited;
  }
  backoff_round rate_limited attempt waited next =
      if leb retries attempt
      then record { value = none; calls = attempt + 1; waited = waited }
      else next

  -- The loop, from an attempt on. The fuel is one more than the retries that are left.
  unfoldable pub backoff_from : ℕ → ℕ → ℕ → Backoff A
  backoff_from zero attempt waited = record { value = none; calls = attempt; waited = waited }
  backoff_from (suc fuel) attempt waited =
      backoff_round (call attempt) attempt waited
        (backoff_from fuel (attempt + 1) (waited + delay_ms attempt))

  -- `withBackoff`
  unfoldable pub with_backoff : Backoff A
  unfolding backoff_from
  with_backoff = backoff_from (retries + 1) 0 0

  -- At most one call more than the retries, and at most the longest delay for each retry.
  abbrev pub IsBounded : Backoff A → Type 0
  IsBounded b =
      (1 ≤ b.calls) × (b.calls ≤ retries + 1) × (b.waited ≤ retries * rpc_backoff_max_delay_ms)

  backoff_round-IsBounded :
      (a : Attempt A) (attempt waited : ℕ) (next : Backoff A)
      → attempt ≤ retries
      → waited ≤ attempt * rpc_backoff_max_delay_ms
      → (attempt < retries → IsBounded next)
      → IsBounded (backoff_round a attempt waited next)
  backoff_round-IsBounded (success a) attempt waited next h w rest =
      (omega arith, omega arith, omega arith)
  backoff_round-IsBounded failed attempt waited next h w rest =
      (omega arith, omega arith, omega arith)
  backoff_round-IsBounded rate_limited attempt waited next h w rest =
      elim (Bool-cases (leb retries attempt)) [
        | inl last ↦ rw last (omega arith, omega arith, omega arith)
        | inr more ↦ rw more (rest (ground (arith, more)))
      ]

  backoff_from-IsBounded :
      (fuel attempt waited : ℕ)
      → attempt + fuel ≡ retries + 1
      → 0 < fuel
      → waited ≤ attempt * rpc_backoff_max_delay_ms
      → IsBounded (backoff_from fuel attempt waited)
  unfolding backoff_from
  backoff_from-IsBounded zero attempt waited e positive w =
      let no : ⊥ = omega (arith, positive) in elim no [ ]
  backoff_from-IsBounded (suc fuel) attempt waited e positive w =
      backoff_round-IsBounded (call attempt) attempt waited _ (omega arith) w (λ h.
        backoff_from-IsBounded fuel (attempt + 1) (waited + delay_ms attempt) (omega arith)
          (omega arith) (omega arith))

  -- Whatever the server answers, there are at least one call and at most one more than the retries, and
  -- the waits together are at most 30 seconds for each retry.
  pub with_backoff-IsBounded : IsBounded with_backoff
  unfolding with_backoff
  with_backoff-IsBounded =
      backoff_from-IsBounded (retries + 1) 0 0 (omega arith) (omega arith) (omega arith)

  backoff_from_succeeds :
      (k fuel attempt waited : ℕ) (a : A)
      → attempt + fuel ≡ retries + 1
      → k < fuel
      → call (attempt + k) ≡ success a
      → ((m : ℕ) → m < k → call (attempt + m) ≡ rate_limited)
      → ((backoff_from fuel attempt waited).value ≡ some a)
        × ((backoff_from fuel attempt waited).calls ≡ attempt + k + 1)
  unfolding backoff_from
  backoff_from_succeeds k zero attempt waited a e enough hit limited =
      let no : ⊥ = omega (arith, enough) in elim no [ ]
  backoff_from_succeeds zero (suc fuel) attempt waited a e enough hit limited =
      let here : attempt + 0 ≡ attempt = omega arith in
      let now = rw here at hit in rw now (refl, omega arith)
  backoff_from_succeeds (suc k) (suc fuel) attempt waited a e enough hit limited =
      let here : attempt + 0 ≡ attempt = omega arith in
      let first = rw here at (limited 0 (omega arith)) in
      let more : leb retries attempt ≡ false = ground (arith, e, enough) in
      let shift : (m : ℕ) → attempt + 1 + m ≡ attempt + suc m = λ m. omega arith in
      let (value, calls) =
        backoff_from_succeeds k fuel (attempt + 1) (waited + delay_ms attempt) a (omega arith)
          (omega arith) (rw (shift k) hit) (λ m h. rw (shift m) (limited (suc m) (omega arith))) in
      rw (first, more) (value, omega (arith, calls))

  -- When the first n calls are rate limited, n is at most the number of retries, and the next call
  -- succeeds, its value is the answer, and there are no further calls.
  pub with_backoff_succeeds :
      (n : ℕ) (a : A)
      → n ≤ retries
      → call n ≡ success a
      → ((m : ℕ) → m < n → call m ≡ rate_limited)
      → (with_backoff.value ≡ some a) × (with_backoff.calls ≡ n + 1)
  unfolding with_backoff
  with_backoff_succeeds n a h hit limited =
      let unshift : (m : ℕ) → 0 + m ≡ m = λ m. omega arith in
      let (value, calls) =
        backoff_from_succeeds n (retries + 1) 0 0 a (omega arith) (omega arith) (rw (unshift n) hit)
          (λ m below. rw (unshift m) (limited m below)) in
      (value, omega (arith, calls))
