-- ===== src/Rpc/Endpoints/History.antt =====
-- When an endpoint is taken out of the pool, by the answers that it has given.
use stellar_yield_contracts.Base.{
  ℕ, ◌+◌, ◌≡◌, ◌↔◌, refl, sym, ◌∙◌, Bool, true, false, none, some, List, [], ◌∷◌, arith, ltb,
  if◌then◌else◌, Bool-cases, inl, inr,
}
use stellar_yield_contracts.Auth.Text.{eq_text, eq_text_sound}
use stellar_yield_contracts.Rpc.Endpoints.{
  Url, Failures, failures_get, failures_set, failures_delete, failures_of, is_endpoint_healthy,
  record_probe_result,
}

eq_text_refl : (s : Url) → eq_text s s ≡ true
unfolding eq_text
eq_text_refl [] = refl
eq_text_refl (c ∷ s) = ground (arith, eq_text_refl s)

get-set_self : (url : Url) (n : ℕ) (f : Failures) → failures_get url (failures_set url n f) ≡ some n
unfolding failures_get failures_set
get-set_self url n [] = rw (eq_text_refl url) refl
get-set_self url n ((u, m) ∷ f) = ground (arith, get-set_self url n f)

get-set_other :
    (url other : Url) (n : ℕ) (f : Failures)
    → eq_text url other ≡ false
    → failures_get url (failures_set other n f) ≡ failures_get url f
unfolding failures_get failures_set
get-set_other url other n [] h = rw h refl
get-set_other url other n ((u, m) ∷ f) h = elim (Bool-cases (eq_text other u)) [
  | inl e ↦ rw (e, sym (eq_text_sound other u e), h) refl
  | inr e ↦ rw (e, get-set_other url other n f h) refl
]

get-delete_self : (url : Url) (f : Failures) → failures_get url (failures_delete url f) ≡ none
unfolding failures_get failures_delete
get-delete_self url [] = refl
get-delete_self url ((u, m) ∷ f) = ground (arith, get-delete_self url f)

get-delete_other :
    (url other : Url) (f : Failures)
    → eq_text url other ≡ false
    → failures_get url (failures_delete other f) ≡ failures_get url f
unfolding failures_get failures_delete
get-delete_other url other [] h = refl
get-delete_other url other ((u, m) ∷ f) h = elim (Bool-cases (eq_text other u)) [
  | inl e ↦ rw (e, sym (eq_text_sound other u e), h) (get-delete_other url other f h)
  | inr e ↦ rw (e, get-delete_other url other f h) refl
]

-- The map after probes of any endpoints. The newest answer stands first.
unfoldable pub run_probes : List (Url × Bool) → Failures
run_probes [] = []
run_probes ((u, good) ∷ earlier) = record_probe_result u good (run_probes earlier)

-- The answers of one endpoint, the newest first.
abbrev pub answers_of : Url → List (Url × Bool) → List Bool
answers_of url [] = []
answers_of url ((u, good) ∷ earlier) =
    if eq_text url u then good ∷ answers_of url earlier else answers_of url earlier

abbrev failures_in_a_row : List Bool → ℕ
failures_in_a_row [] = 0
failures_in_a_row (true ∷ answers) = 0
failures_in_a_row (false ∷ answers) = failures_in_a_row answers + 1

failures_of-record_self :
    (url : Url) (good : Bool) (f : Failures)
    → failures_of url (record_probe_result url good f) ≡ (if good then 0 else failures_of url f + 1)
failures_of-record_self url true f = rw (get-delete_self url f) refl
failures_of-record_self url false f = rw (get-set_self url (failures_of url f + 1) f) refl

failures_of-record_other :
    (url u : Url) (good : Bool) (f : Failures)
    → eq_text url u ≡ false
    → failures_of url (record_probe_result u good f) ≡ failures_of url f
failures_of-record_other url u true f h = rw (get-delete_other url u f h) refl
failures_of-record_other url u false f h = rw (get-set_other url u (failures_of u f + 1) f h) refl

probed_self :
    (url u : Url) (good : Bool) (earlier : List (Url × Bool))
    → eq_text url u ≡ true
    → failures_of url (run_probes earlier) ≡ failures_in_a_row (answers_of url earlier)
    → failures_of url (record_probe_result u good (run_probes earlier))
      ≡ failures_in_a_row (answers_of url ((u, good) ∷ earlier))
probed_self url u true earlier e h =
    rw
      (
        sym (eq_text_sound url u e),
        failures_of-record_self url true (run_probes earlier),
        eq_text_refl url,
      )
      refl
probed_self url u false earlier e h =
    rw
      (
        sym (eq_text_sound url u e),
        failures_of-record_self url false (run_probes earlier),
        eq_text_refl url,
        h,
      )
      refl

failures_of-run_probes :
    (url : Url) (probes : List (Url × Bool))
    → failures_of url (run_probes probes) ≡ failures_in_a_row (answers_of url probes)
unfolding failures_get run_probes
failures_of-run_probes url [] = refl
failures_of-run_probes url ((u, good) ∷ earlier) = elim (Bool-cases (eq_text url u)) [
  | inl e ↦ probed_self url u good earlier e (failures_of-run_probes url earlier)
  | inr e ↦
      failures_of-record_other url u good (run_probes earlier) e
      ∙ rw e (failures_of-run_probes url earlier)
]

three_in_a_row :
    (answers : List Bool)
    → (ltb (failures_in_a_row answers) 3 ≡ false)
      ↔ ((older : List Bool) × (answers ≡ false ∷ false ∷ false ∷ older))
three_in_a_row [] = (λ h. ground (arith, h), λ h. ground (arith, h.1))
three_in_a_row (true ∷ older) = (λ h. ground (arith, h), λ h. ground (arith, h.1))
three_in_a_row (false ∷ []) = (λ h. ground (arith, h), λ h. ground (arith, h.1))
three_in_a_row (false ∷ true ∷ older) = (λ h. ground (arith, h), λ h. ground (arith, h.1))
three_in_a_row (false ∷ false ∷ []) = (λ h. ground (arith, h), λ h. ground (arith, h.1))
three_in_a_row (false ∷ false ∷ true ∷ older) = (λ h. ground (arith, h), λ h. ground (arith, h.1))
three_in_a_row (false ∷ false ∷ false ∷ older) = (λ h. (older, refl), λ h. ground arith)

-- After any probes of any endpoints, an endpoint is out of the pool exactly if its last three
-- answers were failures.
pub is_endpoint_healthy-answers :
    (url : Url) (probes : List (Url × Bool))
    → (is_endpoint_healthy (run_probes probes) url ≡ false)
      ↔ ((older : List Bool) × (answers_of url probes ≡ false ∷ false ∷ false ∷ older))
is_endpoint_healthy-answers url probes =
    rw (failures_of-run_probes url probes) (three_in_a_row (answers_of url probes))
