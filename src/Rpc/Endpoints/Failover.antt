-- ===== src/Rpc/Endpoints/Failover.antt =====
-- Which endpoint answers a call, and what is thrown when none does.
use stellar_yield_contracts.Base.{
  ◌≡◌, refl, sym, ◌⊎◌, inl, inr, Bool, false, List, [], ◌∷◌, ◌++◌, arith, All, Result, ok, err,
  select, Bool-cases,
}
use stellar_yield_contracts.Rpc.Endpoints.{
  Url, Failures, is_endpoint_healthy, or_all, try_list, urls_to_try, EndpointError, last_error,
  try_urls, try_rpc_endpoints,
}

select-none : (p : Url → Bool) (urls : List Url) → select p urls ≡ [] → All (λ u. p u ≡ false) urls
select-none p [] h = tt
select-none p (u ∷ urls) h = elim (Bool-cases (p u)) [
  | inl e ↦ let no_cons : ⊥ = ground (arith, h, e) in elim no_cons [ ]
  | inr e ↦ (e, select-none p urls (rw e at h))
]

-- The endpoints tried are all the healthy ones in their order, at least one, or they are all, none
-- of them healthy.
abbrev pub TriedFrom : Failures → List Url → List Url → Type 0
TriedFrom failures configured tried =
    ((tried ≡ select (is_endpoint_healthy failures) configured)
      × (first : Url) × (others : List Url) × (tried ≡ first ∷ others))
    ⊎ ((tried ≡ configured) × All (λ u. is_endpoint_healthy failures u ≡ false) configured)

or_all-TriedFrom :
    (failures : Failures) (configured healthy : List Url)
    → select (is_endpoint_healthy failures) configured ≡ healthy
    → TriedFrom failures configured (or_all configured healthy)
or_all-TriedFrom failures configured [] h =
    inr (refl, select-none (is_endpoint_healthy failures) configured h)
or_all-TriedFrom failures configured (u ∷ healthy) h = inl (sym h, u, healthy, refl)

module _ {E A : Type 0} (fn : Url → Result E A) where
  abbrev pub IsFailing : Url → Type 0
  IsFailing url = (e : E) × (fn url ≡ err e)

  -- Those called before one that answers, or all of them, with the error of the last.
  pub data Answered : List Url → Result (EndpointError E) A → Type 0 where
    answered :
        (before : List Url) (url : Url) (after : List Url) (a : A)
        → All IsFailing before
        → fn url ≡ ok a
        → Answered (before ++ (url ∷ after)) (ok a)
    failed :
        (before : List Url) (url : Url) (e : E)
        → All IsFailing before
        → fn url ≡ err e
        → Answered (before ++ (url ∷ [])) (err (last_error e))

  Answered-later :
      (url : Url) (urls : List Url) (r : Result (EndpointError E) A)
      → IsFailing url
      → Answered urls r
      → Answered (url ∷ urls) r
  Answered-later url _ _ h (answered before u after a hs e) =
      answered (url ∷ before) u after a (h, hs) e
  Answered-later url _ _ h (failed before u e hs k) = failed (url ∷ before) u e (h, hs) k

  Result-cases : (r : Result E A) → ((a : A) × (r ≡ ok a)) ⊎ ((e : E) × (r ≡ err e))
  Result-cases (ok a) = inl (a, refl)
  Result-cases (err e) = inr (e, refl)

  try_urls-Answered : (url : Url) (urls : List Url) → Answered (url ∷ urls) (try_urls fn url urls)
  unfolding try_urls
  try_urls-Answered url [] = elim (Result-cases (fn url)) [
    | inl (a, e) ↦ rw e (answered [] url [] a tt e)
    | inr (x, e) ↦ rw e (failed [] url x tt e)
  ]
  try_urls-Answered url (next ∷ urls) = elim (Result-cases (fn url)) [
    | inl (a, e) ↦ rw e (answered [] url (next ∷ urls) a tt e)
    | inr (x, e) ↦ rw e (
        Answered-later url (next ∷ urls) (try_urls fn next urls) (x, e)
          (try_urls-Answered next urls))
  ]

  try_list-Answered :
      (url : Url) (urls healthy : List Url)
      → Answered (or_all (url ∷ urls) healthy) (try_list fn (or_all (url ∷ urls) healthy))
  try_list-Answered url urls [] = try_urls-Answered url urls
  try_list-Answered url urls (u ∷ healthy) = try_urls-Answered u healthy

  -- With at least one endpoint configured, the endpoints to try are all the healthy ones in the order of the
  -- configuration, or all of them where none is healthy; the result is the answer of the first of these that gives one, all
  -- before it having failed, or else, all having failed, the error of the last.
  pub try_rpc_endpoints-Answered :
      (failures : Failures) (url : Url) (urls : List Url)
      → TriedFrom failures (url ∷ urls) (urls_to_try failures (url ∷ urls))
        × Answered (urls_to_try failures (url ∷ urls)) (try_rpc_endpoints fn failures (url ∷ urls))
  unfolding try_rpc_endpoints
  try_rpc_endpoints-Answered failures url urls = (
    or_all-TriedFrom failures (url ∷ urls) _ refl,
    try_list-Answered url urls (select (is_endpoint_healthy failures) (url ∷ urls)),
  )
