-- ===== src/Indexer/Access/Latest.antt =====
-- Who has access, by the events that were processed.
use stellar_yield_contracts.Base.{
  ℕ, ◌≡◌, refl, Bool, true, false, ◌&&◌, some, List, [], ◌∷◌, arith, ◌==◌, find, if◌then◌else◌,
}
use stellar_yield_contracts.Indexer.Store.{Vault, has_contract}
use stellar_yield_contracts.Indexer.Access.{
  AccessTables, is_operator, is_role, handle_operator_added, handle_operator_removed,
  handle_role_granted, handle_role_revoked,
}
use stellar_yield_contracts.Indexer.Access.Switches.{
  operator_active, role_active, upsert-operator_active, grant-role_active, revoke-role_active,
}

-- The events of one vault, each with the time at which it is processed.
pub data AccessEvent : Type 0 where
  operator_added : (operator caller timestamp : ℕ) → AccessEvent
  operator_removed : (now operator caller : ℕ) → AccessEvent
  role_granted : (now user role : ℕ) → AccessEvent
  role_revoked : (now user role : ℕ) → AccessEvent

abbrev pub apply_access : ℕ → AccessEvent → AccessTables → AccessTables
apply_access c (operator_added operator caller timestamp) s =
    handle_operator_added c operator caller timestamp s
apply_access c (operator_removed now operator caller) s =
    handle_operator_removed now c operator caller s
apply_access c (role_granted now user role) s = handle_role_granted now c user role s
apply_access c (role_revoked now user role) s = handle_role_revoked now c user role s

-- The tables after the events; the last one stands first.
unfoldable pub after_access : ℕ → List AccessEvent → AccessTables → AccessTables
after_access c [] s = s
after_access c (e ∷ earlier) s = apply_access c e (after_access c earlier s)

-- What the last event about an operator says, or else what held before.
abbrev pub last_of_operator : ℕ → Bool → List AccessEvent → Bool
last_of_operator operator before [] = before
last_of_operator operator before (operator_added o caller timestamp ∷ earlier) =
    if operator == o then true else last_of_operator operator before earlier
last_of_operator operator before (operator_removed now o caller ∷ earlier) =
    if operator == o then false else last_of_operator operator before earlier
last_of_operator operator before (role_granted now u r ∷ earlier) =
    last_of_operator operator before earlier
last_of_operator operator before (role_revoked now u r ∷ earlier) =
    last_of_operator operator before earlier

abbrev pub last_of_role : ℕ → ℕ → Bool → List AccessEvent → Bool
last_of_role user role before [] = before
last_of_role user role before (operator_added o caller timestamp ∷ earlier) =
    last_of_role user role before earlier
last_of_role user role before (operator_removed now o caller ∷ earlier) =
    last_of_role user role before earlier
last_of_role user role before (role_granted now u r ∷ earlier) =
    if user == u && role == r then true else last_of_role user role before earlier
last_of_role user role before (role_revoked now u r ∷ earlier) =
    if user == u && role == r then false else last_of_role user role before earlier

is_operator_refl : (vault o : ℕ) → (vault == vault && o == o) ≡ true
is_operator_refl vault o = ground arith

module _ (c : ℕ) (v : Vault) where
  known-apply_access :
      (e : AccessEvent) (s : AccessTables)
      → find (has_contract c) s.vaults ≡ some v
      → find (has_contract c) (apply_access c e s).vaults ≡ some v
  unfolding handle_operator_added handle_operator_removed handle_role_granted handle_role_revoked
  known-apply_access (operator_added p caller t) s k = rw k k
  known-apply_access (operator_removed now p caller) s k = rw k k
  known-apply_access (role_granted now p q) s k = rw k k
  known-apply_access (role_revoked now p q) s k = rw k k

  known-after_access :
      (events : List AccessEvent) (s : AccessTables)
      → find (has_contract c) s.vaults ≡ some v
      → find (has_contract c) (after_access c events s).vaults ≡ some v
  unfolding after_access
  known-after_access [] s k = k
  known-after_access (e ∷ earlier) s k =
      known-apply_access e (after_access c earlier s) (known-after_access earlier s k)

  operator_active-apply_access :
      (o : ℕ) (e : AccessEvent) (s : AccessTables) (events : List AccessEvent) (before : Bool)
      → find (has_contract c) s.vaults ≡ some v
      → operator_active (find (is_operator v.id o) s.operators) ≡ last_of_operator o before events
      → operator_active (find (is_operator v.id o) (apply_access c e s).operators)
        ≡ last_of_operator o before (e ∷ events)
  unfolding handle_operator_added handle_operator_removed handle_role_granted handle_role_revoked
  operator_active-apply_access o (operator_added p caller t) s events before k was = rw k (
      upsert-operator_active v.id o p _ _ s.operators true _ (is_operator_refl v.id p) (λ q x. refl)
        refl (λ x. refl) was)
  operator_active-apply_access o (operator_removed now p caller) s events before k was = rw k (
      upsert-operator_active v.id o p _ _ s.operators false _ (is_operator_refl v.id p)
        (λ q x. refl) refl (λ x. refl) was)
  operator_active-apply_access o (role_granted now p q) s events before k was = rw k was
  operator_active-apply_access o (role_revoked now p q) s events before k was = rw k was

  role_active-apply_access :
      (u r : ℕ) (e : AccessEvent) (s : AccessTables) (events : List AccessEvent) (before : Bool)
      → find (has_contract c) s.vaults ≡ some v
      → role_active (find (is_role v.id u r) s.roles) ≡ last_of_role u r before events
      → role_active (find (is_role v.id u r) (apply_access c e s).roles)
        ≡ last_of_role u r before (e ∷ events)
  unfolding handle_operator_added handle_operator_removed handle_role_granted handle_role_revoked
  role_active-apply_access u r (operator_added p caller t) s events before k was = rw k was
  role_active-apply_access u r (operator_removed now p caller) s events before k was = rw k was
  role_active-apply_access u r (role_granted now p q) s events before k was =
      rw k (grant-role_active v.id u r p q now s.roles _ was)
  role_active-apply_access u r (role_revoked now p q) s events before k was =
      rw k (revoke-role_active v.id u r p q now s.roles _ was)

  -- After any run of the operator and role events of a vault that is known, an operator is active just if
  -- the last event about it added it, and a user holds a role just if the last event about both granted it;
  -- where no event is about them, it is as before the run.
  pub after_access-last :
      (events : List AccessEvent) (s : AccessTables) (o u r : ℕ)
      → find (has_contract c) s.vaults ≡ some v
      → (operator_active (find (is_operator v.id o) (after_access c events s).operators)
          ≡ last_of_operator o (operator_active (find (is_operator v.id o) s.operators)) events)
        × (role_active (find (is_role v.id u r) (after_access c events s).roles)
            ≡ last_of_role u r (role_active (find (is_role v.id u r) s.roles)) events)
  unfolding after_access
  after_access-last [] s o u r k = (refl, refl)
  after_access-last (e ∷ earlier) s o u r k =
      let known = known-after_access earlier s k in
      let before = after_access-last earlier s o u r k in
      (
        operator_active-apply_access o e (after_access c earlier s) earlier _ known before.0,
        role_active-apply_access u r e (after_access c earlier s) earlier _ known before.1,
      )
