-- ===== src/Indexer/Access/Tests.antt =====
-- An operator that is added and removed, and a role that is granted, revoked and granted.
use stellar_yield_contracts.Base.{◌≡◌, refl, List, [], ◌∷◌, find}
use stellar_yield_contracts.Indexer.Fixtures.{pool}
use stellar_yield_contracts.Indexer.Access.{AccessTables, is_operator, is_role}
use stellar_yield_contracts.Indexer.Access.Switches.{operator_active, role_active}
use stellar_yield_contracts.Indexer.Access.Latest.{
  AccessEvent, operator_added, operator_removed, role_granted, role_revoked, after_access,
  last_of_operator, last_of_role, after_access-last,
}

-- The last event stands first.
abbrev events : List AccessEvent
events =
    role_granted 15 6 2
    ∷ operator_removed 14 5 9
    ∷ role_revoked 13 6 2
    ∷ role_granted 12 6 2
    ∷ operator_added 5 9 11
    ∷ []

abbrev empty : AccessTables
empty = record { vaults = pool ∷ []; operators = []; roles = [] }

after_access-last_example :
    (operator_active (find (is_operator 1 5) (after_access 70 events empty).operators)
      ≡ last_of_operator 5 (operator_active (find (is_operator 1 5) [])) events)
    × (role_active (find (is_role 1 6 2) (after_access 70 events empty).roles)
        ≡ last_of_role 6 2 (role_active (find (is_role 1 6 2) [])) events)
after_access-last_example = after_access-last 70 pool events empty 5 6 2 refl
