-- ===== src/Indexer/Access.antt =====
-- backend/src/services/indexer.ts: the operators and the roles of a vault.
mod Switches
mod Latest
mod Tests
use stellar_yield_contracts.Base.{
  ℕ, Bool, true, false, not, ◌&&◌, Option, none, some, is_some, List, [], ◌∷◌, ◌==◌, find, upsert,
  update_where,
}
use stellar_yield_contracts.Indexer.Store.{Vault, has_contract}

-- A row of `vault_operators`, whose key is the vault and the operator.
pub record VaultOperator : Type 0 where
  pub vault_id : ℕ
  pub operator : ℕ
  pub added_by : ℕ
  pub added_at : ℕ
  pub removed_at : Option ℕ
  pub removed_by : Option ℕ

-- A row of `vault_roles`, whose key is the vault, the user and the role.
pub record VaultRole : Type 0 where
  pub vault_id : ℕ
  pub user_address : ℕ
  pub role : ℕ
  pub granted_at : ℕ
  pub revoked_at : Option ℕ

pub record AccessTables : Type 0 where
  pub vaults : List Vault
  pub operators : List VaultOperator
  pub roles : List VaultRole

abbrev pub is_operator : ℕ → ℕ → VaultOperator → Bool
is_operator vault operator o = o.vault_id == vault && o.operator == operator

abbrev pub is_role : ℕ → ℕ → ℕ → VaultRole → Bool
is_role vault user role r = r.vault_id == vault && r.user_address == user && r.role == role

-- An event of a vault is skipped where the vault is not known.
abbrev pub for_vault :
    (ℕ → AccessTables → AccessTables) → Option Vault → AccessTables → AccessTables
for_vault handle none s = s
for_vault handle (some v) s = handle v.id s

abbrev pub add_operator : (operator caller timestamp vault : ℕ) → AccessTables → AccessTables
add_operator operator caller timestamp vault s = record s {
  operators =
      upsert (is_operator vault operator)
        (record {
          vault_id = vault;
          operator = operator;
          added_by = caller;
          added_at = timestamp;
          removed_at = none;
          removed_by = none;
        })
        (λ o. record o {
          removed_at = none;
          removed_by = none;
          added_by = caller;
          added_at = timestamp;
        })
        s.operators;
}

unfoldable pub handle_operator_added :
    (contract operator caller timestamp : ℕ) → AccessTables → AccessTables
handle_operator_added contract operator caller timestamp s =
    for_vault (add_operator operator caller timestamp) (find (has_contract contract) s.vaults) s

abbrev pub remove_operator : (now operator caller vault : ℕ) → AccessTables → AccessTables
remove_operator now operator caller vault s = record s {
  operators =
      upsert (is_operator vault operator)
        (record {
          vault_id = vault;
          operator = operator;
          added_by = caller;
          added_at = now;
          removed_at = some now;
          removed_by = some caller;
        })
        (λ o. record o { removed_at = some now; removed_by = some caller }) s.operators;
}

unfoldable pub handle_operator_removed :
    (now contract operator caller : ℕ) → AccessTables → AccessTables
handle_operator_removed now contract operator caller s =
    for_vault (remove_operator now operator caller) (find (has_contract contract) s.vaults) s

abbrev pub new_role : (now user role vault : ℕ) → VaultRole
new_role now user role vault = record {
  vault_id = vault;
  user_address = user;
  role = role;
  granted_at = now;
  revoked_at = none;
}

abbrev pub grant_again : ℕ → VaultRole → VaultRole
grant_again now r = record r { revoked_at = none; granted_at = now }

abbrev pub grant_role : (now user role vault : ℕ) → AccessTables → AccessTables
grant_role now user role vault s = record s {
  roles = upsert (is_role vault user role) (new_role now user role vault) (grant_again now) s.roles;
}

unfoldable pub handle_role_granted : (now contract user role : ℕ) → AccessTables → AccessTables
handle_role_granted now contract user role s =
    for_vault (grant_role now user role) (find (has_contract contract) s.vaults) s

-- `… AND revoked_at IS NULL`
abbrev pub is_granted : ℕ → ℕ → ℕ → VaultRole → Bool
is_granted vault user role r = is_role vault user role r && not (is_some r.revoked_at)

abbrev pub revoke_at : ℕ → VaultRole → VaultRole
revoke_at now r = record r { revoked_at = some now }

abbrev pub revoke_role : (now user role vault : ℕ) → AccessTables → AccessTables
revoke_role now user role vault s = record s {
  roles = update_where (is_granted vault user role) (revoke_at now) s.roles;
}

unfoldable pub handle_role_revoked : (now contract user role : ℕ) → AccessTables → AccessTables
handle_role_revoked now contract user role s =
    for_vault (revoke_role now user role) (find (has_contract contract) s.vaults) s
