-- ===== src/Vaults/Sorting/Tests.antt =====
-- Sort parameters that are accepted and refused.
use stellar_yield_contracts.Base.{true, ◌≡◌, refl, ◌≤◌, some, [], ◌∷◌, length, ok, err, arith}
use stellar_yield_contracts.Amounts.Text.{codes, trim}
use stellar_yield_contracts.Auth.Text.{eq_text, split_on}
use stellar_yield_contracts.Vaults.Sorting.{
  VaultSortSpec, asc, desc, duplicate_field, max_vault_sort_fields, read_direction, parse_entries,
  parse_vault_sort, order_by_clause,
}
use stellar_yield_contracts.Vaults.Names.{join}
use stellar_yield_contracts.Vaults.Sorting.Parsed.{DistinctFields, parse_vault_sort-DistinctFields}
use stellar_yield_contracts.Vaults.Sorting.RoundTrip.{sort_text, parse_vault_sort-sort_text}

abbrev by_state : VaultSortSpec
by_state = record { field = codes "state"; direction = asc }

abbrev by_assets : VaultSortSpec
by_assets = record { field = codes "total_assets"; direction = desc }

spaces_ignored :
    parse_vault_sort (some (codes " state:asc , total_assets")) desc
    ≡ ok (by_state ∷ by_assets ∷ [])
unfolding parse_vault_sort parse_entries read_direction eq_text split_on trim
spaces_ignored = refl

twice_refused :
    parse_vault_sort (some (codes "state,state:asc")) desc ≡ err (duplicate_field (codes "state"))
unfolding parse_vault_sort parse_entries read_direction eq_text split_on trim
twice_refused = refl

order_by_clause-by_state :
    order_by_clause true (by_state ∷ by_assets ∷ [])
    ≡ codes "v.featured_rank ASC NULLS LAST, v.state ASC, v.total_assets DESC"
unfolding join
order_by_clause-by_state = refl

by_both-DistinctFields : DistinctFields [] (by_state ∷ by_assets ∷ [])
unfolding eq_text
by_both-DistinctFields = (refl, refl, (refl, refl, tt))

parse_vault_sort-DistinctFields_example :
    (1 ≤ length (by_state ∷ by_assets ∷ []))
    × (length (by_state ∷ by_assets ∷ []) ≤ max_vault_sort_fields)
    × DistinctFields [] (by_state ∷ by_assets ∷ [])
parse_vault_sort-DistinctFields_example =
    parse_vault_sort-DistinctFields (some (codes " state:asc , total_assets")) desc
      (by_state ∷ by_assets ∷ []) spaces_ignored

parse_vault_sort-sort_text_example :
    parse_vault_sort (some (sort_text (by_state ∷ by_assets ∷ []))) asc
    ≡ ok (by_state ∷ by_assets ∷ [])
parse_vault_sort-sort_text_example =
    parse_vault_sort-sort_text by_state (by_assets ∷ []) asc (ground arith) by_both-DistinctFields
