-- ===== src/Vaults/Sorting.antt =====
-- backend/src/services/vault.ts: the `sort` parameter of the vault list, and its ORDER BY clause.
mod Parsed
mod RoundTrip
mod Tests
use stellar_yield_contracts.Base.{
  ℕ, suc, Bool, true, false, not, Option, none, some, or_else, List, [], ◌∷◌, ◌++◌, ltb, ◌==◌,
  if◌then◌else◌, any, map, length, Result, ok, err, ◌>>=◌, ◌>>◌, throw_if,
}
use stellar_yield_contracts.Amounts.Text.{codes, is_empty, trim}
use stellar_yield_contracts.Auth.Text.{eq_text, split_on}
use stellar_yield_contracts.Vaults.Names.{Text, includes, join}
use stellar_yield_contracts.Vaults.Filter.{column}

abbrev pub vault_sort_fields : List Text
vault_sort_fields =
    codes "created_at"
    ∷ codes "updated_at"
    ∷ codes "total_assets"
    ∷ codes "total_supply"
    ∷ codes "state"
    ∷ codes "name"
    ∷ []

pub data SortDirection : Type 0 where
  asc desc : SortDirection

pub record VaultSortSpec : Type 0 where
  pub field : Text
  pub direction : SortDirection

abbrev pub max_vault_sort_fields : ℕ
max_vault_sort_fields = 3

-- The failures, each with what its message names.
pub data SortError : Type 0 where
  empty_fields : SortError
  too_many_fields : ℕ → SortError
  invalid_entry unknown_sort_field duplicate_field : Text → SortError
  invalid_direction : Text → Text → SortError

abbrev pub is_vault_sort_field : Text → Bool
is_vault_sort_field value = includes vault_sort_fields value

-- `direction ?? defaultOrder`, for a direction that is missing or one of the two
unfoldable pub read_direction : SortDirection → Text → Option Text → Result SortError SortDirection
read_direction default_order field none = ok default_order
read_direction default_order field (some direction) =
    if eq_text direction (codes "asc")
    then ok asc
    else if eq_text direction (codes "desc")
    then ok desc
    else err (invalid_direction direction field)

abbrev spec_of : List Text → Text → SortDirection → Result SortError VaultSortSpec
spec_of seen field direction = do
  throw_if (includes seen field) (duplicate_field field)
  ok (record { field = field; direction = direction })

abbrev checked_entry :
    SortDirection → List Text → Text → Option Text → Result SortError VaultSortSpec
checked_entry default_order seen field direction = do
  throw_if (not (is_vault_sort_field field)) (unknown_sort_field field)
  read_direction default_order field direction >>= λ d. spec_of seen field d

-- `const [field, direction, ...rest] = segment.split(":")`
abbrev pub entry_of_parts :
    SortDirection → List Text → Text → List Text → Result SortError VaultSortSpec
entry_of_parts default_order seen segment [] = checked_entry default_order seen [] none
entry_of_parts default_order seen segment (field ∷ []) = checked_entry default_order seen field none
entry_of_parts default_order seen segment (field ∷ direction ∷ []) =
    checked_entry default_order seen field (some direction)
entry_of_parts default_order seen segment (field ∷ direction ∷ r ∷ rest) =
    err (invalid_entry segment)

abbrev pub parse_entry : SortDirection → List Text → Text → Result SortError VaultSortSpec
parse_entry default_order seen segment =
    entry_of_parts default_order seen segment (split_on b':' segment)

-- The loop over the segments; `seen` holds the fields of those before.
unfoldable pub parse_entries :
    SortDirection → List Text → List Text → Result SortError (List VaultSortSpec)
unfolding read_direction
parse_entries default_order seen [] = ok []
parse_entries default_order seen (segment ∷ segments) =
    parse_entry default_order seen segment >>= λ spec.
    (parse_entries default_order (spec.field ∷ seen) segments >>= λ specs. ok (spec ∷ specs))

abbrev pub parse_segments : SortDirection → List Text → Result SortError (List VaultSortSpec)
parse_segments default_order segments = do
  throw_if (any (λ s. is_empty s) segments) empty_fields
  throw_if (ltb max_vault_sort_fields (length segments)) (too_many_fields (length segments))
  parse_entries default_order [] segments

abbrev default_specs : SortDirection → List VaultSortSpec
default_specs default_order = record { field = codes "created_at"; direction = default_order } ∷ []

unfoldable pub parse_vault_sort :
    Option Text → SortDirection → Result SortError (List VaultSortSpec)
unfolding parse_entries
parse_vault_sort sort default_order =
    let raw = trim (or_else sort []) in
    if is_empty raw
    then ok (default_specs default_order)
    else parse_segments default_order (map (λ s. trim s) (split_on b',' raw))

abbrev pub direction_sql : SortDirection → Text
direction_sql asc = codes "ASC"
direction_sql desc = codes "DESC"

abbrev pub order_by_column : VaultSortSpec → Text
order_by_column spec = column spec.field ++ codes " " ++ direction_sql spec.direction

-- The ORDER BY clause, in which featured vaults come first where no sort is asked for.
abbrev pub order_by_clause : Bool → List VaultSortSpec → Text
order_by_clause featured_first specs =
    let order = join (codes ", ") (map order_by_column specs) in
    if featured_first then codes "v.featured_rank ASC NULLS LAST, " ++ order else order
