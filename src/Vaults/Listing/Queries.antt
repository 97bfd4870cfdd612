-- ===== src/Vaults/Listing/Queries.antt =====
-- The statements of the page and of the total ask the same of a row.
use stellar_yield_contracts.Base.{
  ℕ, ◌+◌, ◌-◌, ◌*◌, ◌≡◌, Bool, true, false, Option, none, some, List, map, if◌then◌else◌,
}
use stellar_yield_contracts.Vaults.Filter.{one, FilterTree, validate_filter_tree}
use stellar_yield_contracts.Vaults.Filter.Reading.{param}
use stellar_yield_contracts.Vaults.Filter.Meaning.{no_empty_in}
use stellar_yield_contracts.Vaults.Listing.{Scalar, number, ListOptions, ListQuery}
use stellar_yield_contracts.Vaults.Listing.Clauses.{clause_text, all_clauses_hold, Clause, RowTests}

-- The route layer has validated the filter tree, and no "in" of it has an empty array.
abbrev pub IsValidated : Option (FilterTree Scalar) → Type 0
IsValidated none = Unit {0}
IsValidated (some tree) = (validate_filter_tree tree 0 ≡ none) × (no_empty_in tree ≡ true)

abbrev page_limit : ListOptions → ℕ
page_limit opts = if opts.has_cursor then opts.page_size + 1 else opts.page_size

-- With a cursor there is no OFFSET; without, its placeholder reads the rows before the page.
abbrev ReadsOffset : Bool → ListOptions → ListQuery → Type 0
ReadsOffset true opts q = q.offset_idx ≡ none
ReadsOffset false opts q =
    (n : ℕ) × (q.offset_idx ≡ some n)
    × (param n q.bound ≡ some (one (number ((opts.page - 1) * opts.page_size))))

-- The conditions are clauses that are all true of the row exactly if `asked`, and LIMIT and OFFSET read
-- their own parameters.
pub record AsksPage (row : RowTests) (asked : Bool) (opts : ListOptions) (q : ListQuery)
    : Type 0 where
  pub clauses : List Clause
  pub texts : q.where_conditions ≡ map clause_text clauses
  pub meaning : all_clauses_hold row q.bound clauses ≡ asked
  pub limit : param q.limit_idx q.bound ≡ some (one (number (page_limit opts)))
  pub offset : ReadsOffset opts.has_cursor opts q
