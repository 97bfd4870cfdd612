-- ===== src/Vaults/Listing/Tests.antt =====
-- A list of active vaults with a filter tree, from a cursor and by pages.
use stellar_yield_contracts.Base.{◌≡◌, refl, true, none, some, [], ◌∷◌, ok}
use stellar_yield_contracts.Amounts.Text.{codes, to_string}
use stellar_yield_contracts.Auth.Text.{eq_text}
use stellar_yield_contracts.Vaults.Filter.{leaf, one, many, apply_filter_tree}
use stellar_yield_contracts.Vaults.Sorting.{desc}
use stellar_yield_contracts.Vaults.Listing.{string, number, ListOptions, list_vaults_query}
use stellar_yield_contracts.Vaults.Listing.Clauses.{RowTests}

abbrev active_large : ListOptions
active_large = record {
  page = 1;
  page_size = 20;
  filters = record {
    state = some (codes "Active");
    category = some [];
    created_from = none;
    created_to = none;
    min_total_assets = some (codes "500");
    max_total_assets = none;
    contract_ids = some [];
    tag = none;
  };
  filter = some (leaf (codes "expected_apy") (codes "gt") (one (number 5)));
  has_cursor = true;
  cursor = some (7, codes "2026-01-01");
}

active_large-query :
    list_vaults_query active_large desc
    ≡ ok (record {
      where_conditions =
          codes "v.state = $1"
          ∷ codes "v.total_assets >= $2::numeric"
          ∷ codes "v.contract_id = ANY($3::text[])"
          ∷ codes "v.archived = FALSE"
          ∷ codes "v.unlisted = FALSE"
          ∷ codes "v.expected_apy > $4"
          ∷ codes "(v.created_at, v.id) < ($5::timestamptz, $6)"
          ∷ [];
      bound =
          one (string (codes "Active"))
          ∷ one (string (codes "500"))
          ∷ many []
          ∷ one (number 5)
          ∷ one (string (codes "2026-01-01"))
          ∷ one (number 7)
          ∷ one (number 21)
          ∷ [];
      limit_idx = 7;
      offset_idx = none;
    })
unfolding list_vaults_query apply_filter_tree eq_text to_string
active_large-query = refl

-- A row for which every condition is true.
abbrev any_row : RowTests
any_row = record {
  satisfies = λ before after v. true;
  satisfies_fixed = λ text. true;
  compares = λ c field v. true;
  comes_after = λ direction created_at id. true;
}
