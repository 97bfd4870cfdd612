-- ===== src/Vaults/Filter/Tests.antt =====
-- A tree of three levels, its text and its parameters.
use stellar_yield_contracts.Base.{
  ℕ, ◌≡◌, refl, ◌↔◌, ◌≤◌, Bool, false, none, some, [], ◌∷◌, ◌==◌, ok,
}
use stellar_yield_contracts.Amounts.Text.{codes, to_string}
use stellar_yield_contracts.Auth.Text.{eq_text}
use stellar_yield_contracts.Vaults.Names.{Text, join}
use stellar_yield_contracts.Vaults.Filter.{
  FilterValue, one, many, FilterTree, leaf, node, no_more, more, filter_tree_depth,
  max_filter_depth, validate_filter_tree, too_deep, apply_filter_tree,
}
use stellar_yield_contracts.Vaults.Filter.Depth.{WellFormed, validate_filter_tree-iff-depth}
use stellar_yield_contracts.Vaults.Filter.Reading.{Comparison, equal}

-- Numbers stand for strings and numbers.
abbrev active_or_large : FilterTree ℕ
active_or_large = node (codes "AND") (
    more (leaf (codes "state") (codes "in") (many (1 ∷ 2 ∷ []))) (
      more
        (node (codes "OR") (
          more (leaf (codes "total_assets") (codes "gte") (one 500))
            (more (leaf (codes "expected_apy") (codes "gt") (one 5)) no_more)))
        no_more))

active_or_large-sql :
    apply_filter_tree active_or_large (one 9 ∷ []) 2
    ≡ ok (record {
      sql =
          codes "(v.state = ANY(ARRAY[$2, $3]) AND (v.total_assets >= $4 OR v.expected_apy > $5))";
      next_idx = 6;
      params = one 9 ∷ one 1 ∷ one 2 ∷ one 500 ∷ one 5 ∷ [];
    })
unfolding apply_filter_tree eq_text join to_string
active_or_large-sql = refl

four_levels-too_deep :
    validate_filter_tree
      (node (codes "AND") (more (node (codes "OR") (more active_or_large no_more)) no_more))
      0
    ≡ some too_deep
unfolding validate_filter_tree eq_text
four_levels-too_deep = refl

validate_filter_tree-iff-depth_example :
    (validate_filter_tree active_or_large 0 ≡ none)
    ↔ (WellFormed active_or_large × (filter_tree_depth active_or_large ≤ max_filter_depth))
validate_filter_tree-iff-depth_example = validate_filter_tree-iff-depth active_or_large

-- A row of which every field is the number 2.
abbrev twos : Comparison → Text → FilterValue ℕ → Bool
twos equal field (one v) = v == 2
twos c field v = false
