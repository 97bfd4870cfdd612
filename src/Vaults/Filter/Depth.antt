-- ===== src/Vaults/Filter/Depth.antt =====
-- Which filter trees pass the check.
use stellar_yield_contracts.Base.{
  ℕ, ◌+◌, ◌≤◌, ◌≡◌, refl, ◌↔◌, Bool, true, false, Option, none, some, arith, leb, not,
}
use stellar_yield_contracts.Amounts.Text.{codes}
use stellar_yield_contracts.Auth.Text.{eq_text}
use stellar_yield_contracts.Vaults.Names.{Text, includes}
use stellar_yield_contracts.Vaults.Filter.{
  max_filter_depth, FilterError, too_deep, no_filters, unknown_logic, error_if, first_error,
  FilterValue, one, many, FilterTree, leaf, node, FilterTrees, no_more, more, filter_allowed_fields,
  filter_leaf_ops, filter_node_ops, is_array, has_filters, filter_tree_depth, filter_trees_depth,
  validate_leaf, validate_filter_tree, validate_filter_trees,
}

-- Every leaf has an allowed field and operator, an array where the operator is "in"; every node has
-- an allowed operator and at least one filter.
abbrev pub LeafWellFormed : {S : Type 0} → Text → Text → FilterValue S → Type 0
LeafWellFormed field op value =
    (includes filter_allowed_fields field ≡ true)
    × (includes filter_leaf_ops op ≡ true)
    × (eq_text op (codes "in") ≡ true → is_array value ≡ true)

unfoldable mutual
  pub WellFormed : {S : Type 0} → FilterTree S → Type 0
  WellFormed (leaf field op value) = LeafWellFormed field op value
  WellFormed (node op filters) =
      (includes filter_node_ops op ≡ true) × (has_filters filters ≡ true) × AllWellFormed filters

  pub AllWellFormed : {S : Type 0} → FilterTrees S → Type 0
  AllWellFormed no_more = Unit
  AllWellFormed (more t ts) = WellFormed t × AllWellFormed ts

error_if-none :
    (b : Bool) (e : FilterError) (later : Option FilterError)
    → error_if b e later ≡ none
    → (b ≡ false) × (later ≡ none)
error_if-none true e later h = ground (arith, h)
error_if-none false e later h = (refl, h)

first_error-none :
    (now later : Option FilterError) → first_error now later ≡ none → (now ≡ none) × (later ≡ none)
first_error-none none later h = (refl, h)
first_error-none (some e) later h = ground (arith, h)

-- A leaf's check, read through the three tests that it makes.
leaf_checks :
    {S : Type 0} (field op : Text) (value : FilterValue S)
    → (validate_leaf field op value ≡ none) ↔ LeafWellFormed field op value
leaf_checks field op (one v) = ground arith
leaf_checks field op (many vs) = ground arith

mutual
  unfolding WellFormed filter_tree_depth validate_filter_tree

  validate-WellFormed :
      {S : Type 0} (t : FilterTree S) (d : ℕ)
      → validate_filter_tree t d ≡ none
      → WellFormed t × (d + filter_tree_depth t ≤ 3)
  validate-WellFormed (leaf field op value) d h =
      let (low, fine) =
        error_if-none (leb max_filter_depth d) too_deep (validate_leaf field op value) h in
      ((leaf_checks field op value).0 fine, ground (arith, low))
  validate-WellFormed (node op filters) d h =
      let below = validate_filter_trees filters (d + 1) in
      let filled = error_if (not (has_filters filters)) (no_filters op) below in
      let logic = error_if (not (includes filter_node_ops op)) (unknown_logic op) filled in
      let (low, h1) = error_if-none (leb max_filter_depth d) too_deep logic h in
      let (known, h2) =
        error_if-none (not (includes filter_node_ops op)) (unknown_logic op) filled h1 in
      let (some_left, rest) = error_if-none (not (has_filters filters)) (no_filters op) below h2 in
      let deep : d + 1 ≤ 3 = ground (arith, low) in
      let (all, within) = validates-WellFormed filters (d + 1) deep rest in
      ((ground (arith, known), ground (arith, some_left), all), omega (arith, within))

  validates-WellFormed :
      {S : Type 0} (ts : FilterTrees S) (d : ℕ)
      → d ≤ 3
      → validate_filter_trees ts d ≡ none
      → AllWellFormed ts × (d + filter_trees_depth ts ≤ 3)
  validates-WellFormed no_more d low h = (tt, omega (arith, low))
  validates-WellFormed (more t ts) d low h =
      let (here, later) =
        first_error-none (validate_filter_tree t d) (validate_filter_trees ts d) h in
      let (fine, within) = validate-WellFormed t d here in
      let (all, rest) = validates-WellFormed ts d low later in
      ((fine, all), omega (arith, within, rest))

mutual
  unfolding WellFormed filter_tree_depth validate_filter_tree

  WellFormed-validate :
      {S : Type 0} (t : FilterTree S) (d : ℕ)
      → WellFormed t
      → d + filter_tree_depth t ≤ 3
      → validate_filter_tree t d ≡ none
  WellFormed-validate (leaf field op value) d h low =
      let fine = (leaf_checks field op value).1 h in ground (arith, fine, low)
  WellFormed-validate (node op filters) d (known, some_left, all) low =
      let rest = WellFormed-validates filters (d + 1) all (omega (arith, low)) in
      ground (arith, known, some_left, rest, low)

  WellFormed-validates :
      {S : Type 0} (ts : FilterTrees S) (d : ℕ)
      → AllWellFormed ts
      → d + filter_trees_depth ts ≤ 3
      → validate_filter_trees ts d ≡ none
  WellFormed-validates no_more d h low = refl
  WellFormed-validates (more t ts) d (h, hs) low =
      rw (WellFormed-validate t d h (omega (arith, low)))
        (WellFormed-validates ts d hs (omega (arith, low)))

-- The check of a filter tree finds no error exactly where every leaf has an allowed field and an
-- allowed operator, with an array where that is "in", every node has AND or OR and at least one
-- filter, and the depth that filterTreeDepth measures is at most 3.
pub validate_filter_tree-iff-depth :
    {S : Type 0} (t : FilterTree S)
    → (validate_filter_tree t 0 ≡ none) ↔ (WellFormed t × (filter_tree_depth t ≤ max_filter_depth))
validate_filter_tree-iff-depth t = (
  λ h. let (fine, low) = validate-WellFormed t 0 h in (fine, omega (arith, low)),
  λ h. let (fine, low) = h in WellFormed-validate t 0 fine (omega (arith, low)),
)
