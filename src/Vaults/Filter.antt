-- ===== src/Vaults/Filter.antt =====
-- backend/src/services/vault.ts: the filter trees of the vault list, their check and their SQL text.
mod Depth
pub mod Reading
pub mod Leaves
pub mod Meaning
mod Tests
use stellar_yield_contracts.Base.{
  ℕ, suc, ◌+◌, max, Bool, true, false, not, ◌&&◌, Option, none, some, List, [], ◌∷◌, ◌++◌, leb,
  if◌then◌else◌, any, length, Result, ok, err, ◌>>=◌,
}
use stellar_yield_contracts.Amounts.Text.{codes, to_string}
use stellar_yield_contracts.Auth.Text.{eq_text}
use stellar_yield_contracts.Vaults.Names.{Text, includes, join}

-- The value of a leaf, and a bound parameter of a statement. `S` stands for strings and numbers.
pub data FilterValue (S : Type 0) : Type 0 where
  one : S → FilterValue S
  many : List S → FilterValue S

-- A leaf has a field, an operator and a value; a node has an operator and its filters.
mutual
  pub data FilterTree (S : Type 0) : Type 0 where
    leaf : Text → Text → FilterValue S → FilterTree S
    node : Text → FilterTrees S → FilterTree S

  pub data FilterTrees (S : Type 0) : Type 0 where
    no_more : FilterTrees S
    more : FilterTree S → FilterTrees S → FilterTrees S

abbrev pub filter_allowed_fields : List Text
filter_allowed_fields =
    codes "state"
    ∷ codes "rwa_category"
    ∷ codes "total_assets"
    ∷ codes "expected_apy"
    ∷ codes "maturity_date"
    ∷ []

abbrev pub filter_leaf_ops : List Text
filter_leaf_ops = codes "eq" ∷ codes "gt" ∷ codes "lt" ∷ codes "gte" ∷ codes "lte" ∷ codes "in" ∷ []

abbrev pub filter_node_ops : List Text
filter_node_ops = codes "AND" ∷ codes "OR" ∷ []

abbrev pub max_filter_depth : ℕ
max_filter_depth = 3

unfoldable mutual
  pub filter_tree_depth : {S : Type 0} → FilterTree S → ℕ
  filter_tree_depth (leaf field op value) = 1
  filter_tree_depth (node op filters) = 1 + filter_trees_depth filters

  -- `Math.max(...filters.map(filterTreeDepth))`, and 0 where there are no filters.
  pub filter_trees_depth : {S : Type 0} → FilterTrees S → ℕ
  filter_trees_depth no_more = 0
  filter_trees_depth (more t ts) = max (filter_tree_depth t) (filter_trees_depth ts)

pub data FilterError : Type 0 where
  too_deep : FilterError
  unknown_field unknown_operator in_needs_array unknown_logic no_filters : Text → FilterError

-- `return a` if that is an error, and else what follows
abbrev pub first_error : Option FilterError → Option FilterError → Option FilterError
first_error none later = later
first_error (some e) later = some e

abbrev pub error_if : Bool → FilterError → Option FilterError → Option FilterError
error_if true e later = some e
error_if false e later = later

abbrev pub is_array : {S : Type 0} → FilterValue S → Bool
is_array (one v) = false
is_array (many vs) = true

abbrev pub has_filters : {S : Type 0} → FilterTrees S → Bool
has_filters no_more = false
has_filters (more t ts) = true

abbrev pub validate_leaf : {S : Type 0} → Text → Text → FilterValue S → Option FilterError
validate_leaf field op value =
    error_if (not (includes filter_allowed_fields field)) (unknown_field field) (
      error_if (not (includes filter_leaf_ops op)) (unknown_operator op)
        (error_if (eq_text op (codes "in") && not (is_array value)) (in_needs_array op) none))

unfoldable mutual
  pub validate_filter_tree : {S : Type 0} → FilterTree S → ℕ → Option FilterError
  validate_filter_tree (leaf field op value) depth =
      error_if (leb max_filter_depth depth) too_deep (validate_leaf field op value)
  validate_filter_tree (node op filters) depth = error_if (leb max_filter_depth depth) too_deep (
      error_if (not (includes filter_node_ops op)) (unknown_logic op) (
        error_if (not (has_filters filters)) (no_filters op)
          (validate_filter_trees filters (depth + 1))))

  pub validate_filter_trees : {S : Type 0} → FilterTrees S → ℕ → Option FilterError
  validate_filter_trees no_more depth = none
  validate_filter_trees (more t ts) depth =
      first_error (validate_filter_tree t depth) (validate_filter_trees ts depth)

-- What `applyFilterTree` throws: for an operator that it does not know, and where the value of "in"
-- has no `map`.
pub data ApplyError : Type 0 where
  unhandled_op : Text → ApplyError
  no_map : ApplyError

-- The text, the next free index, and the parameters with those pushed.
pub record Applied (S T : Type 0) : Type 0 where
  pub sql : T
  pub next_idx : ℕ
  pub params : List (FilterValue S)

-- `$${idx}`
abbrev pub placeholder : ℕ → Text
placeholder idx = b'$' ∷ to_string idx

abbrev pub placeholders : {S : Type 0} → ℕ → List S → List Text
placeholders idx [] = []
placeholders idx (v ∷ vs) = placeholder idx ∷ placeholders (suc idx) vs

abbrev pub as_params : {S : Type 0} → List S → List (FilterValue S)
as_params [] = []
as_params (v ∷ vs) = one v ∷ as_params vs

abbrev pub column : Text → Text
column field = codes "v." ++ field

abbrev pub compare_sql :
    {S : Type 0}
    → Text
    → Text
    → FilterValue S
    → List (FilterValue S)
    → ℕ
    → Result ApplyError (Applied S Text)
compare_sql field sign value params idx = ok (record {
  sql = column field ++ sign ++ placeholder idx;
  next_idx = suc idx;
  params = params ++ (value ∷ []);
})

abbrev pub in_sql :
    {S : Type 0}
    → Text
    → FilterValue S
    → List (FilterValue S)
    → ℕ
    → Result ApplyError (Applied S Text)
in_sql field (one v) params idx = err no_map
in_sql field (many vs) params idx = ok (record {
  sql =
      column field
      ++ codes " = ANY(ARRAY["
      ++ join (codes ", ") (placeholders idx vs)
      ++ codes "])";
  next_idx = idx + length vs;
  params = params ++ as_params vs;
})

-- The `switch` on the operator of a leaf.
abbrev pub leaf_sql :
    {S : Type 0}
    → Text
    → Text
    → FilterValue S
    → List (FilterValue S)
    → ℕ
    → Result ApplyError (Applied S Text)
leaf_sql field op value params idx =
    if eq_text op (codes "eq")
    then compare_sql field (codes " = ") value params idx
    else if eq_text op (codes "gt")
    then compare_sql field (codes " > ") value params idx
    else if eq_text op (codes "lt")
    then compare_sql field (codes " < ") value params idx
    else if eq_text op (codes "gte")
    then compare_sql field (codes " >= ") value params idx
    else if eq_text op (codes "lte")
    then compare_sql field (codes " <= ") value params idx
    else if eq_text op (codes "in")
    then in_sql field value params idx
    else err (unhandled_op op)

-- `(${parts.join(` ${op} `)})`
abbrev pub join_parts :
    {S : Type 0} → Text → Applied S (List Text) → Result ApplyError (Applied S Text)
join_parts op r = ok (record {
  sql = codes "(" ++ join (codes " " ++ op ++ codes " ") r.sql ++ codes ")";
  next_idx = r.next_idx;
  params = r.params;
})

abbrev pub with_part :
    {S : Type 0} → Text → Applied S (List Text) → Result ApplyError (Applied S (List Text))
with_part part r = ok (record { sql = part ∷ r.sql; next_idx = r.next_idx; params = r.params })

unfoldable mutual
  pub apply_filter_tree :
      {S : Type 0} → FilterTree S → List (FilterValue S) → ℕ → Result ApplyError (Applied S Text)
  apply_filter_tree (leaf field op value) params idx = leaf_sql field op value params idx
  apply_filter_tree (node op filters) params idx =
      apply_filter_trees filters params idx >>= λ r. join_parts op r

  pub apply_filter_trees :
      {S : Type 0}
      → FilterTrees S
      → List (FilterValue S)
      → ℕ
      → Result ApplyError (Applied S (List Text))
  apply_filter_trees no_more params idx = ok (record { sql = []; next_idx = idx; params = params })
  apply_filter_trees (more t ts) params idx = apply_filter_tree t params idx >>= λ r.
      (apply_filter_trees ts r.params r.next_idx >>= λ rs. with_part r.sql rs)
