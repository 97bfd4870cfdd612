-- ===== src/Vaults/Filter/Reading.antt =====
-- Conditions in SQL over one row, and what a filter tree asks of the row.
use stellar_yield_contracts.Base.{
  ℕ, zero, suc, Bool, true, false, ◌&&◌, ◌||◌, Option, none, some, List, [], ◌∷◌, ◌++◌,
  if◌then◌else◌, any,
}
use stellar_yield_contracts.Amounts.Text.{codes}
use stellar_yield_contracts.Auth.Text.{eq_text}
use stellar_yield_contracts.Vaults.Names.{Text, join}
use stellar_yield_contracts.Vaults.Filter.{
  FilterValue, one, many, FilterTree, leaf, node, FilterTrees, no_more, more, column, placeholder,
}

pub data Comparison : Type 0 where
  equal greater less at_least at_most : Comparison

-- Conditions of a WHERE clause over the row `v`, with numbered parameters.
mutual
  pub data Condition : Type 0 where
    compare_with : Comparison → Text → ℕ → Condition
    -- an array of one element and so many more: PostgreSQL refuses ARRAY[] for want of a type
    equals_any : Text → ℕ → ℕ → Condition
    all_of any_of : Conditions → Condition

  pub data Conditions : Type 0 where
    end : Conditions
    also : Condition → Conditions → Conditions

abbrev pub sign : Comparison → Text
sign equal = codes " = "
sign greater = codes " > "
sign less = codes " < "
sign at_least = codes " >= "
sign at_most = codes " <= "

abbrev pub numbered : ℕ → ℕ → List Text
numbered first zero = []
numbered first (suc count) = placeholder first ∷ numbered (suc first) count

-- A condition in PostgreSQL's syntax, its AND and OR in parentheses.
unfoldable mutual
  pub render : Condition → Text
  render (compare_with c field n) = column field ++ sign c ++ placeholder n
  render (equals_any field first more_elements) =
      column field
      ++ codes " = ANY(ARRAY["
      ++ join (codes ", ") (numbered first (suc more_elements))
      ++ codes "])"
  render (all_of cs) = codes "(" ++ join (codes " AND ") (renders cs) ++ codes ")"
  render (any_of cs) = codes "(" ++ join (codes " OR ") (renders cs) ++ codes ")"

  pub renders : Conditions → List Text
  renders end = []
  renders (also c cs) = render c ∷ renders cs

-- `$n`, which counts from 1
unfoldable pub param : {S : Type 0} → ℕ → List (FilterValue S) → Option (FilterValue S)
param zero params = none
param (suc n) [] = none
param (suc zero) (v ∷ params) = some v
param (suc (suc n)) (v ∷ params) = param (suc n) params

abbrev pub holds_for : {S : Type 0} → (FilterValue S → Bool) → Option (FilterValue S) → Bool
holds_for test none = false
holds_for test (some v) = test v

-- The comparison of a field of one row with a value is the database's.
module _ {S : Type 0} (test : Comparison → Text → FilterValue S → Bool) where
  unfoldable pub any_param : Text → ℕ → ℕ → List (FilterValue S) → Bool
  unfolding param
  any_param field first zero params = false
  any_param field first (suc count) params =
      holds_for (test equal field) (param first params) || any_param field (suc first) count params

  -- Whether a condition is true of the row. There is no NOT, so a condition that is unknown for a
  -- NULL selects the same rows as one that is false.
  unfoldable mutual
    unfolding any_param param

    pub holds : List (FilterValue S) → Condition → Bool
    holds params (compare_with c field n) = holds_for (test c field) (param n params)
    holds params (equals_any field first more_elements) =
        any_param field first (suc more_elements) params
    holds params (all_of cs) = all_hold params cs
    holds params (any_of cs) = any_holds params cs

    pub all_hold : List (FilterValue S) → Conditions → Bool
    all_hold params end = true
    all_hold params (also c cs) = holds params c && all_hold params cs

    pub any_holds : List (FilterValue S) → Conditions → Bool
    any_holds params end = false
    any_holds params (also c cs) = holds params c || any_holds params cs

  abbrev pub equals_one : Text → FilterValue S → Bool
  equals_one field (one v) = test equal field (one v)
  equals_one field (many vs) = any (λ v. test equal field (one v)) vs

  abbrev pub leaf_matches : Text → Text → FilterValue S → Bool
  leaf_matches field op value =
      if eq_text op (codes "eq")
      then test equal field value
      else if eq_text op (codes "gt")
      then test greater field value
      else if eq_text op (codes "lt")
      then test less field value
      else if eq_text op (codes "gte")
      then test at_least field value
      else if eq_text op (codes "lte")
      then test at_most field value
      else equals_one field value

  -- What a filter tree asks of the row.
  unfoldable mutual
    pub matches : FilterTree S → Bool
    matches (leaf field op value) = leaf_matches field op value
    matches (node op filters) =
        if eq_text op (codes "AND") then all_match filters else any_matches filters

    pub all_match : FilterTrees S → Bool
    all_match no_more = true
    all_match (more t ts) = matches t && all_match ts

    pub any_matches : FilterTrees S → Bool
    any_matches no_more = false
    any_matches (more t ts) = matches t || any_matches ts
