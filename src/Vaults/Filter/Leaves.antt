-- ===== src/Vaults/Filter/Leaves.antt =====
-- The SQL text of one leaf, and the operators that the check lets through.
use stellar_yield_contracts.Base.{
  ℕ, zero, suc, ◌≡◌, refl, sym, ap, ◌∙◌, Bool, true, some, List, [], ◌∷◌, ◌++◌, arith, any, length,
  length-append, ok, ◌⊎◌, inl, inr,
}
use stellar_yield_contracts.Amounts.Text.{codes}
use stellar_yield_contracts.Auth.Text.{eq_text}
use stellar_yield_contracts.Vaults.Names.{Text, includes, includes-All}
use stellar_yield_contracts.Vaults.Filter.{
  FilterValue, one, many, filter_leaf_ops, filter_node_ops, placeholders, as_params, Applied,
  compare_sql, in_sql, leaf_sql,
}
use stellar_yield_contracts.Vaults.Filter.Reading.{
  Comparison, equal, greater, less, at_least, at_most, Condition, compare_with, equals_any, sign,
  numbered, render, param, any_param, holds, leaf_matches,
}

abbrev pub op_text : Comparison → Text
op_text equal = codes "eq"
op_text greater = codes "gt"
op_text less = codes "lt"
op_text at_least = codes "gte"
op_text at_most = codes "lte"

-- An operator of a leaf is a comparison or "in".
abbrev pub IsLeafOp : Text → Type 0
IsLeafOp op = ((c : Comparison) × (op ≡ op_text c)) ⊎ (op ≡ codes "in")

pub IsLeafOp-cases : (op : Text) → includes filter_leaf_ops op ≡ true → IsLeafOp op
IsLeafOp-cases op h =
    includes-All IsLeafOp filter_leaf_ops op
      (
        inl (equal, refl),
        (
          inl (greater, refl),
          (inl (less, refl), (inl (at_least, refl), (inl (at_most, refl), (inr refl, tt)))),
        ),
      )
      h

abbrev pub IsNodeOp : Text → Type 0
IsNodeOp op = (op ≡ codes "AND") ⊎ (op ≡ codes "OR")

pub IsNodeOp-cases : (op : Text) → includes filter_node_ops op ≡ true → IsNodeOp op
IsNodeOp-cases op h = includes-All IsNodeOp filter_node_ops op (inl refl, (inr refl, tt)) h

pub leaf_sql-op_text :
    {S : Type 0} (c : Comparison) (field : Text) (v : FilterValue S) (params : List (FilterValue S))
    (idx : ℕ)
    → leaf_sql field (op_text c) v params idx ≡ compare_sql field (sign c) v params idx
unfolding eq_text
leaf_sql-op_text equal field v params idx = refl
leaf_sql-op_text greater field v params idx = refl
leaf_sql-op_text less field v params idx = refl
leaf_sql-op_text at_least field v params idx = refl
leaf_sql-op_text at_most field v params idx = refl

placeholders-numbered :
    {S : Type 0} (first : ℕ) (vs : List S) → placeholders first vs ≡ numbered first (length vs)
placeholders-numbered first [] = refl
placeholders-numbered first (v ∷ vs) = rw (placeholders-numbered (suc first) vs) refl

length-as_params : {S : Type 0} (vs : List S) → length (as_params vs) ≡ length vs
length-as_params [] = refl
length-as_params (v ∷ vs) = ap suc (length-as_params vs)

-- The first parameter pushed after those of `params`.
param-length :
    {S : Type 0} (params : List (FilterValue S)) (v : FilterValue S) (rest : List (FilterValue S))
    → param (suc (length params)) (params ++ (v ∷ []) ++ rest) ≡ some v
unfolding param
param-length [] v rest = refl
param-length (p ∷ params) v rest = param-length params v rest

module _ {S : Type 0} (test : Comparison → Text → FilterValue S → Bool) where
  pub leaf_matches-op_text :
      (c : Comparison) (field : Text) (v : FilterValue S)
      → leaf_matches test field (op_text c) v ≡ test c field v
  unfolding eq_text
  leaf_matches-op_text equal field v = refl
  leaf_matches-op_text greater field v = refl
  leaf_matches-op_text less field v = refl
  leaf_matches-op_text at_least field v = refl
  leaf_matches-op_text at_most field v = refl

  any_param-shift :
      (field : Text) (first count : ℕ) (p : FilterValue S) (params : List (FilterValue S))
      → any_param test field (suc (suc first)) count (p ∷ params)
        ≡ any_param test field (suc first) count params
  unfolding any_param param
  any_param-shift field first zero p params = refl
  any_param-shift field first (suc count) p params =
      rw (any_param-shift field (suc first) count p params) refl

  any_param-as_params :
      (field : Text) (params : List (FilterValue S)) (vs : List S) (rest : List (FilterValue S))
      → any_param test field (suc (length params)) (length vs) (params ++ as_params vs ++ rest)
        ≡ any (λ v. test equal field (one v)) vs
  unfolding any_param param
  any_param-as_params field [] [] rest = refl
  any_param-as_params field [] (v ∷ vs) rest =
      rw (any_param-shift field 0 (length vs) (one v) (as_params vs ++ rest))
        (rw (any_param-as_params field [] vs rest) refl)
  any_param-as_params field (p ∷ params) vs rest =
      any_param-shift field (length params) (length vs) p (params ++ as_params vs ++ rest)
      ∙ any_param-as_params field params vs rest

  -- What the tree `t` gives at the index after the parameters `params`: a text that reads as a
  -- condition on the parameters, true of the row where the tree is, whatever parameters follow.
  pub record Selects (asked : Bool) (params : List (FilterValue S)) (r : Applied S Text)
      : Type 0 where
    pub condition : Condition
    pub pushed : List (FilterValue S)
    pub text : r.sql ≡ render condition
    pub bound : r.params ≡ params ++ pushed
    pub next : r.next_idx ≡ suc (length r.params)
    pub meaning : (rest : List (FilterValue S)) → holds test (r.params ++ rest) condition ≡ asked

  pub compare_sql-Selects :
      (c : Comparison) (field : Text) (v : FilterValue S) (params : List (FilterValue S)) (idx : ℕ)
      → idx ≡ suc (length params)
      → (r : Applied S Text) × (compare_sql field (sign c) v params idx ≡ ok r)
        × Selects (test c field v) params r
  unfolding render holds
  compare_sql-Selects c field v params idx e = (
    _,
    refl,
    record {
      condition = compare_with c field idx;
      pushed = v ∷ [];
      text = refl;
      bound = refl;
      next = omega (arith, e, length-append params (v ∷ []));
      meaning = λ rest. rw (e, param-length params v rest) refl;
    },
  )

  pub in_sql-Selects :
      (field : Text) (v : S) (vs : List S) (params : List (FilterValue S)) (idx : ℕ)
      → idx ≡ suc (length params)
      → (r : Applied S Text) × (in_sql field (many (v ∷ vs)) params idx ≡ ok r)
        × Selects (any (λ w. test equal field (one w)) (v ∷ vs)) params r
  unfolding render holds
  in_sql-Selects field v vs params idx e = (
    _,
    refl,
    record {
      condition = equals_any field idx (length vs);
      pushed = as_params (v ∷ vs);
      text = rw (sym (placeholders-numbered idx (v ∷ vs))) refl;
      bound = refl;
      next = omega (arith, e, length-append params (as_params (v ∷ vs)), length-as_params (v ∷ vs));
      meaning = λ rest. rw e (any_param-as_params field params (v ∷ vs) rest);
    },
  )
