-- ===== src/Vaults/Filter/Meaning.antt =====
-- The SQL text of a filter tree selects the rows that the tree asks for.
use stellar_yield_contracts.Base.{
  ℕ, suc, ◌≡◌, refl, sym, ap, ◌∙◌, Bool, true, false, not, ◌&&◌, List, [], ◌∷◌, ◌++◌, arith, length,
  ok, inl, inr, append_assoc, append-nil,
}
use stellar_yield_contracts.Amounts.Text.{codes}
use stellar_yield_contracts.Auth.Text.{eq_text}
use stellar_yield_contracts.Vaults.Names.{Text}
use stellar_yield_contracts.Vaults.Filter.{
  FilterValue, one, many, FilterTree, leaf, node, FilterTrees, no_more, more, is_array, Applied,
  apply_filter_tree, apply_filter_trees,
}
use stellar_yield_contracts.Vaults.Filter.Depth.{LeafWellFormed, WellFormed, AllWellFormed}
use stellar_yield_contracts.Vaults.Filter.Leaves.{
  IsNodeOp, IsLeafOp-cases, IsNodeOp-cases, leaf_sql-op_text, leaf_matches-op_text, Selects,
  compare_sql-Selects, in_sql-Selects,
}
use stellar_yield_contracts.Vaults.Filter.Reading.{
  Comparison, all_of, any_of, Conditions, end, also, render, renders, holds, all_hold, any_holds,
  matches, all_match, any_matches,
}

abbrev is_empty_array : {S : Type 0} → FilterValue S → Bool
is_empty_array (one v) = false
is_empty_array (many []) = true
is_empty_array (many (v ∷ vs)) = false

-- No leaf of the tree asks for a value "in" an empty array, which the check lets through.
unfoldable mutual
  pub no_empty_in : {S : Type 0} → FilterTree S → Bool
  no_empty_in (leaf field op value) = not (eq_text op (codes "in") && is_empty_array value)
  no_empty_in (node op filters) = none_empty_in filters

  pub none_empty_in : {S : Type 0} → FilterTrees S → Bool
  none_empty_in no_more = true
  none_empty_in (more t ts) = no_empty_in t && none_empty_in ts

module _ {S : Type 0} (test : Comparison → Text → FilterValue S → Bool) where
  -- What the filters of a node give: one text each, all read as above.
  record SelectsEach (ts : FilterTrees S) (params : List (FilterValue S))
      (r : Applied S (List Text)) : Type 0 where
    conditions : Conditions
    pushed : List (FilterValue S)
    texts : r.sql ≡ renders conditions
    bound : r.params ≡ params ++ pushed
    next : r.next_idx ≡ suc (length r.params)
    all_meaning :
        (rest : List (FilterValue S))
        → all_hold test (r.params ++ rest) conditions ≡ all_match test ts
    any_meaning :
        (rest : List (FilterValue S))
        → any_holds test (r.params ++ rest) conditions ≡ any_matches test ts

  abbrev Applies : FilterTree S → List (FilterValue S) → ℕ → Type 0
  Applies t params idx =
      (r : Applied S Text) × (apply_filter_tree t params idx ≡ ok r)
      × Selects test (matches test t) params r

  abbrev AppliesEach : FilterTrees S → List (FilterValue S) → ℕ → Type 0
  AppliesEach ts params idx =
      (r : Applied S (List Text)) × (apply_filter_trees ts params idx ≡ ok r)
      × SelectsEach ts params r

  in_leaf-Applies :
      (field : Text) (v : FilterValue S) (params : List (FilterValue S)) (idx : ℕ)
      → is_array v ≡ true
      → is_empty_array v ≡ false
      → idx ≡ suc (length params)
      → Applies (leaf field (codes "in") v) params idx
  unfolding apply_filter_tree matches eq_text
  in_leaf-Applies field (one v) params idx h filled e = ground (arith, h)
  in_leaf-Applies field (many []) params idx h filled e = ground (arith, filled)
  in_leaf-Applies field (many (v ∷ vs)) params idx h filled e =
      in_sql-Selects test field v vs params idx e

  filled-array :
      (op : Text) (v : FilterValue S)
      → not (eq_text op (codes "in") && is_empty_array v) ≡ true
      → op ≡ codes "in"
      → is_empty_array v ≡ false
  unfolding eq_text
  filled-array op v h is_in =
      let filled : not (true && is_empty_array v) ≡ true = rw is_in at h in ground (arith, filled)

  leaf-Applies :
      (field op : Text) (v : FilterValue S) (params : List (FilterValue S)) (idx : ℕ)
      → LeafWellFormed field op v
      → not (eq_text op (codes "in") && is_empty_array v) ≡ true
      → idx ≡ suc (length params)
      → Applies (leaf field op v) params idx
  unfolding apply_filter_tree matches eq_text
  leaf-Applies field op v params idx (known, fits, array) filled e = elim (IsLeafOp-cases op fits) [
    | inl (c, is_c) ↦
        rw (is_c, leaf_sql-op_text c field v params idx, leaf_matches-op_text test c field v)
          (compare_sql-Selects test c field v params idx e)
    | inr is_in ↦ rw is_in (
        in_leaf-Applies field v params idx (array (rw is_in refl)) (filled-array op v filled is_in)
          e)
  ]

  node-Applies :
      (op : Text) (ts : FilterTrees S) (params : List (FilterValue S)) (idx : ℕ)
      → IsNodeOp op
      → AppliesEach ts params idx
      → Applies (node op ts) params idx
  unfolding apply_filter_tree matches render holds eq_text
  node-Applies op ts params idx (inl e) (r, ran, each) =
      rw (e, ran)
        (
          _,
          refl,
          record {
            condition = all_of each.conditions;
            pushed = each.pushed;
            text = rw each.texts refl;
            bound = each.bound;
            next = each.next;
            meaning = each.all_meaning;
          },
        )
  node-Applies op ts params idx (inr e) (r, ran, each) =
      rw (e, ran)
        (
          _,
          refl,
          record {
            condition = any_of each.conditions;
            pushed = each.pushed;
            text = rw each.texts refl;
            bound = each.bound;
            next = each.next;
            meaning = each.any_meaning;
          },
        )

  and-cases : (a b : Bool) → a && b ≡ true → (a ≡ true) × (b ≡ true)
  and-cases true b h = (refl, h)
  and-cases false b h = ground (arith, h)

  mutual
    unfolding apply_filter_tree matches render holds WellFormed no_empty_in

    tree-Applies :
        (t : FilterTree S) (params : List (FilterValue S)) (idx : ℕ)
        → WellFormed t
        → no_empty_in t ≡ true
        → idx ≡ suc (length params)
        → Applies t params idx
    tree-Applies (leaf field op v) params idx h given e =
        leaf-Applies field op v params idx h given e
    tree-Applies (node op ts) params idx (known, filled, all) given e =
        node-Applies op ts params idx (IsNodeOp-cases op known)
          (trees-AppliesEach ts params idx all given e)

    trees-AppliesEach :
        (ts : FilterTrees S) (params : List (FilterValue S)) (idx : ℕ)
        → AllWellFormed ts
        → none_empty_in ts ≡ true
        → idx ≡ suc (length params)
        → AppliesEach ts params idx
    trees-AppliesEach no_more params idx h given e = (
      _,
      refl,
      record {
        conditions = end;
        pushed = [];
        texts = refl;
        bound = sym (append-nil params);
        next = e;
        all_meaning = λ rest. refl;
        any_meaning = λ rest. refl;
      },
    )
    trees-AppliesEach (more t ts) params idx (h, hs) given e =
        let (here, later) = and-cases (no_empty_in t) (none_empty_in ts) given in
        let (r, ran, first) = tree-Applies t params idx h here e in
        let (rs, ran_rest, each) = trees-AppliesEach ts r.params r.next_idx hs later first.next in
        let kept : (rest : List (FilterValue S))
            → holds test (rs.params ++ rest) first.condition ≡ matches test t =
          λ rest.
            rw (each.bound, append_assoc r.params each.pushed rest)
              (first.meaning (each.pushed ++ rest)) in
        (
          record { sql = r.sql ∷ rs.sql; next_idx = rs.next_idx; params = rs.params },
          rw (ran, ran_rest) refl,
          record {
            conditions = also first.condition each.conditions;
            pushed = first.pushed ++ each.pushed;
            texts = rw (first.text, each.texts) refl;
            bound =
                each.bound
                ∙ ap (λ p. p ++ each.pushed) first.bound
                ∙ append_assoc params first.pushed each.pushed;
            next = each.next;
            all_meaning = λ rest. rw (kept rest, each.all_meaning rest) refl;
            any_meaning = λ rest. rw (kept rest, each.any_meaning rest) refl;
          },
        )
