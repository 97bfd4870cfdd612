-- ===== src/Vaults/Listing/Asked.antt =====
-- What listVaults asks of a row, and that its filters ask it.
use stellar_yield_contracts.Base.{
  suc, ◌≡◌, refl, sym, Bool, true, ◌&&◌, Option, none, some, List, [], ◌∷◌, ◌++◌, arith, length,
  length-append, append-nil,
}
use stellar_yield_contracts.Amounts.Text.{codes}
use stellar_yield_contracts.Vaults.Names.{Text}
use stellar_yield_contracts.Vaults.Filter.{one, FilterTree}
use stellar_yield_contracts.Vaults.Filter.Reading.{param, matches}
use stellar_yield_contracts.Vaults.Sorting.{SortDirection}
use stellar_yield_contracts.Vaults.Listing.{
  Scalar, string, number, Param, VaultListFilters, Statement, Cursor, add, text_param, list_param,
  add_some, empty_statement, build_vault_list_filters, push_fixed,
}
use stellar_yield_contracts.Vaults.Listing.Clauses.{
  bound_at, fixed, RowTests, clause_holds, Asks, Asks-push,
}

-- The parameters pushed after those of `params`, read by their numbers.
pub param_next :
    (params : List Param) (v : Param) (rest : List Param)
    → param (suc (length params)) (params ++ (v ∷ rest)) ≡ some v
unfolding param
param_next [] v rest = refl
param_next (p ∷ params) v rest = param_next params v rest

pub param_after_next :
    (params : List Param) (v w : Param) (rest : List Param)
    → param (suc (suc (length params))) (params ++ (v ∷ w ∷ rest)) ≡ some w
unfolding param
param_after_next [] v w rest = refl
param_after_next (p ∷ params) v w rest = param_after_next params v w rest

pub and-true : (b : Bool) → b && true ≡ b
and-true b = ground arith

module _ (row : RowTests) where
  -- A filter that is not given asks nothing.
  abbrev asks_some : Text → Text → Option Param → Bool
  asks_some before after none = true
  asks_some before after (some v) = row.satisfies before after v

  abbrev pub asks_filters : VaultListFilters → Bool
  asks_filters f =
      asks_some (codes "v.state = ") [] (text_param f.state)
      && asks_some (codes "v.rwa_category = ") [] (text_param f.category)
      && asks_some (codes "v.created_at >= ") (codes "::timestamptz") (text_param f.created_from)
      && asks_some (codes "v.created_at <= ") (codes "::timestamptz") (text_param f.created_to)
      && asks_some (codes "v.total_assets >= ") (codes "::numeric") (text_param f.min_total_assets)
      && asks_some (codes "v.total_assets <= ") (codes "::numeric") (text_param f.max_total_assets)
      && asks_some (codes "v.contract_id = ANY(") (codes "::text[])") (list_param f.contract_ids)
      && asks_some [] (codes " = ANY(v.tags)") (text_param f.tag)

  abbrev pub asks_tree : Option (FilterTree Scalar) → Bool
  asks_tree none = true
  asks_tree (some tree) = matches row.compares tree

  abbrev pub asks_cursor : SortDirection → Option Cursor → Bool
  asks_cursor direction none = true
  asks_cursor direction (some (id, created_at)) =
      row.comes_after direction (one (string created_at)) (one (number id))

  -- The rows that the list and its total count: those that pass the filters, are neither archived nor
  -- unlisted, and have what the filter tree asks for.
  abbrev pub asks_listed : VaultListFilters → Option (FilterTree Scalar) → Bool
  asks_listed f tree =
      asks_filters f
      && row.satisfies_fixed (codes "v.archived = FALSE")
      && row.satisfies_fixed (codes "v.unlisted = FALSE")
      && asks_tree tree

  empty-Asks : Asks row true (empty_statement 0)
  empty-Asks = record { clauses = []; texts = refl; highest = refl; meaning = λ rest. refl }

  add-Asks :
      (asked : Bool) (before after : Text) (v : Param) (s : Statement)
      → Asks row asked s
      → Asks row (asked && row.satisfies before after v) (add before after v s)
  unfolding add clause_holds
  add-Asks asked before after v s h =
      Asks-push row asked (row.satisfies before after v) s _ (v ∷ [])
        (bound_at before (suc s.idx) after) h refl
        (λ rest. rw (h.highest, param_next s.params v rest) refl) (add before after v s) refl refl
        (omega (arith, h.highest, length-append s.params (v ∷ [])))

  add_some-Asks :
      (asked : Bool) (before after : Text) (v : Option Param) (s : Statement)
      → Asks row asked s
      → Asks row (asked && asks_some before after v) (add_some before after v s)
  add_some-Asks asked before after none s h = rw (and-true asked) h
  add_some-Asks asked before after (some v) s h = add-Asks asked before after v s h

  pub filters-Asks :
      (f : VaultListFilters) → Asks row (asks_filters f) (build_vault_list_filters f 0)
  filters-Asks f =
      let h1 = add_some-Asks _ (codes "v.state = ") [] (text_param f.state) _ empty-Asks in
      let h2 = add_some-Asks _ (codes "v.rwa_category = ") [] (text_param f.category) _ h1 in
      let h3 =
        add_some-Asks _ (codes "v.created_at >= ") (codes "::timestamptz")
          (text_param f.created_from) _ h2 in
      let h4 =
        add_some-Asks _ (codes "v.created_at <= ") (codes "::timestamptz") (text_param f.created_to)
          _ h3 in
      let h5 =
        add_some-Asks _ (codes "v.total_assets >= ") (codes "::numeric")
          (text_param f.min_total_assets) _ h4 in
      let h6 =
        add_some-Asks _ (codes "v.total_assets <= ") (codes "::numeric")
          (text_param f.max_total_assets) _ h5 in
      let h7 =
        add_some-Asks _ (codes "v.contract_id = ANY(") (codes "::text[])")
          (list_param f.contract_ids) _ h6 in
      add_some-Asks _ [] (codes " = ANY(v.tags)") (text_param f.tag) _ h7

  pub push_fixed-Asks :
      (asked : Bool) (text : Text) (s : Statement)
      → Asks row asked s
      → Asks row (asked && row.satisfies_fixed text) (push_fixed text s)
  unfolding push_fixed clause_holds
  push_fixed-Asks asked text s h =
      Asks-push row asked (row.satisfies_fixed text) s text [] (fixed text) h refl (λ rest. refl)
        (push_fixed text s) refl (sym (append-nil s.params)) h.highest
