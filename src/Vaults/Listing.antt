-- ===== src/Vaults/Listing.antt =====
-- backend/src/services/vault.ts: the statements of listVaults, that of the page and that of the total.
mod Clauses
mod Asked
mod Queries
mod Tests
use stellar_yield_contracts.Base.{
  ℕ, suc, ◌+◌, ◌-◌, ◌*◌, Bool, true, false, Option, none, some, is_some, List, [], ◌∷◌, ◌++◌, ok,
  err, Result, ◌>>=◌, map,
}
use stellar_yield_contracts.Amounts.Text.{codes}
use stellar_yield_contracts.Vaults.Names.{Text, join}
use stellar_yield_contracts.Vaults.Filter.{
  FilterValue, one, many, FilterTree, ApplyError, Applied, placeholder, apply_filter_tree,
}
use stellar_yield_contracts.Vaults.Sorting.{SortDirection, asc, desc}

-- A bound value: a string or a number.
pub data Scalar : Type 0 where
  string : Text → Scalar
  number : ℕ → Scalar

abbrev pub Param : Type 0
Param = FilterValue Scalar

pub record VaultListFilters : Type 0 where
  pub state : Option Text
  pub category : Option Text
  pub created_from : Option Text
  pub created_to : Option Text
  pub min_total_assets : Option Text
  pub max_total_assets : Option Text
  pub contract_ids : Option (List Text)
  pub tag : Option Text

-- The conditions and the parameters so far, and the highest placeholder used.
pub record Statement : Type 0 where
  pub conditions : List Text
  pub params : List Param
  pub idx : ℕ

-- `add((p) => `before${p}after`, value)`
unfoldable pub add : Text → Text → Param → Statement → Statement
add before after value s = record {
  conditions = s.conditions ++ ((before ++ placeholder (suc s.idx) ++ after) ∷ []);
  params = s.params ++ (value ∷ []);
  idx = suc s.idx;
}

-- `if (value) add(…, value)`: the empty string is false.
abbrev pub text_param : Option Text → Option Param
text_param none = none
text_param (some []) = none
text_param (some (c ∷ s)) = some (one (string (c ∷ s)))

-- `if (value !== undefined) add(…, value)`
abbrev pub list_param : Option (List Text) → Option Param
list_param none = none
list_param (some values) = some (many (map string values))

abbrev pub add_some : Text → Text → Option Param → Statement → Statement
add_some before after none s = s
add_some before after (some value) s = add before after value s

abbrev pub empty_statement : ℕ → Statement
empty_statement start_idx = record { conditions = []; params = []; idx = start_idx }

abbrev pub build_vault_list_filters : VaultListFilters → ℕ → Statement
build_vault_list_filters f start_idx =
    let s1 = add_some (codes "v.state = ") [] (text_param f.state) (empty_statement start_idx) in
    let s2 = add_some (codes "v.rwa_category = ") [] (text_param f.category) s1 in
    let s3 =
      add_some (codes "v.created_at >= ") (codes "::timestamptz") (text_param f.created_from) s2 in
    let s4 =
      add_some (codes "v.created_at <= ") (codes "::timestamptz") (text_param f.created_to) s3 in
    let s5 =
      add_some (codes "v.total_assets >= ") (codes "::numeric") (text_param f.min_total_assets)
        s4 in
    let s6 =
      add_some (codes "v.total_assets <= ") (codes "::numeric") (text_param f.max_total_assets)
        s5 in
    let s7 =
      add_some (codes "v.contract_id = ANY(") (codes "::text[])") (list_param f.contract_ids) s6 in
    add_some [] (codes " = ANY(v.tags)") (text_param f.tag) s7

-- `conditions.push(condition)`
unfoldable pub push_fixed : Text → Statement → Statement
push_fixed condition s = record s { conditions = s.conditions ++ (condition ∷ []) }

abbrev pub push_filter : Statement → Applied Scalar Text → Statement
push_filter s r = record {
  conditions = s.conditions ++ (r.sql ∷ []);
  params = r.params;
  idx = r.next_idx - 1;
}

unfoldable pub with_filter : Option (FilterTree Scalar) → Statement → Result ApplyError Statement
with_filter none s = ok s
with_filter (some tree) s =
    apply_filter_tree tree s.params (s.idx + 1) >>= λ r. ok (push_filter s r)

-- What listVaults and the count of the total have in common: the filters, the two conditions that hide
-- archived and unlisted vaults, and the filter tree.
abbrev pub listed : VaultListFilters → Option (FilterTree Scalar) → Result ApplyError Statement
listed filters tree = with_filter tree (
    push_fixed (codes "v.unlisted = FALSE")
      (push_fixed (codes "v.archived = FALSE") (build_vault_list_filters filters 0)))

-- The decoded cursor: the id and the ISO time of the last row of the page before.
abbrev pub Cursor : Type 0
Cursor = ℕ × Text

abbrev pub cursor_sign : SortDirection → Text
cursor_sign asc = codes ") > ("
cursor_sign desc = codes ") < ("

abbrev pub cursor_text : SortDirection → ℕ → Text
cursor_text direction n =
    codes "(v.created_at, v.id"
    ++ cursor_sign direction
    ++ placeholder n
    ++ codes "::timestamptz, "
    ++ placeholder (n + 1)
    ++ codes ")"

unfoldable pub push_cursor : SortDirection → Option Cursor → Statement → Statement
push_cursor direction none s = s
push_cursor direction (some (id, created_at)) s = record {
  conditions = s.conditions ++ (cursor_text direction (suc s.idx) ∷ []);
  params = s.params ++ (one (string created_at) ∷ one (number id) ∷ []);
  idx = suc (suc s.idx);
}

pub record ListOptions : Type 0 where
  pub page : ℕ
  pub page_size : ℕ
  pub filters : VaultListFilters
  pub filter : Option (FilterTree Scalar)
  -- whether a cursor was given, and what it decodes to, if it does
  pub has_cursor : Bool
  pub cursor : Option Cursor

pub record ListQuery : Type 0 where
  pub where_conditions : List Text
  pub bound : List Param
  pub limit_idx : ℕ
  pub offset_idx : Option ℕ

-- The end of the statement: with a cursor one row more than the page, without it LIMIT and OFFSET.
-- A page counts from 1.
abbrev pub limited : ListOptions → Statement → Bool → ListQuery
limited opts s true = record {
  where_conditions = s.conditions;
  bound = s.params ++ (one (number (opts.page_size + 1)) ∷ []);
  limit_idx = s.idx + 1;
  offset_idx = none;
}
limited opts s false = record {
  where_conditions = s.conditions;
  bound =
      s.params
      ++ (one (number opts.page_size) ∷ [])
      ++ (one (number ((opts.page - 1) * opts.page_size)) ∷ []);
  limit_idx = s.idx + 1;
  offset_idx = some (s.idx + 1 + 1);
}

unfoldable pub list_vaults_query : ListOptions → SortDirection → Result ApplyError ListQuery
unfolding with_filter push_fixed push_cursor add
list_vaults_query opts direction = listed opts.filters opts.filter >>= λ s.
    ok (limited opts (push_cursor direction opts.cursor s) opts.has_cursor)

-- `SELECT COUNT(*) …`
unfoldable pub count_query : ListOptions → Result ApplyError Statement
unfolding with_filter push_fixed add
count_query opts = listed opts.filters opts.filter

-- `conditions.length > 0 ? `WHERE ${conditions.join(" AND ")}` : ""`
abbrev pub where_clause : List Text → Text
where_clause [] = []
where_clause (c ∷ cs) = codes "WHERE " ++ join (codes " AND ") (c ∷ cs)
