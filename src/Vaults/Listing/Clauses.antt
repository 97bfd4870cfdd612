-- ===== src/Vaults/Listing/Clauses.antt =====
-- The clauses of a WHERE clause over one row of `vaults v`, and what they ask of the row.
use stellar_yield_contracts.Base.{
  ℕ, suc, ◌+◌, ◌≡◌, refl, sym, ap, ◌∙◌, Bool, true, false, ◌&&◌, Option, none, some, List, [], ◌∷◌,
  ◌++◌, arith, length, map, append_assoc,
}
use stellar_yield_contracts.Vaults.Names.{Text}
use stellar_yield_contracts.Vaults.Filter.{placeholder}
use stellar_yield_contracts.Vaults.Filter.Reading.{
  Comparison, Condition, render, param, holds_for, holds,
}
use stellar_yield_contracts.Vaults.Sorting.{SortDirection, asc, desc}
use stellar_yield_contracts.Vaults.Listing.{Param, Statement, cursor_text}
use stellar_yield_contracts.Amounts.Text.{codes}

pub data Clause : Type 0 where
  bound_at : Text → ℕ → Text → Clause
  fixed : Text → Clause
  tree_clause : Condition → Clause
  cursor_at : SortDirection → ℕ → Clause

-- The condition on the rows after a cursor, whose time and id are read from two placeholders.
abbrev after_cursor : SortDirection → ℕ → Text
after_cursor asc n =
    codes "(v.created_at, v.id) > ("
    ++ placeholder n
    ++ codes "::timestamptz, "
    ++ placeholder (n + 1)
    ++ codes ")"
after_cursor desc n =
    codes "(v.created_at, v.id) < ("
    ++ placeholder n
    ++ codes "::timestamptz, "
    ++ placeholder (n + 1)
    ++ codes ")"

abbrev pub clause_text : Clause → Text
clause_text (bound_at before n after) = before ++ placeholder n ++ after
clause_text (fixed text) = text
clause_text (tree_clause c) = render c
clause_text (cursor_at direction n) = after_cursor direction n

-- What the database decides of one row: whether a condition with a value in it is true, whether one without
-- is, how a column compares with a value, and whether the row comes after a cursor.
pub record RowTests : Type 0 where
  pub satisfies : Text → Text → Param → Bool
  pub satisfies_fixed : Text → Bool
  pub compares : Comparison → Text → Param → Bool
  pub comes_after : SortDirection → Param → Param → Bool

abbrev after_params : (Param → Param → Bool) → Option Param → Option Param → Bool
after_params test (some created_at) (some id) = test created_at id
after_params test (some created_at) none = false
after_params test none id = false

pub cursor_text-clause_text :
    (direction : SortDirection) (n : ℕ)
    → cursor_text direction n ≡ clause_text (cursor_at direction n)
cursor_text-clause_text asc n = refl
cursor_text-clause_text desc n = refl

module _ (row : RowTests) where
  unfoldable pub clause_holds : List Param → Clause → Bool
  unfolding param holds
  clause_holds params (bound_at before n after) =
      holds_for (row.satisfies before after) (param n params)
  clause_holds params (fixed text) = row.satisfies_fixed text
  clause_holds params (tree_clause c) = holds row.compares params c
  clause_holds params (cursor_at direction n) =
      after_params (row.comes_after direction) (param n params) (param (suc n) params)

  abbrev pub all_clauses_hold : List Param → List Clause → Bool
  all_clauses_hold params [] = true
  all_clauses_hold params (c ∷ cs) = clause_holds params c && all_clauses_hold params cs

  -- The statement's conditions are clauses that are all true of the row exactly if `asked`, with the values
  -- read from its parameters, whatever follow; and `idx` is the highest placeholder.
  pub record Asks (asked : Bool) (s : Statement) : Type 0 where
    pub clauses : List Clause
    pub texts : s.conditions ≡ map clause_text clauses
    pub highest : s.idx ≡ length s.params
    pub meaning : (rest : List Param) → all_clauses_hold (s.params ++ rest) clauses ≡ asked

  all_clauses_hold-append :
      (params : List Param) (cs : List Clause) (c : Clause)
      → all_clauses_hold params (cs ++ (c ∷ []))
        ≡ all_clauses_hold params cs && clause_holds params c
  all_clauses_hold-append params [] c = ground arith
  all_clauses_hold-append params (d ∷ cs) c =
      rw (all_clauses_hold-append params cs c) (ground arith)

  map-append :
      (cs : List Clause) (c : Clause)
      → map clause_text (cs ++ (c ∷ [])) ≡ map clause_text cs ++ (clause_text c ∷ [])
  map-append [] c = refl
  map-append (d ∷ cs) c = ap (λ r. clause_text d ∷ r) (map-append cs c)

  -- A clause pushed onto a statement, with the parameters that it reads.
  pub Asks-push :
      (asked now : Bool) (s : Statement) (text : Text) (pushed : List Param) (c : Clause)
      → Asks asked s
      → text ≡ clause_text c
      → ((rest : List Param) → clause_holds (s.params ++ (pushed ++ rest)) c ≡ now)
      → (s' : Statement) → s'.conditions ≡ s.conditions ++ (text ∷ [])
      → s'.params ≡ s.params ++ pushed
      → s'.idx ≡ length s'.params
      → Asks (asked && now) s'
  Asks-push asked now s text pushed c h is_text reads s' e1 e2 e3 = record {
    clauses = h.clauses ++ (c ∷ []);
    texts = e1 ∙ rw (h.texts, is_text) (sym (map-append h.clauses c));
    highest = e3;
    meaning = λ rest.
        rw (e2, append_assoc s.params pushed rest)
          (all_clauses_hold-append (s.params ++ (pushed ++ rest)) h.clauses c
            ∙ rw (h.meaning (pushed ++ rest), reads rest) refl);
  }
