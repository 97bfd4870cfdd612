-- ===== src/Vaults/Sorting/Parsed.antt =====
-- What a `sort` parameter that is accepted sorts by.
use mathlib.Core.Path.{subst}
use stellar_yield_contracts.Base.{
  >>=_ok, throw_if-ok, ok_injective, ap, ℕ, suc, ◌≤◌, ◌≡◌, refl, true, false, Option, List, [], ◌∷◌,
  arith, ltb, length, map, ok, Bool-cases, inl, inr, any, or_else,
}
use stellar_yield_contracts.Amounts.Text.{is_empty, trim}
use stellar_yield_contracts.Auth.Text.{eq_text, cons_first, split_on}
use stellar_yield_contracts.Vaults.Names.{Text, includes}
use stellar_yield_contracts.Vaults.Sorting.{
  SortDirection, VaultSortSpec, max_vault_sort_fields, is_vault_sort_field, read_direction,
  entry_of_parts, parse_entry, parse_entries, parse_segments, parse_vault_sort,
}

-- Fields of the allowlist, none of them twice, nor one that was seen before.
abbrev pub DistinctFields : List Text → List VaultSortSpec → Type 0
DistinctFields seen [] = Unit
DistinctFields seen (spec ∷ specs) =
    (is_vault_sort_field spec.field ≡ true)
    × (includes seen spec.field ≡ false)
    × DistinctFields (spec.field ∷ seen) specs

abbrev IsFresh : List Text → VaultSortSpec → Type 0
IsFresh seen spec = (is_vault_sort_field spec.field ≡ true) × (includes seen spec.field ≡ false)

entry_of_parts-IsFresh :
    (d : SortDirection) (seen : List Text) (segment : Text) (parts : List Text)
    (spec : VaultSortSpec)
    → entry_of_parts d seen segment parts ≡ ok spec
    → IsFresh seen spec
entry_of_parts-IsFresh d seen segment [] spec h = ground (arith, h)
entry_of_parts-IsFresh d seen segment (field ∷ []) spec h = ground (arith, h)
entry_of_parts-IsFresh d seen segment (field ∷ direction ∷ []) spec h = ground (arith, h)
entry_of_parts-IsFresh d seen segment (field ∷ direction ∷ r ∷ rest) spec h = ground (arith, h)

parse_entries-DistinctFields :
    (d : SortDirection) (seen segments : List Text) (specs : List VaultSortSpec)
    → parse_entries d seen segments ≡ ok specs
    → DistinctFields seen specs × (length specs ≡ length segments)
unfolding parse_entries read_direction
parse_entries-DistinctFields d seen [] specs h = ground (arith, h)
parse_entries-DistinctFields d seen (segment ∷ segments) specs h =
    let (spec, entry, h1) = >>=_ok (parse_entry d seen segment) _ _ h in
    let (others, rest, h2) = >>=_ok (parse_entries d (spec.field ∷ seen) segments) _ _ h1 in
    let (known, fresh) = entry_of_parts-IsFresh d seen segment (split_on b':' segment) spec entry in
    let (distinct, same) =
      parse_entries-DistinctFields d (spec.field ∷ seen) segments others rest in
    subst (λ s. DistinctFields seen s × (length s ≡ suc (length segments))) (ok_injective h2)
      ((known, fresh, distinct), omega (arith, same))

length-cons_first : (c : ℕ) (ws : List Text) → 1 ≤ length (cons_first c ws)
length-cons_first c [] = omega arith
length-cons_first c (w ∷ ws) = omega arith

length-split_on : (c : ℕ) (s : Text) → 1 ≤ length (split_on c s)
unfolding split_on
length-split_on c [] = omega arith
length-split_on c (d ∷ s) = ground (arith, length-cons_first d (split_on c s))

length-map : (f : Text → Text) (segments : List Text) → length (map f segments) ≡ length segments
length-map f [] = refl
length-map f (s ∷ segments) = ap suc (length-map f segments)

parse_segments-DistinctFields :
    (d : SortDirection) (raw : Text) (specs : List VaultSortSpec)
    → parse_segments d (map (λ s. trim s) (split_on b',' raw)) ≡ ok specs
    → (1 ≤ length specs) × (length specs ≤ max_vault_sort_fields) × DistinctFields [] specs
parse_segments-DistinctFields d raw specs h =
    let segments = map (λ s. trim s) (split_on b',' raw) in
    let (filled, h1) = throw_if-ok (any (λ s. is_empty s) segments) _ _ specs h in
    let (few, h2) = throw_if-ok (ltb max_vault_sort_fields (length segments)) _ _ specs h1 in
    let (distinct, same) = parse_entries-DistinctFields d [] segments specs h2 in
    let count = length-map (λ s. trim s) (split_on b',' raw) in
    let least = length-split_on b',' raw in
    (omega (arith, same, count, least), ground (arith, few, same), distinct)

-- A sort parameter that is accepted, whatever it is, gives one to three specifications, each by a field
-- of the allowlist and no two by the same field.
pub parse_vault_sort-DistinctFields :
    (sort : Option Text) (d : SortDirection) (specs : List VaultSortSpec)
    → parse_vault_sort sort d ≡ ok specs
    → (1 ≤ length specs) × (length specs ≤ max_vault_sort_fields) × DistinctFields [] specs
unfolding parse_vault_sort eq_text
parse_vault_sort-DistinctFields sort d specs h =
    elim (Bool-cases (is_empty (trim (or_else sort [])))) [
      | inl e ↦
          subst (λ s. (1 ≤ length s) × (length s ≤ 3) × DistinctFields [] s)
            (ok_injective (rw e at h)) (omega arith, omega arith, (refl, refl, tt))
      | inr e ↦ parse_segments-DistinctFields d (trim (or_else sort [])) specs (rw e at h)
    ]
