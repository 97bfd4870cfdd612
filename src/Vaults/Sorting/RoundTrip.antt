-- ===== src/Vaults/Sorting/RoundTrip.antt =====
-- A list of sort specifications, written out and parsed again.
use mathlib.Core.Path.{subst}
use stellar_yield_contracts.Base.{
  ℕ, suc, ◌≤◌, ◌≡◌, refl, ap, ◌∙◌, sym, Bool, true, false, some, List, [], ◌∷◌, ◌++◌, ltb, ◌==◌,
  arith, All, length, map, ok, any, ==_refl, all, not, ◌&&◌, ◌⊎◌, inl, inr, All-append,
}
use stellar_yield_contracts.Amounts.Text.{codes, is_empty, is_space, trim}
use stellar_yield_contracts.Amounts.Digits.{NoSpaces, trim-NoSpaces}
use stellar_yield_contracts.Auth.Text.{eq_text, split_on}
use stellar_yield_contracts.Vaults.Names.{Text, includes, join, includes-All}
use stellar_yield_contracts.Vaults.Sorting.{
  SortDirection, asc, desc, VaultSortSpec, max_vault_sort_fields, vault_sort_fields,
  is_vault_sort_field, read_direction, parse_entry, parse_entries, parse_segments, parse_vault_sort,
}
use stellar_yield_contracts.Vaults.Sorting.Parsed.{DistinctFields}

abbrev pub direction_text : SortDirection → Text
direction_text asc = codes "asc"
direction_text desc = codes "desc"

-- `field:direction`
abbrev pub entry_text : VaultSortSpec → Text
entry_text spec = spec.field ++ codes ":" ++ direction_text spec.direction

abbrev pub sort_text : List VaultSortSpec → Text
sort_text specs = join (codes ",") (map entry_text specs)

abbrev Without : ℕ → Text → Type 0
Without c s = All (λ d. (d == c) ≡ false) s

split_on-Without : (c : ℕ) (s : Text) → Without c s → split_on c s ≡ s ∷ []
unfolding split_on
split_on-Without c [] h = refl
split_on-Without c (d ∷ s) (e, h) = rw (e, split_on-Without c s h) refl

split_on-append :
    (c : ℕ) (s t : Text) → Without c s → split_on c (s ++ (c ∷ []) ++ t) ≡ s ∷ split_on c t
unfolding split_on
split_on-append c [] t h = rw (==_refl c) refl
split_on-append c (d ∷ s) t (e, h) = rw (e, split_on-append c s t h) refl

-- Neither a separator nor white space.
abbrev is_plain : ℕ → Bool
is_plain c = not (c == b',') && not (c == b':') && not (is_space c)

abbrev IsPlain : Text → Type 0
IsPlain s = all is_plain s ≡ true

allowed-IsPlain : (field : Text) → is_vault_sort_field field ≡ true → IsPlain field
unfolding is_space
allowed-IsPlain field h =
    includes-All IsPlain vault_sort_fields field (refl, (refl, (refl, (refl, (refl, (refl, tt))))))
      h

direction_text-IsPlain : (d : SortDirection) → IsPlain (direction_text d)
unfolding is_space
direction_text-IsPlain asc = refl
direction_text-IsPlain desc = refl

IsPlain-Without : (c : ℕ) (s : Text) → (c ≡ b',') ⊎ (c ≡ b':') → IsPlain s → Without c s
IsPlain-Without c [] e h = tt
IsPlain-Without c (d ∷ s) e h = (ground (arith, e, h), IsPlain-Without c s e (ground (arith, h)))

IsPlain-NoSpaces : (s : Text) → IsPlain s → NoSpaces s
IsPlain-NoSpaces [] h = tt
IsPlain-NoSpaces (d ∷ s) h = (ground (arith, h), IsPlain-NoSpaces s (ground (arith, h)))

-- What a colon or a space keeps of a property of the characters.
entry_text-All :
    (P : ℕ → Type 0) (field : Text) (d : SortDirection)
    → All P field
    → P b':'
    → All P (direction_text d)
    → All P (entry_text (record { field = field; direction = d }))
entry_text-All P field d h e k =
    All-append P (field ++ codes ":") (direction_text d) (All-append P field (codes ":") h (e, tt))
      k

entry_text-no_comma :
    (field : Text) (d : SortDirection)
    → IsPlain field
    → Without b',' (entry_text (record { field = field; direction = d }))
entry_text-no_comma field d h =
    entry_text-All (λ c. (c == b',') ≡ false) field d (IsPlain-Without b',' field (inl refl) h) refl
      (IsPlain-Without b',' (direction_text d) (inl refl) (direction_text-IsPlain d))

entry_text-NoSpaces :
    (field : Text) (d : SortDirection)
    → IsPlain field
    → NoSpaces (entry_text (record { field = field; direction = d }))
unfolding is_space
entry_text-NoSpaces field d h =
    entry_text-All (λ c. is_space c ≡ false) field d (IsPlain-NoSpaces field h) refl
      (IsPlain-NoSpaces (direction_text d) (direction_text-IsPlain d))

split_on-entry_text :
    (field : Text) (d : SortDirection)
    → IsPlain field
    → split_on b':' (entry_text (record { field = field; direction = d }))
      ≡ field ∷ direction_text d ∷ []
split_on-entry_text field d h =
    split_on-append b':' field (direction_text d) (IsPlain-Without b':' field (inr refl) h)
    ∙ rw
        (split_on-Without b':' (direction_text d)
          (IsPlain-Without b':' (direction_text d) (inr refl) (direction_text-IsPlain d)))
        refl

-- Specifications by fields of the allowlist.
abbrev AllKnown : List VaultSortSpec → Type 0
AllKnown specs = All (λ spec. is_vault_sort_field spec.field ≡ true) specs

DistinctFields-AllKnown :
    (seen : List Text) (specs : List VaultSortSpec) → DistinctFields seen specs → AllKnown specs
DistinctFields-AllKnown seen [] h = tt
DistinctFields-AllKnown seen (spec ∷ specs) (known, fresh, later) =
    (known, DistinctFields-AllKnown (spec.field ∷ seen) specs later)

split_on-sort_text :
    (spec : VaultSortSpec) (specs : List VaultSortSpec)
    → AllKnown (spec ∷ specs)
    → split_on b',' (sort_text (spec ∷ specs)) ≡ map entry_text (spec ∷ specs)
unfolding join
split_on-sort_text spec [] (known, h) =
    split_on-Without b',' (entry_text spec)
      (entry_text-no_comma spec.field spec.direction (allowed-IsPlain spec.field known))
split_on-sort_text spec (next ∷ specs) (known, h) =
    split_on-append b',' (entry_text spec) (sort_text (next ∷ specs))
      (entry_text-no_comma spec.field spec.direction (allowed-IsPlain spec.field known))
    ∙ rw (split_on-sort_text next specs h) refl

sort_text-NoSpaces : (specs : List VaultSortSpec) → AllKnown specs → NoSpaces (sort_text specs)
unfolding join is_space
sort_text-NoSpaces [] h = tt
sort_text-NoSpaces (spec ∷ []) (known, h) =
    entry_text-NoSpaces spec.field spec.direction (allowed-IsPlain spec.field known)
sort_text-NoSpaces (spec ∷ next ∷ specs) (known, h) =
    All-append (λ c. is_space c ≡ false) (entry_text spec ++ codes ",") (sort_text (next ∷ specs))
      (All-append (λ c. is_space c ≡ false) (entry_text spec) (codes ",")
        (entry_text-NoSpaces spec.field spec.direction (allowed-IsPlain spec.field known))
        (refl, tt))
      (sort_text-NoSpaces (next ∷ specs) h)

map-trim-entries :
    (specs : List VaultSortSpec)
    → AllKnown specs
    → map (λ s. trim s) (map entry_text specs) ≡ map entry_text specs
map-trim-entries [] h = refl
map-trim-entries (spec ∷ specs) (known, h) =
    rw
      (
        trim-NoSpaces (entry_text spec)
            (entry_text-NoSpaces spec.field spec.direction (allowed-IsPlain spec.field known)),
        map-trim-entries specs h,
      )
      refl

is_empty-append : (s t : Text) → is_empty s ≡ false → is_empty (s ++ t) ≡ false
is_empty-append [] t h = ground (arith, h)
is_empty-append (c ∷ s) t h = refl

colon_nonempty : (s : Text) → is_empty (s ++ codes ":") ≡ false
colon_nonempty [] = refl
colon_nonempty (c ∷ s) = refl

entry_text_nonempty : (spec : VaultSortSpec) → is_empty (entry_text spec) ≡ false
entry_text_nonempty spec =
    is_empty-append (spec.field ++ codes ":") (direction_text spec.direction)
      (colon_nonempty spec.field)

sort_text_nonempty :
    (spec : VaultSortSpec) (specs : List VaultSortSpec)
    → is_empty (sort_text (spec ∷ specs)) ≡ false
unfolding join
sort_text_nonempty spec [] = entry_text_nonempty spec
sort_text_nonempty spec (next ∷ specs) =
    is_empty-append (entry_text spec ++ codes ",") (sort_text (next ∷ specs))
      (is_empty-append (entry_text spec) (codes ",") (entry_text_nonempty spec))

no_empty_entries :
    (specs : List VaultSortSpec) → any (λ s. is_empty s) (map entry_text specs) ≡ false
no_empty_entries [] = refl
no_empty_entries (spec ∷ specs) = rw (entry_text_nonempty spec, no_empty_entries specs) refl

parse_entry-entry_text :
    (default_order : SortDirection) (seen : List Text) (field : Text) (d : SortDirection)
    → is_vault_sort_field field ≡ true
    → includes seen field ≡ false
    → parse_entry default_order seen (entry_text (record { field = field; direction = d }))
      ≡ ok (record { field = field; direction = d })
unfolding read_direction eq_text
parse_entry-entry_text default_order seen field asc known fresh =
    rw (split_on-entry_text field asc (allowed-IsPlain field known), known, fresh) refl
parse_entry-entry_text default_order seen field desc known fresh =
    rw (split_on-entry_text field desc (allowed-IsPlain field known), known, fresh) refl

parse_entries-entry_text :
    (default_order : SortDirection) (seen : List Text) (specs : List VaultSortSpec)
    → DistinctFields seen specs
    → parse_entries default_order seen (map entry_text specs) ≡ ok specs
unfolding parse_entries
parse_entries-entry_text default_order seen [] h = refl
parse_entries-entry_text default_order seen (spec ∷ specs) (known, fresh, later) =
    rw
      (
        parse_entry-entry_text default_order seen spec.field spec.direction known fresh,
        parse_entries-entry_text default_order (spec.field ∷ seen) specs later,
      )
      refl

length-entries : (specs : List VaultSortSpec) → length (map entry_text specs) ≡ length specs
length-entries [] = refl
length-entries (spec ∷ specs) = ap suc (length-entries specs)

parse_segments-entry_text :
    (spec : VaultSortSpec) (specs : List VaultSortSpec) (default_order : SortDirection)
    → length (spec ∷ specs) ≤ max_vault_sort_fields
    → DistinctFields [] (spec ∷ specs)
    → parse_segments default_order (map entry_text (spec ∷ specs)) ≡ ok (spec ∷ specs)
parse_segments-entry_text spec specs default_order few h =
    let small : ltb 3 (length (map entry_text (spec ∷ specs))) ≡ false =
      rw (length-entries (spec ∷ specs)) (ground (arith, few)) in
    rw (no_empty_entries (spec ∷ specs), small)
      (parse_entries-entry_text default_order [] (spec ∷ specs) h)

-- One to three sort specifications by different fields of the allowlist, written as
-- `field:direction` with commas between, are parsed to themselves, whatever the default order.
pub parse_vault_sort-sort_text :
    (spec : VaultSortSpec) (specs : List VaultSortSpec) (default_order : SortDirection)
    → length (spec ∷ specs) ≤ max_vault_sort_fields
    → DistinctFields [] (spec ∷ specs)
    → parse_vault_sort (some (sort_text (spec ∷ specs))) default_order ≡ ok (spec ∷ specs)
unfolding parse_vault_sort
parse_vault_sort-sort_text spec specs default_order few h =
    let known = DistinctFields-AllKnown [] (spec ∷ specs) h in
    let raw = sort_text (spec ∷ specs) in
    let segments : map (λ s. trim s) (split_on b',' raw) ≡ map entry_text (spec ∷ specs) =
      ap (λ ss. map (λ s. trim s) ss) (split_on-sort_text spec specs known)
      ∙ map-trim-entries (spec ∷ specs) known in
    rw (trim-NoSpaces raw (sort_text-NoSpaces (spec ∷ specs) known), sort_text_nonempty spec specs)
      (subst (λ ss. parse_segments default_order ss ≡ ok (spec ∷ specs)) (sym segments)
        (parse_segments-entry_text spec specs default_order few h))
