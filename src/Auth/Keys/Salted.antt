-- ===== src/Auth/Keys/Salted.antt =====
-- Keys that are stored with a salt.
use stellar_yield_contracts.Base.{
  ℕ, ◌≡◌, refl, sym, ◌∙◌, true, false, Option, none, some, List, ◌++◌, find, arith, Bool-cases, inl,
  inr, find_sound,
}
use stellar_yield_contracts.Amounts.Text.{is_empty}
use stellar_yield_contracts.Auth.Text.{eq_text_sound}
use stellar_yield_contracts.Auth.Keys.{
  ApiKey, KeyRow, AuthState, is_revoked, has_hash, salt_fits, accept_row,
  lookup_api_key_by_plaintext,
}

abbrev IsSalted : (List ℕ → List ℕ) → List ℕ → KeyRow → Type 0
IsSalted sha256 plaintext row =
    (salt : List ℕ)
    → row.key_salt ≡ some salt
    → is_empty salt ≡ false
    → is_empty row.key_hash ≡ false
    → row.key_hash ≡ sha256 (salt ++ plaintext)

salt_fits-IsSalted :
    (sha256 : List ℕ → List ℕ) (plaintext : List ℕ) (row : KeyRow)
    → salt_fits sha256 plaintext row ≡ true
    → IsSalted sha256 plaintext row
salt_fits-IsSalted sha256 plaintext row e salt with_salt filled hashed =
    eq_text_sound _ _ (rw (with_salt, filled, hashed) at e)

pub accept_row-some :
    (sha256 : List ℕ → List ℕ) (plaintext : List ℕ) (o : Option KeyRow) (s : AuthState) (k : ApiKey)
    → (accept_row sha256 plaintext o s).0 ≡ some k
    → (row : KeyRow) × (o ≡ some row) × (row.key ≡ k) × (salt_fits sha256 plaintext row ≡ true)
accept_row-some sha256 plaintext none s k e = ground (arith, e)
accept_row-some sha256 plaintext (some row) s k e =
    elim (Bool-cases (salt_fits sha256 plaintext row)) [
      | inl fits ↦ (row, refl, ground (arith, e, fits), fits)
      | inr unfit ↦ ground (arith, e, unfit)
    ]

-- A lookup that finds a key found a row whose stored hash is the hash of the key without a salt, and,
-- where the row has a salt, whose stored hash is also the hash with that salt. So a row with the salted
-- hash is found only when the salted and the unsalted hash of the key are the same.
pub lookup_api_key_by_plaintext-row :
    (sha256 : List ℕ → List ℕ) (plaintext : List ℕ) (s : AuthState) (k : ApiKey)
    → (lookup_api_key_by_plaintext sha256 plaintext s).0 ≡ some k
    → (row : KeyRow) × (row.key ≡ k)
      × (row.key_hash ≡ sha256 plaintext)
      × ((salt : List ℕ)
          → row.key_salt ≡ some salt
          → is_empty salt ≡ false
          → is_empty row.key_hash ≡ false
          → sha256 plaintext ≡ sha256 (salt ++ plaintext))
unfolding lookup_api_key_by_plaintext
lookup_api_key_by_plaintext-row sha256 plaintext s k e =
    let up : (is_revoked (sha256 plaintext) s.redis ≡ false) × (s.database_up ≡ true) =
      ground (arith, e) in
    let (row, found, same, fits) =
      accept_row-some sha256 plaintext (find (has_hash (sha256 plaintext)) s.api_keys) s k
        (ground (arith, e, up)) in
    let hash = eq_text_sound _ _ (find_sound (has_hash (sha256 plaintext)) s.api_keys row found) in
    (
      row,
      same,
      hash,
      λ salt with_salt filled hashed.
          sym hash ∙ salt_fits-IsSalted sha256 plaintext row fits salt with_salt filled hashed,
    )
