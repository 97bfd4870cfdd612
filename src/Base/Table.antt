-- ===== src/Base/Table.antt =====
-- SQL tables as lists of rows: the statements that the services send.
use mathlib.Core.Path.{◌≡◌, refl}
use mathlib.Core.Bool.{Bool, true, false}
use mathlib.Core.Option.{Option, none, some}
use mathlib.Core.List.{List, [], ◌∷◌}
use native.Mathlib.Omega.{arith}
use stellar_yield_contracts.Base.Tests.{if◌then◌else◌}
use stellar_yield_contracts.Base.Options.{is_some}

module _ {ℓ} {A : Type ℓ} where
  -- `SELECT … WHERE p LIMIT 1`, and the first row of any other `SELECT … WHERE p`
  abbrev pub find : (A → Bool) → List A → Option A
  find p [] = none
  find p (x ∷ xs) = if p x then some x else find p xs

  -- `SELECT … WHERE p`
  abbrev pub select : (A → Bool) → List A → List A
  select p [] = []
  select p (x ∷ xs) = if p x then x ∷ select p xs else select p xs

  -- `UPDATE … SET f WHERE p`
  abbrev pub update_where : (A → Bool) → (A → A) → List A → List A
  update_where p f [] = []
  update_where p f (x ∷ xs) = (if p x then f x else x) ∷ update_where p f xs

  -- `INSERT … ON CONFLICT (key) DO UPDATE SET f`, for the rows whose key fits `p`
  abbrev pub upsert : (A → Bool) → A → (A → A) → List A → List A
  upsert p row f [] = row ∷ []
  upsert p row f (x ∷ xs) = if p x then f x ∷ xs else x ∷ upsert p row f xs

  -- `INSERT … ON CONFLICT (key) DO NOTHING`
  abbrev pub insert_new : (A → Bool) → A → List A → List A
  insert_new p row [] = row ∷ []
  insert_new p row (x ∷ xs) = if p x then x ∷ xs else x ∷ insert_new p row xs

module _ {ℓ} {A : Type ℓ} where
  -- After an upsert that keeps the key, the row of that key is the new or the changed one.
  pub find-upsert_self :
      (p : A → Bool) (row : A) (f : A → A) (xs : List A)
      → p row ≡ true
      → ((x : A) → p x ≡ true → p (f x) ≡ true)
      → find p (upsert p row f xs) ≡ some (elim (find p xs) [ none ↦ row | some x ↦ f x ])
  find-upsert_self p row f [] e keep = ground arith
  find-upsert_self p row f (x ∷ xs) e keep =
      ground (arith, keep x, find-upsert_self p row f xs e keep)

  -- An upsert leaves alone what another key finds.
  pub find-upsert_other :
      (p q : A → Bool) (row : A) (f : A → A) (xs : List A)
      → q row ≡ false
      → ((x : A) → p x ≡ true → q x ≡ false)
      → ((x : A) → p x ≡ true → q (f x) ≡ false)
      → find q (upsert p row f xs) ≡ find q xs
  find-upsert_other p q row f [] e before after = ground arith
  find-upsert_other p q row f (x ∷ xs) e before after =
      ground (arith, before x, after x, find-upsert_other p q row f xs e before after)

  -- An update that keeps the key changes the row that the key finds.
  pub find-update_where_self :
      (p : A → Bool) (f : A → A) (xs : List A) (x : A)
      → ((x : A) → p x ≡ true → p (f x) ≡ true)
      → find p xs ≡ some x
      → find p (update_where p f xs) ≡ some (f x)
  find-update_where_self p f [] x keep e = ground arith
  find-update_where_self p f (y ∷ xs) x keep e =
      ground (arith, keep y, find-update_where_self p f xs x keep)

  pub find-update_where_other :
      (p q : A → Bool) (f : A → A) (xs : List A)
      → ((x : A) → p x ≡ true → (q x ≡ false) × (q (f x) ≡ false))
      → find q (update_where p f xs) ≡ find q xs
  find-update_where_other p q f [] apart = refl
  find-update_where_other p q f (y ∷ xs) apart =
      ground (arith, apart y, find-update_where_other p q f xs apart)

  pub find_sound : (p : A → Bool) (xs : List A) (x : A) → find p xs ≡ some x → p x ≡ true
  find_sound p [] x e = ground arith
  find_sound p (y ∷ xs) x e = ground (arith, find_sound p xs x)

  pub insert_new_present :
      (p : A → Bool) (row : A) (xs : List A) → is_some (find p xs) ≡ true → insert_new p row xs ≡ xs
  insert_new_present p row [] h = cc
  insert_new_present p row (x ∷ xs) h = ground (arith, insert_new_present p row xs)

  pub find-insert_new_fresh :
      (p : A → Bool) (row : A) (xs : List A)
      → p row ≡ true
      → find p xs ≡ none
      → find p (insert_new p row xs) ≡ some row
  find-insert_new_fresh p row [] h e = ground arith
  find-insert_new_fresh p row (x ∷ xs) h e = ground (arith, find-insert_new_fresh p row xs h)

  -- What a key finds stays found, and unchanged, when a row is added.
  pub find-insert_new_found :
      (p q : A → Bool) (row : A) (xs : List A) (x : A)
      → find q xs ≡ some x
      → find q (insert_new p row xs) ≡ some x
  find-insert_new_found p q row [] x e = ground arith
  find-insert_new_found p q row (y ∷ xs) x e = ground (arith, find-insert_new_found p q row xs x)

  pub find-insert_new_other :
      (p q : A → Bool) (row : A) (xs : List A)
      → q row ≡ false
      → find q (insert_new p row xs) ≡ find q xs
  find-insert_new_other p q row [] e = ground arith
  find-insert_new_other p q row (y ∷ xs) e = ground (arith, find-insert_new_other p q row xs e)

  pub find-insert_new_present :
      (p : A → Bool) (row : A) (xs : List A)
      → p row ≡ true
      → is_some (find p (insert_new p row xs)) ≡ true
  find-insert_new_present p row [] h = ground arith
  find-insert_new_present p row (x ∷ xs) h = ground (arith, find-insert_new_present p row xs h)

  pub find-insert_new_keeps :
      (p q : A → Bool) (row : A) (xs : List A)
      → is_some (find q xs) ≡ true
      → is_some (find q (insert_new p row xs)) ≡ true
  find-insert_new_keeps p q row [] h = cc
  find-insert_new_keeps p q row (x ∷ xs) h = ground (arith, find-insert_new_keeps p q row xs)
