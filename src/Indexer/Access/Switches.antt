-- ===== src/Indexer/Access/Switches.antt =====
-- What a change of one row of access does to every operator and role.
use stellar_yield_contracts.Base.{
  ℕ, ◌≡◌, refl, ap, ◌∙◌, Bool, true, false, not, ◌&&◌, Option, none, some, is_some, List, [], ◌∷◌,
  arith, ◌==◌, ==_iff, find, upsert, update_where, find-upsert_other, find-update_where_other,
  if◌then◌else◌, Bool-cases, inl, inr,
}
use stellar_yield_contracts.Indexer.Access.{
  VaultOperator, VaultRole, is_operator, is_role, new_role, grant_again, is_granted, revoke_at,
}

abbrev status : {A : Type 0} → (A → Bool) → Option A → Bool
status is_on none = false
status is_on (some x) = is_on x

abbrev pub operator_active : Option VaultOperator → Bool
operator_active = status (λ o. not (is_some o.removed_at))

abbrev pub role_active : Option VaultRole → Bool
role_active = status (λ r. not (is_some r.revoked_at))

module _ {A : Type 0} (is_on : A → Bool) where
  status-upsert_self :
      (p : A → Bool) (row : A) (f : A → A) (rows : List A) (b : Bool)
      → p row ≡ true
      → ((x : A) → p (f x) ≡ p x)
      → is_on row ≡ b
      → ((x : A) → is_on (f x) ≡ b)
      → status is_on (find p (upsert p row f rows)) ≡ b
  status-upsert_self p row f [] b fits keep new old = ground (arith, fits, new)
  status-upsert_self p row f (x ∷ rows) b fits keep new old =
      ground (arith, keep x, old x, status-upsert_self p row f rows b fits keep new old)

  -- Rows that are off already are left alone.
  status-switched_off :
      (p : A → Bool) (f : A → A) (rows : List A)
      → ((x : A) → p (f x) ≡ p x)
      → ((x : A) → is_on (f x) ≡ false)
      → status is_on (find p (update_where (λ x. p x && is_on x) f rows)) ≡ false
  status-switched_off p f [] keep off = refl
  status-switched_off p f (x ∷ rows) keep off =
      ground (arith, keep x, off x, status-switched_off p f rows keep off)

is_operator-apart :
    (vault o p : ℕ) (x : VaultOperator)
    → (o == p) ≡ false
    → is_operator vault p x ≡ true
    → is_operator vault o x ≡ false
is_operator-apart vault o p x e h = ground (arith, e, h)

is_role-apart :
    (vault u v r q : ℕ) (x : VaultRole)
    → (u == v && r == q) ≡ false
    → is_role vault v q x ≡ true
    → is_role vault u r x ≡ false
is_role-apart vault u v r q x e h = ground (arith, e, h)

-- A change of one key decides that key, and leaves the others.
pub upsert-operator_active :
    (vault o p : ℕ) (row : VaultOperator) (f : VaultOperator → VaultOperator)
    (rows : List VaultOperator) (b before : Bool)
    → is_operator vault p row ≡ true
    → ((q : ℕ) (x : VaultOperator) → is_operator vault q (f x) ≡ is_operator vault q x)
    → not (is_some row.removed_at) ≡ b
    → ((x : VaultOperator) → not (is_some (f x).removed_at) ≡ b)
    → operator_active (find (is_operator vault o) rows) ≡ before
    → operator_active (find (is_operator vault o) (upsert (is_operator vault p) row f rows))
      ≡ (if o == p then b else before)
upsert-operator_active vault o p row f rows b before fits keep new old was =
    elim (Bool-cases (o == p)) [
      | inl e ↦ rw e (
          rw ((==_iff o p).0 e)
            (status-upsert_self _ (is_operator vault p) row f rows b fits (keep p) new old))
      | inr e ↦ rw e (
          ap operator_active (
            find-upsert_other (is_operator vault p) (is_operator vault o) row f rows
              (is_operator-apart vault o p row e fits) (λ x h. is_operator-apart vault o p x e h)
              (λ x h. keep o x ∙ is_operator-apart vault o p x e h))
          ∙ was)
    ]

&&-==_iff : (u p r q : ℕ) → (u == p && r == q) ≡ true → (u ≡ p) × (r ≡ q)
&&-==_iff u p r q e = (ground (arith, e), ground (arith, e))

is_role_refl : (vault u r : ℕ) → (vault == vault && u == u && r == r) ≡ true
is_role_refl vault u r = ground arith

pub grant-role_active :
    (vault u r p q now : ℕ) (rows : List VaultRole) (before : Bool)
    → role_active (find (is_role vault u r) rows) ≡ before
    → role_active (
        find
          (is_role vault u r)
          (upsert (is_role vault p q) (new_role now p q vault) (grant_again now) rows))
      ≡ (if u == p && r == q then true else before)
grant-role_active vault u r p q now rows before was = elim (Bool-cases (u == p && r == q)) [
  | inl e ↦ rw e (
      rw ((&&-==_iff u p r q e).0, (&&-==_iff u p r q e).1)
        (status-upsert_self _ (is_role vault p q) (new_role now p q vault) (grant_again now) rows
          true (is_role_refl vault p q) (λ x. refl) refl (λ x. refl)))
  | inr e ↦ rw e (
      ap role_active (
        find-upsert_other (is_role vault p q) (is_role vault u r) _ (grant_again now) rows
          (is_role-apart vault u p r q (new_role now p q vault) e (is_role_refl vault p q))
          (λ x h. is_role-apart vault u p r q x e h) (λ x h. is_role-apart vault u p r q x e h))
      ∙ was)
]

pub revoke-role_active :
    (vault u r p q now : ℕ) (rows : List VaultRole) (before : Bool)
    → role_active (find (is_role vault u r) rows) ≡ before
    → role_active
        (find (is_role vault u r) (update_where (is_granted vault p q) (revoke_at now) rows))
      ≡ (if u == p && r == q then false else before)
revoke-role_active vault u r p q now rows before was = elim (Bool-cases (u == p && r == q)) [
  | inl e ↦ rw e (
      rw ((&&-==_iff u p r q e).0, (&&-==_iff u p r q e).1)
        (status-switched_off _ (is_role vault p q) (revoke_at now) rows (λ x. refl) (λ x. refl)))
  | inr e ↦ rw e (
      ap role_active (
        find-update_where_other (is_granted vault p q) (is_role vault u r) (revoke_at now) rows
          (λ x h.
            let key : is_role vault p q x ≡ true = ground (arith, h) in
            let apart = is_role-apart vault u p r q x e key in (apart, apart)))
      ∙ was)
]
