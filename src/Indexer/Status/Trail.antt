-- ===== src/Indexer/Status/Trail.antt =====
-- The history of the status of a vault, as a trail from one status to the next.
use stellar_yield_contracts.Base.{
  ℕ, ◌≡◌, refl, sym, ap, ◌∙◌, Bool, true, false, ◌&&◌, Option, none, some, List, [], ◌∷◌, ◌++◌,
  arith, ◌==◌, ==_iff, find, select, update_where, insert_new, find-update_where_self,
  find-update_where_other, Bool-cases, inl, inr,
}
use stellar_yield_contracts.Indexer.Status.{
  StatusVault, HistoryRow, StatusTables, ChangeEvent, status_changed, is_change_type, is_change,
  has_address, status_row, manager_row, set_status, set_manager, change_hash, change_ledger,
  handle_vault_status_changed, handle_vault_manager_changed, status_of,
}

-- Each row begins where the one before it ended.
abbrev pub IsTrail : ℕ → List HistoryRow → ℕ → Type 0
IsTrail s [] t = s ≡ t
IsTrail s (r ∷ rows) t =
    (r.previous_status ≡ some s) × (u : ℕ) × (r.new_status ≡ some u) × IsTrail u rows t

IsTrail-append :
    (s t u : ℕ) (rows : List HistoryRow) (r : HistoryRow)
    → IsTrail s rows t
    → r.previous_status ≡ some t
    → r.new_status ≡ some u
    → IsTrail s (rows ++ (r ∷ [])) u
IsTrail-append s t u [] r h before after = (before ∙ ap some (sym h), u, after, refl)
IsTrail-append s t u (q ∷ rows) r (p, v, n, h) before after =
    (p, v, n, IsTrail-append v t u rows r h before after)

abbrev pub is_status_row : ℕ → HistoryRow → Bool
is_status_row c r = r.contract_id == c && is_change_type r.event_type status_changed

-- A row that is new is added to the selected ones if it fits.
select-insert_new_fits :
    (p q : HistoryRow → Bool) (r : HistoryRow) (rows : List HistoryRow)
    → p r ≡ true
    → find q rows ≡ none
    → select p (insert_new q r rows) ≡ select p rows ++ (r ∷ [])
select-insert_new_fits p q r [] fits new = ground (arith, fits)
select-insert_new_fits p q r (x ∷ rows) fits new = elim (Bool-cases (q x)) [
  | inl e ↦ ground (arith, e, new)
  | inr e ↦
      let later : find q rows ≡ none = ground (arith, e, new) in
      elim (Bool-cases (p x)) [
        | inl f ↦ simp (e, f) (ap (λ l. x ∷ l) (select-insert_new_fits p q r rows fits later))
        | inr f ↦ simp (e, f) (select-insert_new_fits p q r rows fits later)
      ]
]

select-insert_new_other :
    (p q : HistoryRow → Bool) (r : HistoryRow) (rows : List HistoryRow)
    → p r ≡ false
    → select p (insert_new q r rows) ≡ select p rows
select-insert_new_other p q r [] other = ground (arith, other)
select-insert_new_other p q r (x ∷ rows) other =
    ground (arith, other, select-insert_new_other p q r rows other)

-- An event, with the time at which it is processed and its vault.
pub data StatusEvent : Type 0 where
  status_set : (now vault status : ℕ) → ChangeEvent → StatusEvent
  manager_set :
      (now vault : ℕ) → (old_manager : Option ℕ) → (new_manager : ℕ) → ChangeEvent → StatusEvent

abbrev pub apply_status : StatusEvent → StatusTables → StatusTables
apply_status (status_set now vault status e) s =
    (handle_vault_status_changed now vault status e s).0
apply_status (manager_set now vault old_manager new_manager e) s =
    (handle_vault_manager_changed now vault old_manager new_manager e s).0

-- A change of status that the history does not hold yet.
abbrev IsNew : StatusEvent → StatusTables → Type 0
IsNew (status_set now vault status e) s =
    find (is_change vault status_changed (change_hash e) (change_ledger e)) s.history ≡ none
IsNew (manager_set now vault old_manager new_manager e) s = Unit

abbrev pub after_status : List StatusEvent → StatusTables → StatusTables
after_status [] s = s
after_status (e ∷ es) s = after_status es (apply_status e s)

abbrev pub AllNew : List StatusEvent → StatusTables → Type 0
AllNew [] s = Unit
AllNew (e ∷ es) s = IsNew e s × AllNew es (apply_status e s)

-- The trail of a known vault, which ends at its present status.
abbrev pub HasTrail : ℕ → ℕ → StatusTables → Type 0
HasTrail c start s =
    (v : StatusVault) × (find (has_address c) s.vaults ≡ some v)
    × IsTrail start (select (is_status_row c) s.history) v.status

module _ (c start : ℕ) where
  status_set-HasTrail :
      (now vault status : ℕ) (e : ChangeEvent) (s : StatusTables)
      → vault ≡ c
      → IsNew (status_set now vault status e) s
      → HasTrail c start s
      → HasTrail c start (apply_status (status_set now vault status e) s)
  unfolding handle_vault_status_changed
  status_set-HasTrail now vault status e s same new (v, known, trail) =
      let fits : (vault == c && true) ≡ true = ground (arith, same) in
      (
        set_status status v,
        rw same (
            find-update_where_self (has_address c) (set_status status) s.vaults v (λ x h. h) known),
        rw
            (select-insert_new_fits (is_status_row c) _ (status_row now vault status _ e) s.history
              fits new)
            (IsTrail-append start v.status status _ _ trail (rw same (ap status_of known)) refl),
      )

  other_set-HasTrail :
      (now vault status : ℕ) (e : ChangeEvent) (s : StatusTables)
      → (vault == c) ≡ false
      → HasTrail c start s
      → HasTrail c start (apply_status (status_set now vault status e) s)
  unfolding handle_vault_status_changed
  other_set-HasTrail now vault status e s apart (v, known, trail) =
      let other : (vault == c && true) ≡ false = ground (arith, apart) in
      (
        v,
        find-update_where_other (has_address vault) (has_address c) (set_status status) s.vaults
              (λ x h. (ground (arith, h, apart), ground (arith, h, apart)))
            ∙ known,
        rw
            (select-insert_new_other (is_status_row c) _ (status_row now vault status _ e) s.history
              other)
            trail,
      )

  find-set_manager :
      (vault manager : ℕ) (rows : List StatusVault) (v : StatusVault)
      → find (has_address c) rows ≡ some v
      → (w : StatusVault) × (find
            (has_address c)
            (update_where (has_address vault) (set_manager manager) rows)
          ≡ some w)
        × (w.status ≡ v.status)
  find-set_manager vault manager rows v known = elim (Bool-cases (vault == c)) [
    | inl e ↦ (
      set_manager manager v,
      rw ((==_iff vault c).0 e)
          (find-update_where_self (has_address c) (set_manager manager) rows v (λ x h. h) known),
      refl,
    )
    | inr e ↦ (
      v,
      find-update_where_other (has_address vault) (has_address c) (set_manager manager) rows
            (λ x h. (ground (arith, h, e), ground (arith, h, e)))
          ∙ known,
      refl,
    )
  ]

  manager_set-HasTrail :
      (now vault : ℕ) (old_manager : Option ℕ) (manager : ℕ) (e : ChangeEvent) (s : StatusTables)
      → HasTrail c start s
      → HasTrail c start (apply_status (manager_set now vault old_manager manager e) s)
  unfolding handle_vault_manager_changed
  manager_set-HasTrail now vault old_manager manager e s (v, known, trail) =
      let found = find-set_manager vault manager s.vaults v known in
      let other : (vault == c && false) ≡ false = ground arith in
      (
        found.0,
        found.1,
        rw
            (select-insert_new_other (is_status_row c) _ (manager_row now vault _ manager e)
              s.history other)
            (rw found.2 trail),
      )

  -- If a known vault has a trail, so have the tables after any run of changes of status and manager, of this
  -- and of other vaults, in which no change of status is in the history already: the rows of its changes
  -- of status lead from its first status, each from where the one before it ended, to its present one.
  pub after_status-HasTrail :
      (es : List StatusEvent) (s : StatusTables)
      → AllNew es s
      → HasTrail c start s
      → HasTrail c start (after_status es s)
  after_status-HasTrail [] s new h = h
  after_status-HasTrail (status_set now vault status e ∷ es) s (new, later) h =
      after_status-HasTrail es _ later (elim (Bool-cases (vault == c)) [
        | inl same ↦ status_set-HasTrail now vault status e s ((==_iff vault c).0 same) new h
        | inr apart ↦ other_set-HasTrail now vault status e s apart h
      ])
  after_status-HasTrail (manager_set now vault old manager e ∷ es) s (new, later) h =
      after_status-HasTrail es _ later (manager_set-HasTrail now vault old manager e s h)
