-- ===== src/Indexer/Settings/Replay.antt =====
-- What reading events again does to the whitelist.
use stellar_yield_contracts.Base.{
  ℕ, ◌≡◌, refl, sym, ap, ◌∙◌, Bool, true, ◌||◌, Option, none, some, is_some, List, [], ◌∷◌, arith,
  ◌==◌, find, insert_new, insert_new_present, find-insert_new_present, find-insert_new_keeps,
  if◌then◌else◌, Bool-cases, inl, inr, All,
}
use stellar_yield_contracts.Base.Int.{ℤ}
use stellar_yield_contracts.Indexer.Settings.{
  WhitelistRow, SettingsTables, SettingsVault, same_whitelist_row, handle_operator_fee_updated,
  handle_pause_reason_set, handle_redemption_queue_updated, handle_minimum_deposit_updated,
  handle_whitelist_updated, handle_zkme_verifier_updated, is_contract, change_fee,
}

pub data SettingsEvent : Type 0 where
  fee_updated : (now contract caller : ℕ) → (old_fee new_fee : ℤ) → SettingsEvent
  pause_reason_set : (contract : ℕ) → (reason : Option ℕ) → SettingsEvent
  queue_updated : (contract address : ℕ) → (amount position : ℤ) → (status : ℕ) → SettingsEvent
  minimum_updated : (now contract caller : ℕ) → (old_minimum new_minimum : ℤ) → SettingsEvent
  whitelist_updated : WhitelistRow → SettingsEvent
  verifier_updated : (contract new_verifier : ℕ) → SettingsEvent

abbrev pub apply_setting : SettingsEvent → SettingsTables → SettingsTables
apply_setting (fee_updated now contract caller old_fee new_fee) s =
    handle_operator_fee_updated now contract caller old_fee new_fee s
apply_setting (pause_reason_set contract reason) s = handle_pause_reason_set contract reason s
apply_setting (queue_updated contract address amount position status) s =
    handle_redemption_queue_updated contract address amount position status s
apply_setting (minimum_updated now contract caller old_minimum new_minimum) s =
    handle_minimum_deposit_updated now contract caller old_minimum new_minimum s
apply_setting (whitelist_updated r) s = handle_whitelist_updated r s
apply_setting (verifier_updated contract new_verifier) s =
    handle_zkme_verifier_updated contract new_verifier s

abbrev pub after_settings : List SettingsEvent → SettingsTables → SettingsTables
after_settings [] s = s
after_settings (e ∷ es) s = after_settings es (apply_setting e s)

-- The whitelist on its own.
abbrev add_row : WhitelistRow → List WhitelistRow → List WhitelistRow
add_row r rows = if r.contract_id == 0 then rows else insert_new (same_whitelist_row r) r rows

abbrev add_event : SettingsEvent → List WhitelistRow → List WhitelistRow
add_event (fee_updated now contract caller old_fee new_fee) rows = rows
add_event (pause_reason_set contract reason) rows = rows
add_event (queue_updated contract address amount position status) rows = rows
add_event (minimum_updated now contract caller old_minimum new_minimum) rows = rows
add_event (whitelist_updated r) rows = add_row r rows
add_event (verifier_updated contract new_verifier) rows = rows

abbrev add_events : List SettingsEvent → List WhitelistRow → List WhitelistRow
add_events [] rows = rows
add_events (e ∷ es) rows = add_events es (add_event e rows)

-- The row of the event, if it has one, is in the whitelist.
abbrev is_held : SettingsEvent → List WhitelistRow → Bool
is_held (fee_updated now contract caller old_fee new_fee) rows = true
is_held (pause_reason_set contract reason) rows = true
is_held (queue_updated contract address amount position status) rows = true
is_held (minimum_updated now contract caller old_minimum new_minimum) rows = true
is_held (whitelist_updated r) rows =
    r.contract_id == 0 || is_some (find (same_whitelist_row r) rows)
is_held (verifier_updated contract new_verifier) rows = true

same_whitelist_row_refl : (r : WhitelistRow) → same_whitelist_row r r ≡ true
same_whitelist_row_refl r = ground arith

add_event-is_held :
    (e : SettingsEvent) (rows : List WhitelistRow) → is_held e rows ≡ true → add_event e rows ≡ rows
add_event-is_held (fee_updated now contract caller old_fee new_fee) rows h = refl
add_event-is_held (pause_reason_set contract reason) rows h = refl
add_event-is_held (queue_updated contract address amount position status) rows h = refl
add_event-is_held (minimum_updated now contract caller old_minimum new_minimum) rows h = refl
add_event-is_held (verifier_updated contract new_verifier) rows h = refl
add_event-is_held (whitelist_updated r) rows h = elim (Bool-cases (r.contract_id == 0)) [
  | inl e ↦ rw e refl
  | inr e ↦
      let found : is_some (find (same_whitelist_row r) rows) ≡ true = ground (arith, h, e) in
      rw e (insert_new_present (same_whitelist_row r) r rows found)
]

is_held-add_row :
    (e : SettingsEvent) (r : WhitelistRow) (rows : List WhitelistRow)
    → is_held e rows ≡ true
    → is_held e (add_row r rows) ≡ true
is_held-add_row (fee_updated now contract caller old_fee new_fee) r rows h = refl
is_held-add_row (pause_reason_set contract reason) r rows h = refl
is_held-add_row (queue_updated contract address amount position status) r rows h = refl
is_held-add_row (minimum_updated now contract caller old_minimum new_minimum) r rows h = refl
is_held-add_row (verifier_updated contract new_verifier) r rows h = refl
is_held-add_row (whitelist_updated q) r rows h = elim (Bool-cases (r.contract_id == 0)) [
  | inl e ↦ rw e h
  | inr e ↦ rw e (elim (Bool-cases (q.contract_id == 0)) [
    | inl f ↦ rw f refl
    | inr f ↦
        let found : is_some (find (same_whitelist_row q) rows) ≡ true = ground (arith, h, f) in
        rw f (find-insert_new_keeps (same_whitelist_row r) (same_whitelist_row q) r rows found)
  ])
]

is_held-add_event_self :
    (e : SettingsEvent) (rows : List WhitelistRow) → is_held e (add_event e rows) ≡ true
is_held-add_event_self (fee_updated now contract caller old_fee new_fee) rows = refl
is_held-add_event_self (pause_reason_set contract reason) rows = refl
is_held-add_event_self (queue_updated contract address amount position status) rows = refl
is_held-add_event_self (minimum_updated now contract caller old_minimum new_minimum) rows = refl
is_held-add_event_self (verifier_updated contract new_verifier) rows = refl
is_held-add_event_self (whitelist_updated r) rows = elim (Bool-cases (r.contract_id == 0)) [
  | inl e ↦ rw e refl
  | inr e ↦ rw e (find-insert_new_present (same_whitelist_row r) r rows (same_whitelist_row_refl r))
]

is_held-add_event :
    (e d : SettingsEvent) (rows : List WhitelistRow)
    → is_held e rows ≡ true
    → is_held e (add_event d rows) ≡ true
is_held-add_event e (fee_updated now contract caller old_fee new_fee) rows h = h
is_held-add_event e (pause_reason_set contract reason) rows h = h
is_held-add_event e (queue_updated contract address amount position status) rows h = h
is_held-add_event e (minimum_updated now contract caller old_minimum new_minimum) rows h = h
is_held-add_event e (verifier_updated contract new_verifier) rows h = h
is_held-add_event e (whitelist_updated r) rows h = is_held-add_row e r rows h

is_held-add_events :
    (e : SettingsEvent) (es : List SettingsEvent) (rows : List WhitelistRow)
    → is_held e rows ≡ true
    → is_held e (add_events es rows) ≡ true
is_held-add_events e [] rows h = h
is_held-add_events e (d ∷ es) rows h =
    is_held-add_events e es (add_event d rows) (is_held-add_event e d rows h)

add_events-All :
    (es : List SettingsEvent) (rows : List WhitelistRow)
    → All (λ e. is_held e (add_events es rows) ≡ true) es
add_events-All [] rows = tt
add_events-All (e ∷ es) rows = (
  is_held-add_events e es (add_event e rows) (is_held-add_event_self e rows),
  add_events-All es (add_event e rows),
)

add_events-held :
    (es : List SettingsEvent) (rows : List WhitelistRow)
    → All (λ e. is_held e rows ≡ true) es
    → add_events es rows ≡ rows
add_events-held [] rows h = refl
add_events-held (e ∷ es) rows (h, hs) =
    ap (add_events es) (add_event-is_held e rows h) ∙ add_events-held es rows hs

change_fee-whitelist :
    (now caller : ℕ) (old_fee new_fee : ℤ) (v : Option SettingsVault) (s : SettingsTables)
    → (change_fee now caller old_fee new_fee v s).whitelist_events ≡ s.whitelist_events
change_fee-whitelist now caller old_fee new_fee none s = refl
change_fee-whitelist now caller old_fee new_fee (some v) s = refl

whitelist-apply_setting :
    (e : SettingsEvent) (s : SettingsTables)
    → (apply_setting e s).whitelist_events ≡ add_event e s.whitelist_events
unfolding handle_operator_fee_updated handle_pause_reason_set handle_redemption_queue_updated
    handle_minimum_deposit_updated handle_whitelist_updated handle_zkme_verifier_updated
whitelist-apply_setting (fee_updated now contract caller old_fee new_fee) s =
    change_fee-whitelist now caller old_fee new_fee (find (is_contract contract) s.vaults) s
whitelist-apply_setting (pause_reason_set contract reason) s = refl
whitelist-apply_setting (queue_updated contract address amount position status) s = refl
whitelist-apply_setting (minimum_updated now contract caller old_minimum new_minimum) s = refl
whitelist-apply_setting (verifier_updated contract new_verifier) s = refl
whitelist-apply_setting (whitelist_updated r) s = elim (Bool-cases (r.contract_id == 0)) [
  | inl e ↦ simp e refl
  | inr e ↦ simp e refl
]

whitelist-after_settings :
    (es : List SettingsEvent) (s : SettingsTables)
    → (after_settings es s).whitelist_events ≡ add_events es s.whitelist_events
whitelist-after_settings [] s = refl
whitelist-after_settings (e ∷ es) s =
    whitelist-after_settings es (apply_setting e s)
    ∙ ap (add_events es) (whitelist-apply_setting e s)

-- After any run of the events that change settings, reading the same events again, as a backfill does, leaves the
-- whitelist as it is.
pub after_settings-replay :
    (es : List SettingsEvent) (s : SettingsTables)
    → (after_settings es (after_settings es s)).whitelist_events
      ≡ (after_settings es s).whitelist_events
after_settings-replay es s =
    let first = whitelist-after_settings es s in
    whitelist-after_settings es (after_settings es s)
    ∙ ap (add_events es) first
    ∙ add_events-held es (add_events es s.whitelist_events) (add_events-All es s.whitelist_events)
    ∙ sym first
