-- ===== src/Webhooks/Circuit/Kept.antt =====
-- A webhook's circuit is open exactly when it has failed often enough.
use mathlib.Core.Path.{subst}
use stellar_yield_contracts.Base.{
  ap, ℕ, ◌+◌, ◌≡◌, refl, sym, ◌∙◌, ◌⊎◌, inl, inr, Bool, true, false, some, List, [], ◌∷◌, arith,
  find, update_where, find_sound, ◌==◌, ==_iff, if◌then◌else◌, Bool-cases,
}
use stellar_yield_contracts.Webhooks.Store.{Webhook, is_webhook}
use stellar_yield_contracts.Webhooks.Worker.{count_failure, clear_failures}
use stellar_yield_contracts.Webhooks.Circuit.{IsTripped, AllTripped}

pub some_injective : {a b : Webhook} → some a ≡ some b → a ≡ b
some_injective h = ground (arith, h)

-- A row found after a change of some rows that keeps their ids is a changed row or an old one.
abbrev pub WasFound : (Webhook → Bool) → (Webhook → Webhook) → ℕ → List Webhook → Webhook → Type 0
WasFound q f n rows w' =
    (w : Webhook) × (find (is_webhook n) rows ≡ some w) × (((w' ≡ f w) × (q w ≡ true)) ⊎ (w' ≡ w))

found_head :
    (changed : Bool) (q : Webhook → Bool) (f : Webhook → Webhook) (n : ℕ) (r : Webhook)
    (rows : List Webhook) (w' : Webhook)
    → q r ≡ changed
    → (r.id == n) ≡ true
    → (if changed then f r else r) ≡ w'
    → WasFound q f n (r ∷ rows) w'
found_head true q f n r rows w' c e h = (r, rw e refl, inl (sym h, c))
found_head false q f n r rows w' c e h = (r, rw e refl, inr (sym h))

changed-id :
    (changed : Bool) (f : Webhook → Webhook) (r : Webhook)
    → ((w : Webhook) → (f w).id ≡ w.id)
    → (if changed then f r else r).id ≡ r.id
changed-id true f r same = same r
changed-id false f r same = refl

pub found-update_where :
    (q : Webhook → Bool) (f : Webhook → Webhook) (n : ℕ) (rows : List Webhook) (w' : Webhook)
    → ((w : Webhook) → (f w).id ≡ w.id)
    → find (is_webhook n) (update_where q f rows) ≡ some w'
    → WasFound q f n rows w'
found-update_where q f n [] w' same h = ground (arith, h)
found-update_where q f n (r ∷ rows) w' same h =
    let head = changed-id (q r) f r same in
    elim (Bool-cases (r.id == n)) [
      | inl e ↦
          let here : is_webhook n (if q r then f r else r) ≡ true = rw (head, e) refl in
          found_head (q r) q f n r rows w' refl e (some_injective (rw here at h))
      | inr e ↦
          let other : is_webhook n (if q r then f r else r) ≡ false = rw (head, e) refl in
          let (w, found, which) = found-update_where q f n rows w' same (rw other at h) in
          (w, rw e found, which)
    ]

pub update_where-AllTripped :
    (q : Webhook → Bool) (f : Webhook → Webhook) (rows : List Webhook)
    → ((w : Webhook) → (f w).id ≡ w.id)
    → ((n : ℕ) (w : Webhook) → find (is_webhook n) rows ≡ some w → q w ≡ true → IsTripped (f w))
    → AllTripped rows
    → AllTripped (update_where q f rows)
update_where-AllTripped q f rows same keep h n w' found' =
    let (w, found, which) = found-update_where q f n rows w' same found' in
    elim which [
      | inl (e, c) ↦ subst IsTripped (sym e) (keep n w found c)
      | inr e ↦ subst IsTripped (sym e) (h n w found)
    ]

-- A change of the row that was read, if it has the same id.
update_read-AllTripped :
    (k : ℕ) (w : Webhook) (f : Webhook → Webhook) (rows : List Webhook)
    → find (is_webhook k) rows ≡ some w
    → ((u : Webhook) → (f u).id ≡ u.id)
    → IsTripped (f w)
    → AllTripped rows
    → AllTripped (update_where (is_webhook w.id) f rows)
update_read-AllTripped k w f rows read same fine h =
    update_where-AllTripped (is_webhook w.id) f rows same
      (λ n u found at.
        let mine : w.id ≡ k = (==_iff w.id k).0 (find_sound (is_webhook k) rows w read) in
        let there : u.id ≡ n = (==_iff u.id n).0 (find_sound (is_webhook n) rows u found) in
        let key : n ≡ k = sym there ∙ (==_iff u.id w.id).0 at ∙ mine in
        let one_row : u ≡ w =
          some_injective (sym found ∙ ap (λ m. find (is_webhook m) rows) key ∙ read) in
        subst (λ x. IsTripped (f x)) (sym one_row) fine)
      h

pub count_failure-IsTripped :
    (now : ℕ) (w : Webhook)
    → IsTripped w
    → IsTripped (count_failure now (w.consecutive_failures + 1) w)
count_failure-IsTripped now w h = ground (arith, h)

pub count_failure-id : (now n : ℕ) (w : Webhook) → (count_failure now n w).id ≡ w.id
count_failure-id now n w = ground arith

pub failure-AllTripped :
    (now k : ℕ) (w : Webhook) (rows : List Webhook)
    → find (is_webhook k) rows ≡ some w
    → AllTripped rows
    → AllTripped
        (update_where (is_webhook w.id) (count_failure now (w.consecutive_failures + 1)) rows)
failure-AllTripped now k w rows read h =
    update_read-AllTripped k w _ rows read
      (λ u. count_failure-id now (w.consecutive_failures + 1) u)
      (count_failure-IsTripped now w (h k w read)) h

pub success-AllTripped :
    (k : ℕ) (w : Webhook) (rows : List Webhook)
    → find (is_webhook k) rows ≡ some w
    → w.circuit_open ≡ false
    → AllTripped rows
    → AllTripped (update_where (is_webhook w.id) clear_failures rows)
success-AllTripped k w rows read closed h =
    update_read-AllTripped k w clear_failures rows read (λ u. refl) closed h
