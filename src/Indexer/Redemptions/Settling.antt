-- ===== src/Indexer/Redemptions/Settling.antt =====
-- A redemption request is settled once, with the fee that is left of its gross assets.
use native.Mathlib.Nat.{div-add-mod', mod-lt, le_of_mul-le-mul_right}
use stellar_yield_contracts.Base.{
  ℕ, suc, ◌+◌, ◌-◌, ◌*◌, ◌/◌, ◌%◌, ◌^◌, find_sound, ltb, ◌<◌, ◌≤◌, ◌≡◌, refl, Bool, true, false,
  none, some, List, [], ◌∷◌, find, update_where, arith,
}
use stellar_yield_contracts.Base.Int.{nat_abs, ℤ, pos, ◌-ℤ◌, quot, greatest_zero, pos_mul}
use stellar_yield_contracts.Indexer.Store.{Store, Vault, vault_of}
use stellar_yield_contracts.Indexer.Redemptions.{
  settle_request, is_request, Redemption, is_pending, gross_assets_of, gross_of,
  handle_early_redemption_processed, handle_early_redemption_cancelled,
}

update_where-none {ℓ} :
    {A : Type ℓ} (p : A → Bool) (f : A → A) (xs : List A)
    → find p xs ≡ none
    → update_where p f xs ≡ xs
update_where-none p f [] h = refl
update_where-none p f (x ∷ xs) h = ground (arith, h, update_where-none p f xs)

find-update_where_gone {ℓ} :
    {A : Type ℓ} (p : A → Bool) (f : A → A) (xs : List A)
    → ((x : A) → p (f x) ≡ false)
    → find p (update_where p f xs) ≡ none
find-update_where_gone p f [] gone = refl
find-update_where_gone p f (x ∷ xs) gone =
    ground (arith, gone x, find-update_where_gone p f xs gone)

-- The two ways in which the events end a request.
pub data Settling : Type 0 where
  by_process : (number : ℤ → ℤ) → ℤ → Settling
  by_cancel : Settling

abbrev pub settle_by : ℕ → ℕ → Settling → Store → List Redemption → List Redemption
settle_by c request (by_process number net) s rs =
    handle_early_redemption_processed number c (record { request_id = request; net_assets = net }) s
      rs
settle_by c request by_cancel s rs = handle_early_redemption_cancelled c request s rs

settle_by-none :
    (c request : ℕ) (w : Settling) (s : Store) (v : Vault) (rs : List Redemption)
    → vault_of c s ≡ some v
    → find (is_pending v.id request) rs ≡ none
    → settle_by c request w s rs ≡ rs
unfolding handle_early_redemption_processed handle_early_redemption_cancelled
settle_by-none c request (by_process number net) s v rs known h =
    rw known (update_where-none (is_pending v.id request) _ rs h)
settle_by-none c request by_cancel s v rs known h =
    rw known (update_where-none (is_pending v.id request) _ rs h)

settle_by-settles :
    (c request : ℕ) (w : Settling) (s : Store) (v : Vault) (rs : List Redemption)
    → vault_of c s ≡ some v
    → find (is_pending v.id request) (settle_by c request w s rs) ≡ none
unfolding handle_early_redemption_processed handle_early_redemption_cancelled
settle_by-settles c request (by_process number net) s v rs known =
    rw known (find-update_where_gone (is_pending v.id request) _ rs (λ r. ground arith))
settle_by-settles c request by_cancel s v rs known =
    rw known (find-update_where_gone (is_pending v.id request) _ rs (λ r. ground arith))

-- A redemption request is settled once: after it was processed or cancelled no row of it is pending, and
-- processing or cancelling it again, in either order and with any net assets, changes no row.
pub settle_by-final :
    (c request : ℕ) (first second : Settling) (s : Store) (v : Vault) (rs : List Redemption)
    → vault_of c s ≡ some v
    → (find (is_pending v.id request) (settle_by c request first s rs) ≡ none)
      × (settle_by c request second s (settle_by c request first s rs)
          ≡ settle_by c request first s rs)
settle_by-final c request first second s v rs known =
    let settled = settle_by-settles c request first s v rs known in
    (settled, settle_by-none c request second s v (settle_by c request first s rs) known settled)

greatest_zero-difference : (g m : ℕ) → greatest_zero (pos g -ℤ pos m) ≡ pos (g - m)
unfolding ◌-ℤ◌
greatest_zero-difference g m = ground arith

nat_abs-difference : (b g m : ℕ) → g ≤ b → m ≤ b → nat_abs (pos g -ℤ pos m) ≤ b
unfolding ◌-ℤ◌
nat_abs-difference b g m h k = ground (arith, h, k)

-- An update that keeps what `p` tests changes the row that `p` finds, if it fits.
find-update_where_fits {ℓ} :
    {A : Type ℓ} (p q : A → Bool) (f : A → A) (xs : List A) (x : A)
    → ((y : A) → p (f y) ≡ p y)
    → find p xs ≡ some x
    → q x ≡ true
    → find p (update_where q f xs) ≡ some (f x)
find-update_where_fits p q f [] x keep e h = ground (arith, e)
find-update_where_fits p q f (y ∷ xs) x keep e h =
    ground (arith, keep y, h, e, find-update_where_fits p q f xs x keep)

quotient-le : (n d b : ℕ) → n ≤ b * suc d → n / suc d ≤ b
quotient-le n d b h =
    let m : n % suc d < suc d = mod-lt n (omega arith) in
    le_of_mul-le-mul_right {k = suc d} (omega (arith, h, m, div-add-mod' n (suc d))) (omega arith)

gross_of_pos :
    (v : Vault) (r : Redemption) (assets supply shares : ℕ)
    → v.total_assets ≡ pos assets
    → v.total_supply ≡ pos (suc supply)
    → r.shares ≡ pos shares
    → gross_of v (some r) ≡ pos ((shares * assets) / suc supply)
unfolding gross_assets_of quot
gross_of_pos v r assets supply shares a t n =
    let some_supply : ltb (0 + 0) (suc supply + 0) ≡ true = ground arith in
    rw (n, a, t, some_supply, pos_mul shares assets) refl

-- Processing a pending request of a vault with shares outstanding marks its row as processed, and stores as gross
-- assets the shares times the assets over the supply, rounded down, and as fee the gross assets less the
-- net assets, or nothing where the net assets are more. The vault is known, the request is the row that
-- its user and time find, and the gross and the net assets are at most 2 ^ 53, up to which JavaScript's
-- numbers are exact.
pub handle_early_redemption_processed-fee :
    (number : ℤ → ℤ) (c request assets supply shares net : ℕ) (s : Store) (v : Vault)
    (r : Redemption) (rs : List Redemption)
    → ((z : ℤ) → nat_abs z ≤ 2 ^ 53 → number z ≡ z)
    → vault_of c s ≡ some v
    → v.total_assets ≡ pos assets
    → v.total_supply ≡ pos (suc supply)
    → find (is_pending v.id request) rs ≡ some r
    → find (is_request v.id r.user_address r.request_time) rs ≡ some r
    → r.shares ≡ pos shares
    → shares * assets ≤ 2 ^ 53 * suc supply
    → net ≤ 2 ^ 53
    → (gross : ℕ) × (find (is_request v.id r.user_address r.request_time) (
          handle_early_redemption_processed number c
            (record { request_id = request; net_assets = pos net })
            s
            rs)
        ≡ some (record r {
          processed = true;
          fee_revenue = pos (gross - net);
          gross_assets = pos gross;
        }))
      × (gross * suc supply ≤ shares * assets)
      × (shares * assets < gross * suc supply + suc supply)
unfolding handle_early_redemption_processed
handle_early_redemption_processed-fee number c request assets supply shares net s v r rs exact known
      a t pending keyed n small_gross small_net =
    let gross = (shares * assets) / suc supply in
    let m : (shares * assets) % suc supply < suc supply = mod-lt (shares * assets) (omega arith) in
    let whole = div-add-mod' (shares * assets) (suc supply) in
    let fits : gross ≤ 2 ^ 53 = quotient-le (shares * assets) supply (2 ^ 53) small_gross in
    let gross_exact : number (pos gross) ≡ pos gross = exact (pos gross) (omega (arith, fits)) in
    let net_exact : number (pos net) ≡ pos net = exact (pos net) (omega (arith, small_net)) in
    let difference =
      exact (pos gross -ℤ pos net) (nat_abs-difference (2 ^ 53) gross net fits small_net) in
    let row =
      find-update_where_fits (is_request v.id r.user_address r.request_time)
        (is_pending v.id request) (settle_request (pos (gross - net)) (pos gross)) rs r (λ y. refl)
        keyed (find_sound (is_pending v.id request) rs r pending) in
    (
      gross,
      rw
          (
            known,
            pending,
            gross_of_pos v r assets supply shares a t n,
            gross_exact,
            net_exact,
            difference,
            greatest_zero-difference gross net,
          )
          row,
      omega (arith, whole),
      omega (arith, m, whole),
    )
