-- ===== src/Indexer/Epochs/Fees.antt =====
-- The split of a distribution into the operator's fee and the net yield, and its replay.
use native.Mathlib.Nat.{div-add-mod, mod-lt, mul-le-mul_left}
use stellar_yield_contracts.Base.{ℕ, ◌+◌, ◌*◌, ◌-◌, ◌/◌, ◌%◌, ◌≤◌, ◌<◌, ◌≡◌, refl, arith}
use stellar_yield_contracts.Base.Int.{pos_mul, pos, ◌-ℤ◌, quot}
use stellar_yield_contracts.Indexer.Epochs.{split_fee}

sub_pos : (a b : ℕ) → b ≤ a → pos a -ℤ pos b ≡ pos (a - b)
unfolding ◌-ℤ◌
sub_pos a b h = ground arith

by_parts :
    (gross bps fee : ℕ)
    → (gross * bps) / 10000 ≡ fee
    → fee ≤ gross
    → split_fee (pos gross) (pos bps)
      ≡ record { net_yield = pos (gross - fee); operator_fee = pos fee }
unfolding split_fee quot
by_parts gross bps fee e h = rw (pos_mul gross bps, e, sub_pos gross fee h)

-- For a nonnegative yield and a fee rate of at most 10000 basis points the two parts are
-- nonnegative and add up to the yield, and the fee is the yield times the rate over 10000, rounded
-- down.
pub split_fee_exact :
    (gross bps : ℕ)
    → bps ≤ 10000
    → (fee net : ℕ) × (split_fee (pos gross) (pos bps)
        ≡ record { net_yield = pos net; operator_fee = pos fee })
      × (fee + net ≡ gross)
      × (fee * 10000 ≤ gross * bps)
      × (gross * bps < fee * 10000 + 10000)
unfolding split_fee quot
split_fee_exact gross bps h =
    let product = gross * bps in
    let fee = product / 10000 in
    let e = div-add-mod product 10000 in
    let m : product % 10000 < 10000 = mod-lt product (omega arith) in
    let bound = mul-le-mul_left gross h in
    (
      fee,
      gross - fee,
      by_parts gross bps fee refl (omega arith),
      omega arith,
      omega arith,
      omega arith,
    )
