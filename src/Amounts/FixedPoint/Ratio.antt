-- ===== src/Amounts/FixedPoint/Ratio.antt =====
-- How close `formatRatio` comes to the exact ratio, and its signs.
use native.Mathlib.Nat.{div-add-mod, mod-lt}
use stellar_yield_contracts.Base.{
  ℕ, suc, ◌+◌, ◌*◌, ◌%◌, ◌^◌, ◌<◌, ◌≤◌, ◌≡◌, refl, ap, Bool, true, false, List, arith, ok, ◌==◌,
  leb, leb→le, leb-false, Bool-cases, inl, inr,
}
use stellar_yield_contracts.Base.Int.{ℤ, pos, negsuc, nat_abs, is_neg}
use stellar_yield_contracts.Amounts.FixedPoint.{
  signed, differ, rounded_quotient, scaled_ratio, format_ratio, parse_fixed_point,
  render_fixed_point,
}
use stellar_yield_contracts.Amounts.FixedPoint.RoundTrip.{parse_fixed_point-render}

rounded_quotient_bounds :
    (n den : ℕ)
    → 0 < den
    → (2 * (rounded_quotient n den * den) ≤ 2 * n + den)
      × (2 * n < 2 * (rounded_quotient n den * den) + den)
unfolding rounded_quotient
rounded_quotient_bounds n den h = elim (Bool-cases (leb den (n % den * 2))) [
  | inl up ↦ rw up (omega (arith, div-add-mod n den, mod-lt n h, leb→le den (n % den * 2) up))
  | inr down ↦
      rw down (omega (arith, div-add-mod n den, mod-lt n h, leb-false den (n % den * 2) down))
]

nat_abs-signed : (negative : Bool) (n : ℕ) → nat_abs (signed negative n) ≡ n
nat_abs-signed true n = ground arith
nat_abs-signed false n = ground arith

-- The scaled ratio is the nearest integer to |num| * 10 ^ d / |den|, with the sign of the ratio.
pub record IsNearest (num den : ℤ) (d : ℕ) (q : ℤ) : Type 0 where
  pub above : 2 * (nat_abs q * nat_abs den) ≤ 2 * (nat_abs num * 10 ^ d) + nat_abs den
  pub below : 2 * (nat_abs num * 10 ^ d) < 2 * (nat_abs q * nat_abs den) + nat_abs den
  pub sign : q ≡ signed (differ (is_neg num) (is_neg den)) (nat_abs q)

signed-IsNearest :
    (num den : ℤ) (d : ℕ)
    → 0 < nat_abs den
    → IsNearest num den d (
        signed
          (differ (is_neg num) (is_neg den))
          (rounded_quotient (nat_abs num * 10 ^ d) (nat_abs den)))
signed-IsNearest num den d h =
    let r = rounded_quotient (nat_abs num * 10 ^ d) (nat_abs den) in
    let b = differ (is_neg num) (is_neg den) in
    let (above, below) = rounded_quotient_bounds (nat_abs num * 10 ^ d) (nat_abs den) h in
    record {
      above = rw (nat_abs-signed b r) above;
      below = rw (nat_abs-signed b r) below;
      sign = rw (nat_abs-signed b r);
    }

scaled_ratio_of_nonzero :
    (num den : ℤ) (d : ℕ)
    → 0 < nat_abs den
    → scaled_ratio num den d
      ≡ signed
          (differ (is_neg num) (is_neg den))
          (rounded_quotient (nat_abs num * 10 ^ d) (nat_abs den))
unfolding scaled_ratio
scaled_ratio_of_nonzero num den d h = let e : (nat_abs den == 0) ≡ false = ground arith in rw e

scaled_ratio-IsNearest :
    (num den : ℤ) (d : ℕ) → 0 < nat_abs den → IsNearest num den d (scaled_ratio num den d)
scaled_ratio-IsNearest num den d h =
    rw (scaled_ratio_of_nonzero num den d h) (signed-IsNearest num den d h)

-- For a nonzero denominator of either sign, also a negative one, for which the comment of the source says that
-- the text is zero, `formatRatio` gives a text that parses back to an
-- integer q, and q is the exact ratio times 10 ^ d to within one half, rounded up at a tie, with
-- the sign of the ratio.
pub format_ratio-IsNearest :
    (num den : ℤ) (d : ℕ)
    → 0 < nat_abs den
    → (text : List ℕ) × (q : ℤ) × (format_ratio num den (pos d) ≡ ok text)
      × (parse_fixed_point text (pos d) ≡ ok q)
      × IsNearest num den d q
unfolding format_ratio
format_ratio-IsNearest num den d h =
    let q = scaled_ratio num den d in
    (
      render_fixed_point q d,
      q,
      refl,
      parse_fixed_point-render q d,
      scaled_ratio-IsNearest num den d h,
    )

scaled_ratio_negated :
    (n m d : ℕ) → scaled_ratio (negsuc n) (negsuc m) d ≡ scaled_ratio (pos (suc n)) (pos (suc m)) d
unfolding scaled_ratio
scaled_ratio_negated n m d =
    let e : (k : ℕ) → 0 + suc k ≡ suc k = λ k. omega arith in
    let f : (k : ℕ) → suc k + 0 ≡ suc k = λ k. omega arith in rw (e n, e m, f n, f m)

-- With both arguments negative `formatRatio` gives the text of the positive ratio, not the text
-- of zero.
pub format_ratio_negated :
    (n m d : ℕ)
    → format_ratio (negsuc n) (negsuc m) (pos d) ≡ format_ratio (pos (suc n)) (pos (suc m)) (pos d)
unfolding format_ratio
format_ratio_negated n m d = ap (λ q. ok (render_fixed_point q d)) (scaled_ratio_negated n m d)
