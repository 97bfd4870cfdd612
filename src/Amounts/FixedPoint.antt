-- ===== src/Amounts/FixedPoint.antt =====
-- backend/src/utils/fixedPoint.ts: ratios of base units as decimal text, and back.
pub mod RoundTrip
pub mod Ratio
mod Tests
use stellar_yield_contracts.Base.{
  ℕ, zero, suc, ◌+◌, ◌*◌, ◌/◌, ◌%◌, ◌^◌, Bool, true, false, Option, none, some, List, [], ◌∷◌, ◌++◌,
  leb, ◌==◌, if◌then◌else◌, Result, ok, err, take, all,
}
use stellar_yield_contracts.Base.Int.{ℤ, pos, negsuc, neg_ℕ, nat_abs, is_neg}
use stellar_yield_contracts.Amounts.Text.{
  is_digit, trim, pad_start, pad_end, slice_until, slice_last, value, to_string, span_digits,
}

-- What the module throws.
pub data FixedPointError : Type 0 where
  range_error type_error : FixedPointError

abbrev pub minus : ℕ
minus = b'-'

abbrev pub point : ℕ
point = b'.'

abbrev pub sign_text : Bool → List ℕ
sign_text true = minus ∷ []
sign_text false = []

-- `${integer}.${fraction}`, or the digits alone
unfoldable pub render_magnitude : ℕ → ℕ → List ℕ
render_magnitude magnitude zero = to_string magnitude
render_magnitude magnitude (suc k) =
    let digits = pad_start (suc k + 1) (to_string magnitude) in
    slice_until (suc k) digits ++ point ∷ slice_last (suc k) digits

-- `renderFixedPoint`
unfoldable pub render_fixed_point : ℤ → ℕ → List ℕ
unfolding render_magnitude
render_fixed_point scaled decimals =
    sign_text (is_neg scaled) ++ render_magnitude (nat_abs scaled) decimals

abbrev pub signed : Bool → ℕ → ℤ
signed true n = neg_ℕ n
signed false n = pos n

abbrev differ : Bool → Bool → Bool
differ true b = if b then false else true
differ false b = b

-- The quotient of the scaled numerator, rounded half up.
unfoldable pub rounded_quotient : ℕ → ℕ → ℕ
rounded_quotient scaled_numerator abs_den =
    let quotient = scaled_numerator / abs_den in
    let remainder = scaled_numerator % abs_den in
    if leb abs_den (remainder * 2) then quotient + 1 else quotient

-- The scaled integer that `formatRatio` renders; 0 for a zero denominator.
unfoldable pub scaled_ratio : ℤ → ℤ → ℕ → ℤ
unfolding rounded_quotient
scaled_ratio num den decimals =
    if nat_abs den == 0
    then pos 0
    else signed (differ (is_neg num) (is_neg den))
        (rounded_quotient (nat_abs num * 10 ^ decimals) (nat_abs den))

-- `formatRatio`, on arguments that `BigInt` has converted.
unfoldable pub format_ratio : ℤ → ℤ → ℤ → Result FixedPointError (List ℕ)
unfolding scaled_ratio render_fixed_point
format_ratio num den (negsuc _) = err range_error
format_ratio num den (pos decimals) =
    ok (render_fixed_point (scaled_ratio num den decimals) decimals)

-- `FIXED_POINT_DECIMALS` and `formatYieldPerShare`
abbrev pub fixed_point_decimals : ℕ
fixed_point_decimals = 18

unfoldable pub format_yield_per_share : ℤ → ℤ → Result FixedPointError (List ℕ)
unfolding format_ratio
format_yield_per_share yield_amount total_shares =
    format_ratio yield_amount total_shares (pos fixed_point_decimals)

-- `(\d+)(?:\.(\d*))?$`, after the digits that `\d+` takes
abbrev match_rest : List ℕ → List ℕ → Option (List ℕ × List ℕ)
match_rest [] rest = none
match_rest (c ∷ integer) [] = some (c ∷ integer, [])
match_rest (c ∷ integer) (d ∷ fraction) =
    if d == point
    then (if all is_digit fraction then some (c ∷ integer, fraction) else none)
    else none

unfoldable pub match_unsigned : List ℕ → Option (List ℕ × List ℕ)
match_unsigned s = match_rest (span_digits s).0 (span_digits s).1

-- The whole expression: the sign, the integer digits and the fraction digits.
unfoldable pub match_decimal : List ℕ → Bool × Option (List ℕ × List ℕ)
unfolding match_unsigned
match_decimal [] = (false, none)
match_decimal (c ∷ s) =
    if c == minus then (true, match_unsigned s) else (false, match_unsigned (c ∷ s))

abbrev scaled_value : ℕ → Bool → Option (List ℕ × List ℕ) → Result FixedPointError ℤ
scaled_value decimals negative none = err type_error
scaled_value decimals negative (some (integer, fraction)) =
    ok (signed negative (value (integer ++ take decimals (pad_end decimals fraction))))

-- `parseFixedPoint`
unfoldable pub parse_fixed_point : List ℕ → ℤ → Result FixedPointError ℤ
unfolding match_decimal
parse_fixed_point text (negsuc _) = err range_error
parse_fixed_point text (pos decimals) =
    let (negative, parts) = match_decimal (trim text) in scaled_value decimals negative parts
