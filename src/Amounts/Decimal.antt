-- ===== src/Amounts/Decimal.antt =====
-- backend/src/utils/amounts.ts: base units to a decimal text and back. `decimals` is an integer,
-- so the source's test for a fractional `decimals` never fires.
pub mod Laws
mod Tests
use stellar_yield_contracts.Base.{
  ℕ, ◌+◌, ◌-◌, Bool, true, false, Option, none, some, List, [], ◌∷◌, ◌++◌, ltb, leb, ◌==◌,
  if◌then◌else◌, Result, ok, err, ◌>>=◌, ◌>>◌, throw_if, length, take, drop, all, not, ◌&&◌,
}
use stellar_yield_contracts.Base.Int.{ℤ, pos, negsuc, nat_abs, is_neg}
use stellar_yield_contracts.Amounts.Text.{
  zero_char, is_digit, trim, pad_start, pad_end, value, to_string, span_digits, is_empty,
}
use stellar_yield_contracts.Amounts.FixedPoint.{minus, point, sign_text, signed}

-- The messages that the two functions throw with.
pub data DecimalError : Type 0 where
  bad_decimals invalid_string invalid_format too_many_digits : DecimalError

-- The three forms of the text of |amount|, whose digits are `s`.
unfoldable pub format_digits : List ℕ → ℕ → List ℕ
format_digits s decimals =
    if decimals == 0
    then s
    else if leb (length s) decimals
    then zero_char ∷ point ∷ pad_start decimals s
    else take (length s - decimals) s ++ point ∷ drop (length s - decimals) s

-- `toDecimal`
unfoldable pub to_decimal : ℤ → ℤ → Result DecimalError (List ℕ)
unfolding format_digits
to_decimal amount (negsuc _) = err bad_decimals
to_decimal amount (pos decimals) =
    ok (sign_text (is_neg amount) ++ format_digits (to_string (nat_abs amount)) decimals)

-- `trimmed.startsWith("-")`, and the text without that sign
unfoldable pub split_sign : List ℕ → Bool × List ℕ
split_sign [] = (false, [])
split_sign (c ∷ s) = if c == minus then (true, s) else (false, c ∷ s)

-- `/^\d+(\.\d+)?$/`, after the digits that `\d+` takes. A text that fits has at most one point, so
-- the parts are those of `value.split(".")`.
abbrev number_rest : List ℕ → List ℕ → Option (List ℕ × List ℕ)
number_rest [] rest = none
number_rest (c ∷ whole) [] = some (c ∷ whole, [])
number_rest (c ∷ whole) (d ∷ frac) =
    if d == point && (not (is_empty frac) && all is_digit frac)
    then some (c ∷ whole, frac)
    else none

unfoldable pub number_parts : List ℕ → Option (List ℕ × List ℕ)
number_parts s = number_rest (span_digits s).0 (span_digits s).1

abbrev or_format_error : Option (List ℕ × List ℕ) → Result DecimalError (List ℕ × List ℕ)
or_format_error none = err invalid_format
or_format_error (some parts) = ok parts

-- `fromDecimal`
unfoldable pub from_decimal : List ℕ → ℤ → Result DecimalError ℤ
unfolding split_sign number_parts
from_decimal text (negsuc _) = err bad_decimals
from_decimal text (pos decimals) = do
  let trimmed = trim text
  throw_if (is_empty trimmed) invalid_string
  let (negative, digits) = split_sign trimmed
  (whole, frac) ← or_format_error (number_parts digits)
  throw_if (ltb decimals (length frac)) too_many_digits
  ok (signed negative (value (whole ++ pad_end decimals frac)))
