-- ===== src/Amounts/Decimal/Tests.antt =====
-- Runs of `toDecimal` and `fromDecimal`.
use stellar_yield_contracts.Base.{◌≡◌, refl, ok, err, ◌>>=◌}
use stellar_yield_contracts.Base.Int.{pos, negsuc}
use stellar_yield_contracts.Amounts.Text.{codes, to_string, trim, span_digits}
use stellar_yield_contracts.Amounts.Decimal.{to_decimal, from_decimal, invalid_format}
use stellar_yield_contracts.Amounts.Decimal.Laws.{from_decimal-to_decimal}

stroops : to_decimal (pos 12345678) (pos 7) ≡ ok (codes "1.2345678")
unfolding to_decimal to_string
stroops = refl

below_one : to_decimal (negsuc 41) (pos 7) ≡ ok (codes "-0.0000042")
unfolding to_decimal to_string
below_one = refl

refused : from_decimal (codes "1.") (pos 7) ≡ err invalid_format
unfolding from_decimal trim span_digits
refused = refl

from_decimal-to_decimal_example :
    (to_decimal (negsuc 41) (pos 7) >>= λ text. from_decimal text (pos 7)) ≡ ok (negsuc 41)
from_decimal-to_decimal_example = from_decimal-to_decimal (negsuc 41) 7
