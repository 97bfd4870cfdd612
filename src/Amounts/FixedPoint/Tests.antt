-- ===== src/Amounts/FixedPoint/Tests.antt =====
-- Runs of the fixed-point helpers.
use stellar_yield_contracts.Base.{ℕ, ◌≡◌, refl, List, ok, err, arith}
use stellar_yield_contracts.Base.Int.{ℤ, pos, negsuc}
use stellar_yield_contracts.Amounts.Text.{codes, to_string, trim, span_digits}
use stellar_yield_contracts.Amounts.FixedPoint.{
  type_error, format_ratio, format_yield_per_share, parse_fixed_point, render_fixed_point,
}
use stellar_yield_contracts.Amounts.FixedPoint.RoundTrip.{parse_fixed_point-render}
use stellar_yield_contracts.Amounts.FixedPoint.Ratio.{format_ratio-IsNearest, IsNearest}

two_thirds : format_ratio (pos 2) (pos 3) (pos 4) ≡ ok (codes "0.6667")
unfolding format_ratio to_string
two_thirds = refl

per_share : format_yield_per_share (pos 5) (pos 2) ≡ ok (codes "2.500000000000000000")
unfolding format_yield_per_share to_string
per_share = refl

parse_padded : parse_fixed_point (codes " -12.5 ") (pos 3) ≡ ok (negsuc 12499)
unfolding parse_fixed_point trim span_digits
parse_padded = refl

parse_refused : parse_fixed_point (codes "1e5") (pos 3) ≡ err type_error
unfolding parse_fixed_point trim span_digits
parse_refused = refl

parse_fixed_point-render_example :
    parse_fixed_point (render_fixed_point (negsuc 1234) 3) (pos 3) ≡ ok (negsuc 1234)
parse_fixed_point-render_example = parse_fixed_point-render (negsuc 1234) 3

format_ratio-IsNearest_example :
    (text : List ℕ) × (q : ℤ) × (format_ratio (pos 2) (negsuc 2) (pos 4) ≡ ok text)
    × (parse_fixed_point text (pos 4) ≡ ok q)
    × IsNearest (pos 2) (negsuc 2) 4 q
format_ratio-IsNearest_example = format_ratio-IsNearest (pos 2) (negsuc 2) 4 (omega arith)
