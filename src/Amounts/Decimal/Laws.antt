-- ===== src/Amounts/Decimal/Laws.antt =====
-- The decimal text of an amount agrees with the fixed-point one, and `fromDecimal` inverts it.
use mathlib.Core.List.{append-nil}
use stellar_yield_contracts.Base.{
  ℕ, zero, suc, ◌+◌, ◌-◌, ◌*◌, ◌^◌, ◌<◌, ◌≤◌, ◌≡◌, refl, sym, ap, ◌∙◌, inl, inr, Bool, true, false,
  some, List, [], ◌∷◌, ◌++◌, arith, ltb, leb, leb→le, leb-false, Bool-cases, if◌then◌else◌, Result,
  ok, err, ◌>>=◌, ◌>>◌, throw_if, length, take, drop, replicate, All-append, length-append,
  length-replicate, ◌==◌,
}
use stellar_yield_contracts.Base.Int.{ℤ, pos, nat_abs, is_neg}
use stellar_yield_contracts.Amounts.Text.{
  zero_char, is_space, is_empty, pad_start, pad_end, value, to_string, slice_until, slice_last,
}
use stellar_yield_contracts.Amounts.Digits.{
  AllDigits, NoSpaces, value-to_string, value_from-zeros, value-append, value-zeros,
  length-to_string, span_digits-all, span_digits-append, trim-NoSpaces, AllDigits-NoSpaces,
  to_string-AllDigits,
}
use stellar_yield_contracts.Amounts.FixedPoint.{
  point, sign_text, signed, render_magnitude, render_fixed_point,
}
use stellar_yield_contracts.Amounts.FixedPoint.RoundTrip.{
  all_of_AllDigits, signed_parts, padded, parts_joined, integer-AllDigits, fraction-AllDigits,
  length-integer, length-fraction,
}
use stellar_yield_contracts.Amounts.Decimal.{
  DecimalError, too_many_digits, format_digits, to_decimal, split_sign, number_parts, from_decimal,
}

-- Padding a short text to one digit more than `k` puts a zero before it.
short_padded :
    (k : ℕ) (s : List ℕ)
    → length s ≤ suc k
    → pad_start (suc k + 1) s ≡ zero_char ∷ pad_start (suc k) s
short_padded k s h =
    let e : suc k + 1 - length s ≡ suc (suc k - length s) = omega arith in
    ap (λ n. replicate n zero_char ++ s) e

long_padded : (k : ℕ) (s : List ℕ) → suc k < length s → pad_start (suc k + 1) s ≡ s
long_padded k s h =
    let e : suc k + 1 - length s ≡ 0 = omega arith in ap (λ n. replicate n zero_char ++ s) e

length-pad_start_short : (k : ℕ) (s : List ℕ) → length s ≤ k → length (pad_start k s) ≡ k
length-pad_start_short k s h = omega (
  arith,
  length-append (replicate (k - length s) zero_char) s,
  length-replicate (k - length s) zero_char,
)

abbrev split_at_point : ℕ → List ℕ → List ℕ
split_at_point k s = slice_until (suc k) s ++ point ∷ slice_last (suc k) s

split_one :
    (k : ℕ) (s : List ℕ)
    → length s ≡ suc k
    → split_at_point k (zero_char ∷ s) ≡ zero_char ∷ point ∷ s
split_one k s e =
    let d : suc (length s) - suc k ≡ 1 = omega arith in
    ap (λ n. take n (zero_char ∷ s) ++ point ∷ drop n (zero_char ∷ s)) d

format_digits-render : (m d : ℕ) → format_digits (to_string m) d ≡ render_magnitude m d
unfolding format_digits render_magnitude
format_digits-render m zero = refl
format_digits-render m (suc k) = elim (Bool-cases (leb (length (to_string m)) (suc k))) [
  | inl short ↦
      let h = leb→le _ _ short in
      let e : (suc k == 0) ≡ false = ground arith in
      rw (e, short, short_padded k (to_string m) h)
        (sym (split_one k _ (length-pad_start_short (suc k) (to_string m) h)))
  | inr long ↦
      let e : (suc k == 0) ≡ false = ground arith in
      rw (e, long, long_padded k (to_string m) (leb-false _ _ long))
]

-- `toDecimal` and the fixed-point renderer write the same text for every amount and every number
-- of decimals.
pub to_decimal-eq-render : (a : ℤ) (d : ℕ) → to_decimal a (pos d) ≡ ok (render_fixed_point a d)
unfolding to_decimal render_fixed_point
to_decimal-eq-render a d =
    ap (λ s. ok (sign_text (is_neg a) ++ s)) (format_digits-render (nat_abs a) d)

number_parts-point :
    (whole frac : List ℕ)
    → 0 < length whole
    → 0 < length frac
    → AllDigits whole
    → AllDigits frac
    → number_parts (whole ++ point ∷ frac) ≡ some (whole, frac)
unfolding number_parts
number_parts-point [] frac p q h k = elim p [ ]
number_parts-point (c ∷ whole) [] p q h k = elim q [ ]
number_parts-point (c ∷ whole) (f ∷ frac) p q h k =
    rw (span_digits-append (c ∷ whole) point (f ∷ frac) h refl, all_of_AllDigits (f ∷ frac) k)

number_parts-end :
    (whole : List ℕ) → 0 < length whole → AllDigits whole → number_parts whole ≡ some (whole, [])
unfolding number_parts
number_parts-end [] p h = elim p [ ]
number_parts-end (c ∷ whole) p h = rw (span_digits-all (c ∷ whole) h)

split_sign-text :
    (negative : Bool) (s rest : List ℕ)
    → 0 < length s
    → AllDigits s
    → split_sign (sign_text negative ++ (s ++ rest)) ≡ (negative, s ++ rest)
unfolding split_sign
split_sign-text negative [] rest p h = elim p [ ]
split_sign-text true (c ∷ s) rest p h = refl
split_sign-text false (c ∷ s) rest p h = ground arith

is_empty-text :
    (negative : Bool) (s rest : List ℕ)
    → 0 < length s
    → is_empty (sign_text negative ++ (s ++ rest)) ≡ false
is_empty-text negative [] rest p = elim p [ ]
is_empty-text true (c ∷ s) rest p = refl
is_empty-text false (c ∷ s) rest p = refl

sign_text-NoSpaces :
    (negative : Bool) (s : List ℕ) → NoSpaces s → NoSpaces (sign_text negative ++ s)
unfolding is_space
sign_text-NoSpaces true s h = (refl, h)
sign_text-NoSpaces false s h = h

point-NoSpaces :
    (whole frac : List ℕ) → AllDigits whole → AllDigits frac → NoSpaces (whole ++ point ∷ frac)
unfolding is_space
point-NoSpaces whole frac h k =
    All-append _ whole (point ∷ frac) (AllDigits-NoSpaces whole h) (refl, AllDigits-NoSpaces frac k)

-- The two last steps of `fromDecimal`.
abbrev scaled_parts : Bool → List ℕ → List ℕ → ℕ → Result DecimalError ℤ
scaled_parts negative whole frac d =
    throw_if (ltb d (length frac)) too_many_digits
    >> ok (signed negative (value (whole ++ pad_end d frac)))

from_decimal-parts :
    (negative : Bool) (s rest whole frac : List ℕ) (d : ℕ)
    → 0 < length s
    → AllDigits s
    → NoSpaces (s ++ rest)
    → number_parts (s ++ rest) ≡ some (whole, frac)
    → from_decimal (sign_text negative ++ (s ++ rest)) (pos d) ≡ scaled_parts negative whole frac d
unfolding from_decimal
from_decimal-parts negative s rest whole frac d p h n e = rw (
  trim-NoSpaces _ (sign_text-NoSpaces negative (s ++ rest) n),
  is_empty-text negative s rest p,
  split_sign-text negative s rest p h,
  e,
)

value-pad_end :
    (whole frac : List ℕ) (d : ℕ)
    → length frac ≤ d
    → value (whole ++ pad_end d frac) ≡ value whole * 10 ^ d + value frac * 10 ^ (d - length frac)
value-pad_end whole frac d h =
    let zeros = replicate (d - length frac) zero_char in
    let width : length (frac ++ zeros) ≡ d =
      omega (arith, length-append frac zeros, length-replicate (d - length frac) zero_char) in
    rw
      (
        value-append whole (frac ++ zeros),
        width,
        value-append frac zeros,
        value-zeros (d - length frac),
      )
      (rw (length-replicate (d - length frac) zero_char) (omega arith))

-- A signed text of digits with a point is read exactly: an error if it has more fraction digits
-- than `d`, and else the whole part times 10 ^ d plus the fraction brought to `d` digits.
pub from_decimal-eq-value :
    (negative : Bool) (whole frac : List ℕ) (d : ℕ)
    → 0 < length whole
    → 0 < length frac
    → AllDigits whole
    → AllDigits frac
    → from_decimal (sign_text negative ++ (whole ++ point ∷ frac)) (pos d) ≡ (
        if ltb d (length frac)
        then err too_many_digits
        else ok (signed negative (value whole * 10 ^ d + value frac * 10 ^ (d - length frac))))
from_decimal-eq-value negative whole frac d p q h k =
    from_decimal-parts negative whole (point ∷ frac) whole frac d p h
      (point-NoSpaces whole frac h k) (number_parts-point whole frac p q h k)
    ∙ elim (Bool-cases (ltb d (length frac))) [
      | inl more ↦ rw more
      | inr fits ↦
          rw fits (ap (λ n. ok (signed negative n)) (value-pad_end whole frac d (ground arith)))
    ]

scaled_parts_full :
    (negative : Bool) (whole frac : List ℕ) (d : ℕ)
    → length frac ≡ d
    → scaled_parts negative whole frac d ≡ ok (signed negative (value (whole ++ frac)))
scaled_parts_full negative whole frac d e =
    let fits : ltb d (length frac) ≡ false = ground arith in
    let none_left : d - length frac ≡ 0 = omega arith in rw (fits, none_left, append-nil frac)

render_parts :
    (negative : Bool) (m d : ℕ)
    → from_decimal (sign_text negative ++ render_magnitude m d) (pos d) ≡ ok (signed negative m)
unfolding render_magnitude
render_parts negative m zero =
    ap (λ s. from_decimal (sign_text negative ++ s) (pos 0)) (sym (append-nil (to_string m)))
    ∙ from_decimal-parts negative (to_string m) [] (to_string m) [] 0 (length-to_string m)
        (to_string-AllDigits m) (rw append-nil (AllDigits-NoSpaces _ (to_string-AllDigits m)))
        (rw append-nil (number_parts-end _ (length-to_string m) (to_string-AllDigits m)))
    ∙ scaled_parts_full negative (to_string m) [] 0 refl
    ∙ ap (λ n. ok (signed negative n)) (ap value (append-nil (to_string m)) ∙ value-to_string m)
render_parts negative m (suc k) =
    let frac = slice_last (suc k) (padded m k) in
    let fraction_length : 0 < length frac = omega (arith, length-fraction m k) in
    from_decimal-parts negative _ (point ∷ frac) _ frac (suc k) (length-integer m k)
      (integer-AllDigits m k)
      (point-NoSpaces _ frac (integer-AllDigits m k) (fraction-AllDigits m k))
      (number_parts-point _ frac (length-integer m k) fraction_length (integer-AllDigits m k)
        (fraction-AllDigits m k))
    ∙ scaled_parts_full negative (slice_until (suc k) (padded m k)) frac (suc k)
        (length-fraction m k)
    ∙ rw (parts_joined m k) (
        ap (λ n. ok (signed negative n))
          (value_from-zeros (suc k + 1 - length (to_string m)) (to_string m) ∙ value-to_string m))

-- Reading back the text that `toDecimal` wrote, at the same number of decimals, gives the amount.
pub from_decimal-to_decimal :
    (a : ℤ) (d : ℕ) → (to_decimal a (pos d) >>= λ text. from_decimal text (pos d)) ≡ ok a
unfolding render_fixed_point
from_decimal-to_decimal a d =
    rw (to_decimal-eq-render a d) (render_parts (is_neg a) (nat_abs a) d ∙ ap ok (signed_parts a))
