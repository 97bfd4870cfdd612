-- ===== src/Amounts/FixedPoint/RoundTrip.antt =====
-- Rendering a scaled integer and parsing the text gives the integer back.
use mathlib.Core.List.{append-nil}
use stellar_yield_contracts.Base.{
  ℕ, zero, suc, ◌+◌, ◌-◌, ◌<◌, ◌≡◌, refl, ap, ◌∙◌, Bool, true, false, some, List, [], ◌∷◌, ◌++◌,
  arith, ok, length, take, all, All-append, take-append-drop, length-drop, length-take,
}
use stellar_yield_contracts.Base.Int.{ℤ, pos, negsuc, nat_abs, is_neg}
use stellar_yield_contracts.Amounts.Text.{
  is_digit, is_space, pad_start, pad_end, slice_until, slice_last, to_string,
}
use stellar_yield_contracts.Amounts.Digits.{
  AllDigits, NoSpaces, value-to_string, to_string-AllDigits, length-to_string, value_from-zeros,
  pad_start-AllDigits, length-pad_start, AllDigits-left, AllDigits-right, span_digits-all,
  span_digits-append, trim-NoSpaces, AllDigits-NoSpaces,
}
use stellar_yield_contracts.Amounts.FixedPoint.{
  point, sign_text, signed, render_magnitude, render_fixed_point, match_unsigned, match_decimal,
  match_rest, parse_fixed_point, scaled_value,
}

pub all_of_AllDigits : (s : List ℕ) → AllDigits s → all is_digit s ≡ true
all_of_AllDigits [] h = refl
all_of_AllDigits (c ∷ s) (p, h) = ground (arith, all_of_AllDigits s h)

match_rest-point :
    (integer fraction : List ℕ)
    → 0 < length integer
    → AllDigits fraction
    → match_rest integer (point ∷ fraction) ≡ some (integer, fraction)
match_rest-point [] fraction p h = elim p [ ]
match_rest-point (c ∷ integer) fraction p h = ground (arith, all_of_AllDigits fraction h)

match_rest-end :
    (integer : List ℕ) → 0 < length integer → match_rest integer [] ≡ some (integer, [])
match_rest-end [] p = elim p [ ]
match_rest-end (c ∷ integer) p = refl

pub match_unsigned-point :
    (integer fraction : List ℕ)
    → 0 < length integer
    → AllDigits integer
    → AllDigits fraction
    → match_unsigned (integer ++ point ∷ fraction) ≡ some (integer, fraction)
unfolding match_unsigned
match_unsigned-point integer fraction p h k =
    rw (span_digits-append integer point fraction h refl) (match_rest-point integer fraction p k)

pub match_unsigned-end :
    (integer : List ℕ)
    → 0 < length integer
    → AllDigits integer
    → match_unsigned integer ≡ some (integer, [])
unfolding match_unsigned
match_unsigned-end integer p h = rw (span_digits-all integer h) (match_rest-end integer p)

-- A text that begins with a digit has no sign.
pub match_decimal-unsigned :
    (s rest : List ℕ)
    → 0 < length s
    → AllDigits s
    → match_decimal (s ++ rest) ≡ (false, match_unsigned (s ++ rest))
unfolding match_decimal
match_decimal-unsigned [] rest p h = elim p [ ]
match_decimal-unsigned (c ∷ s) rest p h = ground arith

-- The digits that a magnitude is rendered from, and the two parts of its text.
module _ (m k : ℕ) where
  abbrev pub padded : List ℕ
  padded = pad_start (suc k + 1) (to_string m)

  pub padded-AllDigits : AllDigits padded
  padded-AllDigits = pad_start-AllDigits (suc k + 1) (to_string m) (to_string-AllDigits m)

  pub parts_joined : slice_until (suc k) padded ++ slice_last (suc k) padded ≡ padded
  parts_joined = take-append-drop (length padded - suc k) padded

  pub integer-AllDigits : AllDigits (slice_until (suc k) padded)
  integer-AllDigits =
      AllDigits-left _ (slice_last (suc k) padded) (rw parts_joined padded-AllDigits)

  pub fraction-AllDigits : AllDigits (slice_last (suc k) padded)
  fraction-AllDigits =
      AllDigits-right (slice_until (suc k) padded) _ (rw parts_joined padded-AllDigits)

  pub length-integer : 0 < length (slice_until (suc k) padded)
  length-integer = omega (
    arith,
    length-take (length padded - suc k) padded,
    length-pad_start (suc k + 1) (to_string m),
  )

  pub length-fraction : length (slice_last (suc k) padded) ≡ suc k
  length-fraction = omega (
    arith,
    length-drop (length padded - suc k) padded,
    length-pad_start (suc k + 1) (to_string m),
  )

take_all {ℓ} : {A : Type ℓ} (s t : List A) → take (length s) (s ++ t) ≡ s
take_all [] t = refl
take_all (x ∷ s) t = ap (λ r. x ∷ r) (take_all s t)

-- A fraction of just the right width is neither padded nor cut.
take-pad_end : (k : ℕ) (s : List ℕ) → length s ≡ k → take k (pad_end k s) ≡ s
take-pad_end k s e = rw (← e) (take_all s _)

scaled_value-parts :
    (negative : Bool) (m k : ℕ)
    → scaled_value
        (suc k)
        negative
        (some (slice_until (suc k) (padded m k), slice_last (suc k) (padded m k)))
      ≡ ok (signed negative m)
scaled_value-parts negative m k =
    rw (take-pad_end (suc k) _ (length-fraction m k), parts_joined m k)
      (ap (λ n. ok (signed negative n))
        (value_from-zeros (suc k + 1 - length (to_string m)) (to_string m) ∙ value-to_string m))

scaled_value-digits :
    (negative : Bool) (m : ℕ)
    → scaled_value 0 negative (some (to_string m, [])) ≡ ok (signed negative m)
scaled_value-digits negative m =
    rw (append-nil (to_string m)) (ap (λ n. ok (signed negative n)) (value-to_string m))

scaled_value-render :
    (negative : Bool) (m d : ℕ)
    → scaled_value d negative (match_unsigned (render_magnitude m d)) ≡ ok (signed negative m)
unfolding render_magnitude
scaled_value-render negative m zero =
    rw (match_unsigned-end (to_string m) (length-to_string m) (to_string-AllDigits m))
      (scaled_value-digits negative m)
scaled_value-render negative m (suc k) =
    rw
      (match_unsigned-point _ _ (length-integer m k) (integer-AllDigits m k)
        (fraction-AllDigits m k))
      (scaled_value-parts negative m k)

match_decimal-sign :
    (negative : Bool) (s rest : List ℕ)
    → 0 < length s
    → AllDigits s
    → match_decimal (sign_text negative ++ (s ++ rest)) ≡ (negative, match_unsigned (s ++ rest))
unfolding match_decimal
match_decimal-sign true s rest p h = refl
match_decimal-sign false s rest p h = match_decimal-unsigned s rest p h

pub match_decimal-render :
    (negative : Bool) (m d : ℕ)
    → match_decimal (sign_text negative ++ render_magnitude m d)
      ≡ (negative, match_unsigned (render_magnitude m d))
unfolding render_magnitude
match_decimal-render negative m zero =
    rw (← append-nil (to_string m))
      (match_decimal-sign negative (to_string m) [] (length-to_string m) (to_string-AllDigits m))
match_decimal-render negative m (suc k) =
    match_decimal-sign negative _ (point ∷ slice_last (suc k) (padded m k)) (length-integer m k)
      (integer-AllDigits m k)

render-NoSpaces : (m d : ℕ) → NoSpaces (render_magnitude m d)
unfolding render_magnitude is_space
render-NoSpaces m zero = AllDigits-NoSpaces _ (to_string-AllDigits m)
render-NoSpaces m (suc k) =
    All-append _ _ (point ∷ slice_last (suc k) (padded m k))
      (AllDigits-NoSpaces _ (integer-AllDigits m k))
      (refl, AllDigits-NoSpaces _ (fraction-AllDigits m k))

pub signed_render-NoSpaces :
    (negative : Bool) (m d : ℕ) → NoSpaces (sign_text negative ++ render_magnitude m d)
unfolding is_space
signed_render-NoSpaces true m d = (refl, render-NoSpaces m d)
signed_render-NoSpaces false m d = render-NoSpaces m d

pub signed_parts : (x : ℤ) → signed (is_neg x) (nat_abs x) ≡ x
signed_parts (pos n) = ground arith
signed_parts (negsuc n) = ground arith

-- Parsing the text that a scaled integer renders to, at the same number of decimals, gives that
-- integer back, whatever its sign.
pub parse_fixed_point-render :
    (x : ℤ) (d : ℕ) → parse_fixed_point (render_fixed_point x d) (pos d) ≡ ok x
unfolding parse_fixed_point render_fixed_point
parse_fixed_point-render x d =
    rw
      (
        trim-NoSpaces _ (signed_render-NoSpaces (is_neg x) (nat_abs x) d),
        match_decimal-render (is_neg x) (nat_abs x) d,
      )
      (scaled_value-render (is_neg x) (nat_abs x) d ∙ ap ok (signed_parts x))
