-- ===== src/Amounts/Digits.antt =====
-- What `to_string`, padding and `value` have to do with one another.
use native.Mathlib.Nat.{pow-suc, pow-zero}
use stellar_yield_contracts.Base.{
  ℕ, zero, suc, ◌+◌, ◌-◌, ◌*◌, ◌/◌, ◌%◌, ◌^◌, ◌<◌, ◌≤◌, ◌≡◌, refl, ◌∙◌, true, false, List, [], ◌∷◌,
  ◌++◌, arith, length, replicate, All, All-append, length-append, length-replicate,
}
use stellar_yield_contracts.Amounts.Text.{
  zero_char, is_digit, is_space, trim, trim_end, value_from, value, digits_before, to_string,
  span_digits, pad_start,
}

abbrev pub AllDigits : List ℕ → Type 0
AllDigits s = All (λ c. is_digit c ≡ true) s

value_from-digits_before :
    (fuel n : ℕ) (acc : List ℕ) → n < fuel → value (digits_before fuel n acc) ≡ value_from n acc
unfolding digits_before
value_from-digits_before zero n acc h = elim h [ ]
value_from-digits_before (suc fuel) n acc h =
    ground (arith, value_from-digits_before fuel (n / 10) ((zero_char + n % 10) ∷ acc))

pub value-to_string : (n : ℕ) → value (to_string n) ≡ n
unfolding to_string
value-to_string n = value_from-digits_before (suc n) n [] (omega arith)

digits_before-AllDigits :
    (fuel n : ℕ) (acc : List ℕ) → AllDigits acc → AllDigits (digits_before fuel n acc)
unfolding digits_before
digits_before-AllDigits zero n acc h = h
digits_before-AllDigits (suc fuel) n acc h =
    ground (arith, digits_before-AllDigits fuel (n / 10) ((zero_char + n % 10) ∷ acc))

pub to_string-AllDigits : (n : ℕ) → AllDigits (to_string n)
unfolding to_string
to_string-AllDigits n = digits_before-AllDigits (suc n) n [] tt

length-digits_before :
    (fuel n : ℕ) (acc : List ℕ) → n < fuel → length acc < length (digits_before fuel n acc)
unfolding digits_before
length-digits_before zero n acc h = elim h [ ]
length-digits_before (suc fuel) n acc h =
    ground (arith, length-digits_before fuel (n / 10) ((zero_char + n % 10) ∷ acc))

pub length-to_string : (n : ℕ) → 0 < length (to_string n)
unfolding to_string
length-to_string n = length-digits_before (suc n) n [] (omega arith)

pub value_from-zeros : (k : ℕ) (s : List ℕ) → value (replicate k zero_char ++ s) ≡ value s
value_from-zeros zero s = refl
value_from-zeros (suc k) s = value_from-zeros k s

pub replicate-AllDigits : (k : ℕ) → AllDigits (replicate k zero_char)
replicate-AllDigits zero = tt
replicate-AllDigits (suc k) = (refl, replicate-AllDigits k)

pub pad_start-AllDigits : (k : ℕ) (s : List ℕ) → AllDigits s → AllDigits (pad_start k s)
pad_start-AllDigits k s h =
    All-append (λ c. is_digit c ≡ true) _ s (replicate-AllDigits (k - length s)) h

pub length-pad_start : (k : ℕ) (s : List ℕ) → k ≤ length (pad_start k s)
length-pad_start k s = omega (
  arith,
  length-append (replicate (k - length s) zero_char) s,
  length-replicate (k - length s) zero_char,
)

pub AllDigits-left : (xs ys : List ℕ) → AllDigits (xs ++ ys) → AllDigits xs
AllDigits-left [] ys h = tt
AllDigits-left (x ∷ xs) ys (p, h) = (p, AllDigits-left xs ys h)

pub AllDigits-right : (xs ys : List ℕ) → AllDigits (xs ++ ys) → AllDigits ys
AllDigits-right [] ys h = h
AllDigits-right (x ∷ xs) ys (p, h) = AllDigits-right xs ys h

pub span_digits-all : (s : List ℕ) → AllDigits s → span_digits s ≡ (s, [])
unfolding span_digits
span_digits-all [] h = refl
span_digits-all (c ∷ s) (p, h) = ground (arith, span_digits-all s h)

pub span_digits-append :
    (s : List ℕ) (c : ℕ) (rest : List ℕ)
    → AllDigits s
    → is_digit c ≡ false
    → span_digits (s ++ c ∷ rest) ≡ (s, c ∷ rest)
unfolding span_digits
span_digits-append [] c rest h e = ground arith
span_digits-append (d ∷ s) c rest (p, h) e = ground (arith, span_digits-append s c rest h e)

abbrev pub NoSpaces : List ℕ → Type 0
NoSpaces s = All (λ c. is_space c ≡ false) s

trim_end-NoSpaces : (s : List ℕ) → NoSpaces s → trim_end s ≡ s
unfolding trim_end
trim_end-NoSpaces [] h = refl
trim_end-NoSpaces (c ∷ []) (p, h) = ground arith
trim_end-NoSpaces (c ∷ d ∷ s) (p, h) = ground (arith, trim_end-NoSpaces (d ∷ s) h)

pub trim-NoSpaces : (s : List ℕ) → NoSpaces s → trim s ≡ s
unfolding trim
trim-NoSpaces [] h = refl
trim-NoSpaces (c ∷ s) h = ground (arith, trim_end-NoSpaces (c ∷ s) h)

pub AllDigits-NoSpaces : (s : List ℕ) → AllDigits s → NoSpaces s
unfolding is_space
AllDigits-NoSpaces [] h = tt
AllDigits-NoSpaces (c ∷ s) (p, h) = (ground arith, AllDigits-NoSpaces s h)

-- A text of digits, read from the accumulator `n`.
value_from-shift : (n : ℕ) (s : List ℕ) → value_from n s ≡ n * 10 ^ length s + value s
value_from-shift n [] = rw (pow-zero 10) (omega arith)
value_from-shift n (c ∷ s) = rw (pow-suc 10 (length s)) (
    omega (
      arith,
      value_from-shift (n * 10 + (c - zero_char)) s,
      value_from-shift (0 * 10 + (c - zero_char)) s,
    ))

value_from-append :
    (n : ℕ) (xs ys : List ℕ) → value_from n (xs ++ ys) ≡ value_from (value_from n xs) ys
value_from-append n [] ys = refl
value_from-append n (x ∷ xs) ys = value_from-append (n * 10 + (x - zero_char)) xs ys

pub value-append : (xs ys : List ℕ) → value (xs ++ ys) ≡ value xs * 10 ^ length ys + value ys
value-append xs ys = value_from-append 0 xs ys ∙ value_from-shift (value xs) ys

pub value-zeros : (k : ℕ) → value (replicate k zero_char) ≡ 0
value-zeros zero = refl
value-zeros (suc k) = value-zeros k
