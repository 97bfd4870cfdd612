-- ===== src/Auth/Text.antt =====
-- The methods of JavaScript strings that the middleware calls, over lists of code units.
use stellar_yield_contracts.Base.{
  ℕ, ◌-◌, Bool, true, false, ◌&&◌, Option, none, some, List, [], ◌∷◌, leb, ◌==◌, if◌then◌else◌, map,
  ◌≡◌, refl, arith,
}
use stellar_yield_contracts.Base.Int.{ℤ}
use stellar_yield_contracts.Amounts.Text.{trim_start, span_digits, value, is_empty}
use stellar_yield_contracts.Amounts.FixedPoint.{signed}

-- `s === t`
unfoldable pub eq_text : List ℕ → List ℕ → Bool
eq_text [] [] = true
eq_text [] (d ∷ t) = false
eq_text (c ∷ s) [] = false
eq_text (c ∷ s) (d ∷ t) = c == d && eq_text s t

pub eq_text_sound : (s t : List ℕ) → eq_text s t ≡ true → s ≡ t
unfolding eq_text
eq_text_sound [] [] e = refl
eq_text_sound [] (d ∷ t) e = ground (arith, e)
eq_text_sound (c ∷ s) [] e = ground (arith, e)
eq_text_sound (c ∷ s) (d ∷ t) e = ground (arith, e, eq_text_sound s t)

abbrev pub cons_first : ℕ → List (List ℕ) → List (List ℕ)
cons_first c [] = (c ∷ []) ∷ []
cons_first c (w ∷ ws) = (c ∷ w) ∷ ws

-- `s.split(c)`
unfoldable pub split_on : ℕ → List ℕ → List (List ℕ)
split_on c [] = [] ∷ []
split_on c (d ∷ s) = let rest = split_on c s in if d == c then [] ∷ rest else cons_first d rest

-- `s.toUpperCase()` on a text of ASCII characters, as the names of HTTP methods are
abbrev upper_char : ℕ → ℕ
upper_char c = if leb b'a' c && leb c b'z' then c - 32 else c

abbrev pub to_upper_case : List ℕ → List ℕ
to_upper_case s = map upper_char s

abbrev sign_of : List ℕ → Bool × List ℕ
sign_of [] = (false, [])
sign_of (c ∷ s) = if c == b'-' then (true, s) else if c == b'+' then (false, s) else (false, c ∷ s)

-- `parseInt(s, 10)`; none for NaN
unfoldable pub parse_int : List ℕ → Option ℤ
parse_int s =
    let (negative, rest) = sign_of (trim_start s) in
    let (digits, after) = span_digits rest in
    if is_empty digits then none else some (signed negative (value digits))
