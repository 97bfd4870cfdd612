-- ===== src/Amounts/Text.antt =====
-- The methods of JavaScript strings that the amount helpers call, over lists of code units.
use Prim.Native.Char.{code}
use Prim.Native.String.{String}
use stellar_yield_contracts.Base.{
  ℕ, zero, suc, ◌+◌, ◌-◌, ◌*◌, ◌/◌, ◌%◌, Bool, true, false, ◌&&◌, ◌||◌, List, [], ◌∷◌, ◌++◌, ltb,
  leb, ◌==◌, if◌then◌else◌, length, take, drop, replicate,
}

-- The code units of a literal text of ASCII characters. `String` has its own `[]` and `∷`.
abbrev pub codes : String → List ℕ
codes String.[] = []
codes (String.◌∷◌ c s) = code c ∷ codes s

abbrev pub zero_char : ℕ
zero_char = b'0'

-- `\d`
abbrev pub is_digit : ℕ → Bool
is_digit c = leb b'0' c && leb c b'9'

-- The white space and line ends that `trim` removes.
unfoldable pub is_space : ℕ → Bool
is_space c =
    (leb 9 c && leb c 13)
    || c == 32
    || c == 0xa0
    || c == 0x1680
    || (leb 0x2000 c && leb c 0x200a)
    || c == 0x2028
    || c == 0x2029
    || c == 0x202f
    || c == 0x205f
    || c == 0x3000
    || c == 0xfeff

unfoldable pub trim_start : List ℕ → List ℕ
trim_start [] = []
trim_start (c ∷ s) = if is_space c then trim_start s else c ∷ s

abbrev keep_unless_space : ℕ → List ℕ → List ℕ
keep_unless_space c [] = if is_space c then [] else c ∷ []
keep_unless_space c (d ∷ s) = c ∷ d ∷ s

unfoldable pub trim_end : List ℕ → List ℕ
trim_end [] = []
trim_end (c ∷ s) = keep_unless_space c (trim_end s)

-- `s.trim()`
unfoldable pub trim : List ℕ → List ℕ
unfolding trim_start trim_end is_space
trim s = trim_end (trim_start s)

-- `s.padStart(n, "0")` and `s.padEnd(n, "0")`
abbrev pub pad_start : ℕ → List ℕ → List ℕ
pad_start n s = replicate (n - length s) zero_char ++ s

abbrev pub pad_end : ℕ → List ℕ → List ℕ
pad_end n s = s ++ replicate (n - length s) zero_char

-- `s.slice(0, -n)` and `s.slice(-n)`, for 0 < n
abbrev pub slice_until : ℕ → List ℕ → List ℕ
slice_until n s = take (length s - n) s

abbrev pub slice_last : ℕ → List ℕ → List ℕ
slice_last n s = drop (length s - n) s

-- `BigInt(s)` on a text of digits
abbrev pub value_from : ℕ → List ℕ → ℕ
value_from n [] = n
value_from n (c ∷ s) = value_from (n * 10 + (c - zero_char)) s

abbrev pub value : List ℕ → ℕ
value s = value_from 0 s

-- The digits of `n` before those of `acc`. A number has fewer digits than its value plus one.
unfoldable pub digits_before : ℕ → ℕ → List ℕ → List ℕ
digits_before zero n acc = acc
digits_before (suc fuel) n acc =
    let more = digits_before fuel (n / 10) ((zero_char + n % 10) ∷ acc) in
    if ltb n 10 then (zero_char + n) ∷ acc else more

-- `n.toString()`
unfoldable pub to_string : ℕ → List ℕ
unfolding digits_before
to_string n = digits_before (suc n) n []

-- The longest prefix of digits, and what follows it.
unfoldable pub span_digits : List ℕ → List ℕ × List ℕ
span_digits [] = ([], [])
span_digits (c ∷ s) = if is_digit c then (c ∷ (span_digits s).0, (span_digits s).1) else ([], c ∷ s)

abbrev pub is_empty : List ℕ → Bool
is_empty [] = true
is_empty (c ∷ s) = false
