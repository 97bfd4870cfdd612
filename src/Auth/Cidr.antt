-- ===== src/Auth/Cidr.antt =====
-- `parseIpv4`, `ipMatchesCidr` and `isIpAllowedByCidrs` of auth.ts.
pub mod Range
use stellar_yield_contracts.Base.{
  ℕ, ◌+◌, ◌-◌, ◌*◌, ◌/◌, ◌^◌, Bool, true, false, ◌&&◌, Option, none, some, List, [], ◌∷◌, leb, ◌==◌,
  if◌then◌else◌, map, any,
}
use stellar_yield_contracts.Base.Int.{ℤ, pos, negsuc}
use stellar_yield_contracts.Amounts.Text.{is_empty}
use stellar_yield_contracts.Auth.Text.{split_on, parse_int}

-- An address part in 0 … 255; none for NaN and for a part out of range.
abbrev pub octet : Option ℤ → Option ℕ
octet none = none
octet (some (pos n)) = if leb n 255 then some n else none
octet (some (negsuc n)) = none

-- ((parts[0] << 24) | (parts[1] << 16) | (parts[2] << 8) | parts[3]) >>> 0
unfoldable pub join_octets : Option ℕ → Option ℕ → Option ℕ → Option ℕ → Option ℕ
join_octets (some a) (some b) (some c) (some d) = some (a * 2 ^ 24 + b * 2 ^ 16 + c * 2 ^ 8 + d)
join_octets _ _ _ _ = none

abbrev pub four_octets : List (Option ℕ) → Option ℕ
four_octets (a ∷ b ∷ c ∷ d ∷ []) = join_octets a b c d
four_octets _ = none

-- `n & mask` for a prefix of `bits` bits of a 32-bit number
unfoldable pub masked : ℕ → ℕ → ℕ
masked bits n = if bits == 0 then 0 else n / 2 ^ (32 - bits) * 2 ^ (32 - bits)

-- The tests of `ipMatchesCidr` on what it has parsed.
unfoldable pub in_network : Option ℕ → Option ℕ → Option ℤ → Bool
unfolding masked
in_network (some ip) (some range) (some (pos bits)) =
    leb bits 32 && masked bits ip == masked bits range
in_network _ _ _ = false

-- `const [rangeIp, bitsStr] = cidr.split("/")`
abbrev pub range_text : List (List ℕ) → List ℕ
range_text [] = []
range_text (range ∷ rest) = range

-- `bitsStr ? parseInt(bitsStr, 10) : 32`
abbrev pub prefix_bits : List (List ℕ) → Option ℤ
prefix_bits (range ∷ bits ∷ rest) = if is_empty bits then some (pos 32) else parse_int bits
prefix_bits _ = some (pos 32)

-- `number` is JavaScript's `Number` on one part of an address: none for NaN, an integer otherwise.
module _ (number : List ℕ → Option ℤ) where
  -- `parseIpv4`; none for -1
  unfoldable pub parse_ipv4 : List ℕ → Option ℕ
  unfolding join_octets
  parse_ipv4 ip = four_octets (map (λ s. octet (number s)) (split_on b'.' ip))

  -- `ipMatchesCidr`
  unfoldable pub ip_matches_cidr : List ℕ → List ℕ → Bool
  unfolding parse_ipv4 in_network
  ip_matches_cidr ip cidr =
      let parts = split_on b'/' cidr in
      in_network (parse_ipv4 ip) (parse_ipv4 (range_text parts)) (prefix_bits parts)

  -- `isIpAllowedByCidrs`
  abbrev pub is_ip_allowed_by_cidrs : List ℕ → Option (List (List ℕ)) → Bool
  is_ip_allowed_by_cidrs ip none = true
  is_ip_allowed_by_cidrs ip (some []) = true
  is_ip_allowed_by_cidrs ip (some (cidr ∷ cidrs)) = any (ip_matches_cidr ip) (cidr ∷ cidrs)
