-- ===== src/Auth/Cidr/Range.antt =====
-- A CIDR block as a range of addresses.
use native.Mathlib.Nat.{div-mul-le_self, lt-div-mul-add, div-eq_of_lt-le}
use stellar_yield_contracts.Base.{
  ℕ, zero, suc, ap, ◌+◌, ◌-◌, ◌*◌, ◌/◌, ◌^◌, ◌≤◌, ◌<◌, ◌≡◌, refl, ◌↔◌, true, false, Option, none,
  some, List, ◌==◌, leb, arith, Bool-cases, inl, inr, ==_refl, leb→le, map, [], ◌∷◌,
}
use stellar_yield_contracts.Base.Int.{ℤ, pos, negsuc}
use stellar_yield_contracts.Auth.Text.{split_on}
use stellar_yield_contracts.Auth.Cidr.{
  octet, join_octets, four_octets, masked, in_network, range_text, prefix_bits, parse_ipv4,
  ip_matches_cidr,
}

pow_two-pos : (k : ℕ) → 0 < 2 ^ k
pow_two-pos zero = omega arith
pow_two-pos (suc k) = omega (arith, pow_two-pos k)

-- Two numbers have the same multiple of k below them when one lies in the block of the other.
same_block : (k n r : ℕ) → 0 < k → (n / k * k ≡ r / k * k) ↔ ((r / k * k ≤ n) × (n < r / k * k + k))
same_block k n r h = (
  λ e. (omega (arith, e, div-mul-le_self n k), omega (arith, e, lt-div-mul-add {a = n} {b = k} h)),
  λ (low, high). ap (λ q. q * k) (div-eq_of_lt-le {k = r / k} k low (omega (arith, high))),
)

masked-range :
    (b n r : ℕ)
    → n < 2 ^ 32
    → b ≤ 32
    → (masked b n ≡ masked b r) ↔ ((masked b r ≤ n) × (n < masked b r + 2 ^ (32 - b)))
unfolding masked
masked-range zero n r bound h = (λ e. (omega arith, omega arith), λ p. refl)
masked-range (suc b) n r bound h =
    let e : (suc b == 0) ≡ false = ground arith in
    rw e (same_block (2 ^ (32 - suc b)) n r (pow_two-pos (32 - suc b)))

octet-bound : (o : Option ℤ) (a : ℕ) → octet o ≡ some a → a ≤ 255
octet-bound none a e = ground (arith, e)
octet-bound (some (pos n)) a e = ground (arith, e)
octet-bound (some (negsuc n)) a e = ground (arith, e)

abbrev IsByte : Option ℕ → Type 0
IsByte none = Unit
IsByte (some a) = a ≤ 255

octet-IsByte : (o : Option ℤ) → IsByte (octet o)
octet-IsByte none = tt
octet-IsByte (some (pos n)) = elim (Bool-cases (leb n 255)) [
  | inl small ↦ rw small (leb→le n 255 small)
  | inr large ↦ rw large tt
]
octet-IsByte (some (negsuc n)) = tt

join_octets-bound :
    (o p q r : Option ℕ) (n : ℕ)
    → IsByte o
    → IsByte p
    → IsByte q
    → IsByte r
    → join_octets o p q r ≡ some n
    → n < 2 ^ 32
unfolding join_octets
join_octets-bound (some a) (some b) (some c) (some d) n ha hb hc hd e =
    let total : a * 2 ^ 24 + b * 2 ^ 16 + c * 2 ^ 8 + d ≡ n = ground (arith, e) in
    omega (arith, total)
join_octets-bound none p q r n ha hb hc hd e = ground (arith, e)
join_octets-bound (some a) none q r n ha hb hc hd e = ground (arith, e)
join_octets-bound (some a) (some b) none r n ha hb hc hd e = ground (arith, e)
join_octets-bound (some a) (some b) (some c) none n ha hb hc hd e = ground (arith, e)

four_octets-bound :
    (f : List ℕ → Option ℤ) (xs : List (List ℕ)) (n : ℕ)
    → four_octets (map (λ s. octet (f s)) xs) ≡ some n
    → n < 2 ^ 32
four_octets-bound f [] n e = ground (arith, e)
four_octets-bound f (a ∷ []) n e = ground (arith, e)
four_octets-bound f (a ∷ b ∷ []) n e = ground (arith, e)
four_octets-bound f (a ∷ b ∷ c ∷ []) n e = ground (arith, e)
four_octets-bound f (a ∷ b ∷ c ∷ d ∷ []) n e =
    join_octets-bound (octet (f a)) (octet (f b)) (octet (f c)) (octet (f d)) n (octet-IsByte (f a))
      (octet-IsByte (f b)) (octet-IsByte (f c)) (octet-IsByte (f d)) e
four_octets-bound f (a ∷ b ∷ c ∷ d ∷ x ∷ xs) n e = ground (arith, e)

-- The addresses of a network: the block of 2 ^ (32 - bits) numbers that holds the range's address.
abbrev pub InBlock : Option ℕ → Option ℕ → Option ℤ → Type 0
InBlock (some ip) (some range) (some (pos bits)) =
    (bits ≤ 32) × (masked bits range ≤ ip) × (ip < masked bits range + 2 ^ (32 - bits))
InBlock _ _ _ = ⊥

in_network-InBlock :
    (ip range : Option ℕ) (bits : Option ℤ)
    → ((n : ℕ) → ip ≡ some n → n < 2 ^ 32)
    → (in_network ip range bits ≡ true) ↔ InBlock ip range bits
unfolding in_network
in_network-InBlock (some n) (some r) (some (pos b)) bound = (
  λ e.
      let small : b ≤ 32 = ground (arith, e) in
      let same : masked b n ≡ masked b r = ground (arith, e) in
      let (low, high) = (masked-range b n r (bound n refl) small).0 same in (small, low, high),
  λ (small, low, high).
      let same = (masked-range b n r (bound n refl) small).1 (low, high) in
      let fits : leb b 32 ≡ true = ground (arith, small) in
      rw (same, fits, ==_refl (masked b r)) refl,
)
in_network-InBlock none range bits bound = (λ e. ground (arith, e), λ h. ground (arith, h))
in_network-InBlock (some n) none bits bound = (λ e. ground (arith, e), λ h. ground (arith, h))
in_network-InBlock (some n) (some r) none bound = (λ e. ground (arith, e), λ h. ground (arith, h))
in_network-InBlock (some n) (some r) (some (negsuc b)) bound =
    (λ e. ground (arith, e), λ h. ground (arith, h))

-- An address text fits a CIDR text exactly when both addresses parse, the prefix length is between
-- 0 and 32, and the address lies in the block of 2 ^ (32 - bits) addresses that starts at the
-- range's address with its low bits cleared.
pub ip_matches_cidr-InBlock :
    (number : List ℕ → Option ℤ) (ip cidr : List ℕ)
    → let parts = split_on b'/' cidr in
      (ip_matches_cidr number ip cidr ≡ true)
      ↔ InBlock (parse_ipv4 number ip) (parse_ipv4 number (range_text parts)) (prefix_bits parts)
unfolding ip_matches_cidr parse_ipv4
ip_matches_cidr-InBlock number ip cidr =
    in_network-InBlock _ _ _ (four_octets-bound number (split_on b'.' ip))
