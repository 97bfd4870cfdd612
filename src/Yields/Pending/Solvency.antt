-- ===== src/Yields/Pending/Solvency.antt =====
-- What holders are promised of each epoch, and of all together.
use native.Mathlib.Nat.{div-mul-le_self, mul-le-mul_left, le_of_mul-le-mul_right}
use stellar_yield_contracts.Base.{
  ℕ, ◌+◌, ◌*◌, ◌/◌, ◌≤◌, ◌<◌, ◌≡◌, refl, ap, ◌∙◌, Bool, true, false, Option, List, [], ◌∷◌, arith,
  leb, if◌then◌else◌, Bool-cases, inl, inr, All,
}
use stellar_yield_contracts.Base.Int.{ℤ, pos, ◌+ℤ◌, quot, leb_ℤ, ltb_ℤ, pos_mul}
use stellar_yield_contracts.Yields.Pending.{
  EpochRow, PendingYield, is_claimed, epoch_yield, pending_from, push_claimed, push_pending,
}

-- The yield is not negative, and the shares at the distribution are at least `held`.
pub record Covers (held : ℕ) (row : EpochRow) : Type 0 where
  pub yield : ℕ
  pub total : ℕ
  pub is_yield : row.yield_amount ≡ pos yield
  pub is_total : row.total_shares ≡ pos total
  pub enough : held ≤ total

-- The part of an epoch that a holder is promised, of a yield share `amount`.
abbrev part_of : Bool → ℕ → ℕ → ℕ
part_of true total amount = 0
part_of false total amount = if leb total 0 then 0 else amount

abbrev promised : {held : ℕ} → Option ℕ → ℕ → (row : EpochRow) → Covers held row → ℕ
promised last shares row c = part_of (is_claimed last row) c.total ((c.yield * shares) / c.total)

abbrev pub promised_all :
    (held : ℕ) → Option ℕ → ℕ → (rows : List EpochRow) → All (Covers held) rows → ℕ
promised_all held last shares [] cs = 0
promised_all held last shares (r ∷ rows) (c, cs) =
    promised last shares r c + promised_all held last shares rows cs

pub pos-+ℤ : (a b : ℕ) → pos a +ℤ pos b ≡ pos (a + b)
unfolding ◌+ℤ◌
pos-+ℤ a b = ground arith

epoch_yield_pos :
    (shares yield total : ℕ) (row : EpochRow)
    → row.yield_amount ≡ pos yield
    → row.total_shares ≡ pos total
    → epoch_yield (pos shares) row ≡ pos ((yield * shares) / total)
unfolding quot
epoch_yield_pos shares yield total row e k = rw (e, k, pos_mul yield shares) refl

-- One round of the loop, by the numbers that it computes.
round_value :
    (claimed : Bool) (epoch : ℕ) (total amount : ℤ) (t a n : ℕ) (rest : PendingYield)
    → total ≡ pos t
    → amount ≡ pos a
    → rest.pending_yield ≡ pos n
    → (if claimed
        then push_claimed epoch rest
        else if leb_ℤ total (pos 0)
        then rest
        else if ltb_ℤ (pos 0) amount
        then push_pending epoch amount rest
        else rest).pending_yield
      ≡ pos (part_of claimed t a + n)
round_value true epoch total amount t a n rest e k h = h ∙ ap pos (omega arith)
round_value false epoch total amount t a n rest e k h =
    rw (e, k)
      (elim (Bool-cases (leb_ℤ (pos t) (pos 0))) [
        | inl none_held ↦
            let empty : leb t 0 ≡ true = ground (arith, none_held) in
            simp (none_held, empty) (h ∙ ap pos (omega arith))
        | inr held ↦
            let some_held : leb t 0 ≡ false = ground (arith, held) in
            elim (Bool-cases (ltb_ℤ (pos 0) (pos a))) [
              | inl positive ↦
                  simp (held, some_held, positive) (ap (λ m. pos a +ℤ m) h ∙ pos-+ℤ a n)
              | inr nothing ↦
                  let zero_part : a ≡ 0 = ground (arith, nothing) in
                  simp (held, some_held, nothing) (h ∙ ap pos (omega (arith, zero_part)))
            ]
      ])

pub pending-promised_all :
    (last : Option ℕ) (shares held : ℕ) (rows : List EpochRow) (cs : All (Covers held) rows)
    → (pending_from last (pos shares) rows).pending_yield
      ≡ pos (promised_all held last shares rows cs)
unfolding pending_from
pending-promised_all last shares held [] cs = refl
pending-promised_all last shares held (row ∷ rows) (c, cs) =
    round_value (is_claimed last row) row.epoch row.total_shares (epoch_yield (pos shares) row)
      c.total ((c.yield * shares) / c.total) (promised_all held last shares rows cs)
      (pending_from last (pos shares) rows) c.is_total
      (epoch_yield_pos shares c.yield c.total row c.is_yield c.is_total)
      (pending-promised_all last shares held rows cs)

-- A holder: the last epoch claimed, and the shares.
abbrev pub Holder : Type 0
Holder = Option ℕ × ℕ

abbrev pub sum_shares : List Holder → ℕ
sum_shares [] = 0
sum_shares ((last, shares) ∷ hs) = shares + sum_shares hs

abbrev pub sum_yields : (held : ℕ) (rows : List EpochRow) → All (Covers held) rows → ℕ
sum_yields held [] cs = 0
sum_yields held (r ∷ rows) (c, cs) = c.yield + sum_yields held rows cs

abbrev row_promised : {held : ℕ} → List Holder → (row : EpochRow) → Covers held row → ℕ
row_promised [] row c = 0
row_promised ((last, shares) ∷ hs) row c = promised last shares row c + row_promised hs row c

abbrev pub total_promised :
    (held : ℕ) → List Holder → (rows : List EpochRow) → All (Covers held) rows → ℕ
total_promised held [] rows cs = 0
total_promised held ((last, shares) ∷ hs) rows cs =
    promised_all held last shares rows cs + total_promised held hs rows cs

total_promised-none :
    (held : ℕ) (hs : List Holder) (cs : All (Covers held) []) → total_promised held hs [] cs ≡ 0
total_promised-none held [] cs = refl
total_promised-none held ((last, shares) ∷ hs) cs = omega (arith, total_promised-none held hs cs)

-- By epochs in place of holders.
total_promised-row :
    (held : ℕ) (hs : List Holder) (row : EpochRow) (rows : List EpochRow) (c : Covers held row)
    (cs : All (Covers held) rows)
    → total_promised held hs (row ∷ rows) (c, cs)
      ≡ row_promised hs row c + total_promised held hs rows cs
total_promised-row held [] row rows c cs = refl
total_promised-row held ((last, shares) ∷ hs) row rows c cs =
    omega (arith, total_promised-row held hs row rows c cs)

part_of-mul-le : (claimed : Bool) (total n : ℕ) → part_of claimed total (n / total) * total ≤ n
part_of-mul-le true total n = omega arith
part_of-mul-le false total n = elim (Bool-cases (leb total 0)) [
  | inl e ↦ rw e (omega arith)
  | inr e ↦ rw e (div-mul-le_self n total)
]

row_promised-mul-le :
    {held : ℕ} (hs : List Holder) (row : EpochRow) (c : Covers held row)
    → row_promised hs row c * c.total ≤ c.yield * sum_shares hs
row_promised-mul-le [] row c = omega arith
row_promised-mul-le ((last, shares) ∷ hs) row c = omega (
  arith,
  part_of-mul-le (is_claimed last row) c.total (c.yield * shares),
  row_promised-mul-le hs row c,
)

part_of-none : (claimed : Bool) (total n : ℕ) → total ≡ 0 → part_of claimed total n ≡ 0
part_of-none true total n e = refl
part_of-none false total n e = ground (arith, e)

row_promised-none :
    {held : ℕ} (hs : List Holder) (row : EpochRow) (c : Covers held row)
    → c.total ≡ 0
    → row_promised hs row c ≡ 0
row_promised-none [] row c e = refl
row_promised-none ((last, shares) ∷ hs) row c e = omega (
  arith,
  part_of-none (is_claimed last row) c.total ((c.yield * shares) / c.total) e,
  row_promised-none hs row c e,
)

row_promised-le :
    {held : ℕ} (hs : List Holder) (row : EpochRow) (c : Covers held row)
    → sum_shares hs ≤ held
    → row_promised hs row c ≤ c.yield
row_promised-le hs row c few = elim (Bool-cases (leb c.total 0)) [
  | inl e ↦
      let empty : c.total ≡ 0 = ground (arith, e) in omega (arith, row_promised-none hs row c empty)
  | inr e ↦
      let some_held : 0 < c.total = ground (arith, e) in
      let all_held : sum_shares hs ≤ c.total = omega (arith, few, c.enough) in
      let product = mul-le-mul_left c.yield all_held in
      le_of_mul-le-mul_right {k = c.total} (omega (arith, row_promised-mul-le hs row c, product))
        some_held
]

pub total_promised-le :
    (held : ℕ) (hs : List Holder) (rows : List EpochRow) (cs : All (Covers held) rows)
    → sum_shares hs ≤ held
    → total_promised held hs rows cs ≤ sum_yields held rows cs
total_promised-le held hs [] cs few = omega (arith, total_promised-none held hs cs)
total_promised-le held hs (row ∷ rows) (c, cs) few = omega (
  arith,
  total_promised-row held hs row rows c cs,
  row_promised-le hs row c few,
  total_promised-le held hs rows cs few,
)
