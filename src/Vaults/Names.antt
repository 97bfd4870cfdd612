-- ===== src/Vaults/Names.antt =====
-- Texts, and the lists of names that a text is checked against.
use mathlib.Core.Path.{subst}
use stellar_yield_contracts.Base.{
  ℕ, ◌≡◌, refl, sym, Bool, true, false, ◌||◌, List, [], ◌∷◌, ◌++◌, ◌⊎◌, inl, inr, arith, All, any,
}
use stellar_yield_contracts.Auth.Text.{eq_text, eq_text_sound}

abbrev pub Text : Type 0
Text = List ℕ

-- `list.includes(s)`
abbrev pub includes : List Text → Text → Bool
includes names s = any (λ t. eq_text s t) names

-- `parts.join(separator)`
unfoldable pub join : Text → List Text → Text
join separator [] = []
join separator (p ∷ []) = p
join separator (p ∷ q ∷ ps) = p ++ separator ++ join separator (q ∷ ps)

or_cases : (a b : Bool) → a || b ≡ true → (a ≡ true) ⊎ (b ≡ true)
or_cases true b h = inl refl
or_cases false b h = inr h

-- What holds of each name of a list holds of a text that the list includes.
pub includes-All :
    (P : Text → Type 0) (names : List Text) (op : Text)
    → All P names
    → includes names op ≡ true
    → P op
includes-All P [] op h e = ground (arith, e)
includes-All P (name ∷ names) op (p, ps) e =
    elim (or_cases (eq_text op name) (includes names op) e) [
      | inl here ↦ subst P (sym (eq_text_sound op name here)) p
      | inr later ↦ includes-All P names op ps later
    ]
