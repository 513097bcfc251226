-- ===== src/Utility/Redop/Sorted.antt =====
-- Vectors of values with their rows in the order of the values, as acc_field_redop keeps them.
use legms.Prelude.{◌≡◌, Bool, true, false, ◌&&◌, ◌||◌, List, [], ◌∷◌, ◌⊎◌}
use legms.Utility.Redop.{Comparison}
use legms.Utility.Redop.Rows.{elem}

-- operator< is a strict order, of which operator== is the equality.
pub record IsOrder {ℓ} {A : Type ℓ} (c : Comparison A) : Type ℓ where
  pub irreflexive : (a : A) → c.lt a a ≡ false
  pub transitive : (a b d : A) → c.lt a b ≡ true → c.lt b d ≡ true → c.lt a d ≡ true
  pub total : (a b : A) → c.lt a b ≡ false → c.beq a b ≡ false → c.lt b a ≡ true

module _ {T R : Type 0} where
  -- The vector has the value `t` with the rows `rows`.
  unfoldable pub Entry : T → List R → List (T × List R) → Type 0
  Entry t rows [] = ⊥
  Entry t rows (field ∷ fields) = ((t, rows) ≡ field) ⊎ Entry t rows fields

module _ {T R : Type 0} (ct : Comparison T) where
  -- Each value is less than the ones behind it.
  unfoldable pub IsSorted : List (T × List R) → Type 0
  IsSorted [] = Unit
  IsSorted ((u, lrns) ∷ fields) =
      ((t : T) (rows : List R) → Entry t rows fields → ct.lt u t ≡ true) × IsSorted fields

module _ {T R : Type 0} (ct : Comparison T) (c : Comparison R) where
  -- The row `x` is recorded for the value `t`.
  unfoldable pub has_row : T → R → List (T × List R) → Bool
  unfolding elem
  has_row t x [] = false
  has_row t x ((u, rows) ∷ fields) = (ct.beq t u && elem c x rows) || has_row t x fields
