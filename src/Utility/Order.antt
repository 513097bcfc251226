-- ===== src/Utility/Order.antt =====
-- hyperion/utility.h: operator< of Legion's points and rectangles, with their coordinates as lists of
-- one length. Coordinates are natural numbers.
use legms.Prelude.{
  ℕ, ◌≡◌, refl, Bool, true, false, ◌&&◌, List, [], ◌∷◌, ltb, if◌then◌else◌, length, ◌<◌, arith,
}

-- The loop ends at the first coordinate that is not less.
unfoldable pub point_lt : List ℕ → List ℕ → Bool
point_lt [] b = true
point_lt (x ∷ a) [] = true
point_lt (x ∷ a) (y ∷ b) = ltb x y && point_lt a b

pub record Rect : Type 0 where
  pub lo : List ℕ
  pub hi : List ℕ

unfoldable pub rect_lt : Rect → Rect → Bool
unfolding point_lt
rect_lt a b =
    if point_lt a.lo b.lo then true else if point_lt b.lo a.lo then false else point_lt a.hi b.hi

both_ways_at : (x y : ℕ) (p q : Bool) → (ltb x y && p) ≡ true → (ltb y x && q) ≡ false
both_ways_at x y p q h = ground arith

point_lt_asymmetric :
    (a b : List ℕ) → 0 < length a → 0 < length b → point_lt a b ≡ true → point_lt b a ≡ false
unfolding point_lt
point_lt_asymmetric [] b pos pos' h = absurd (omega arith)
point_lt_asymmetric (x ∷ a) [] pos pos' h = absurd (omega arith)
point_lt_asymmetric (x ∷ a) (y ∷ b) pos pos' h = both_ways_at x y (point_lt a b) (point_lt b a) h

decided :
    (p q r s : Bool)
    → (p ≡ true → q ≡ false)
    → (r ≡ true → s ≡ false)
    → (if p then true else if q then false else r) ≡ true
    → (if q then true else if p then false else s) ≡ false
decided true true r s pq rs h = pq refl
decided true false r s pq rs h = refl
decided false true r s pq rs h = cc
decided false false r s pq rs h = rs h

-- Of two rectangles of one or more dimensions, not both are less than the other one.
pub rect_lt_asymmetric :
    (a b : Rect)
    → 0 < length a.lo
    → 0 < length b.lo
    → 0 < length a.hi
    → 0 < length b.hi
    → rect_lt a b ≡ true
    → rect_lt b a ≡ false
unfolding rect_lt
rect_lt_asymmetric a b al bl ah bh h =
    decided (point_lt a.lo b.lo) (point_lt b.lo a.lo) (point_lt a.hi b.hi) (point_lt b.hi a.hi)
      (point_lt_asymmetric a.lo b.lo al bl) (point_lt_asymmetric a.hi b.hi ah bh) h
