-- ===== src/TreeSpace/Rects.antt =====
-- The points of rectangles.
use legms.Prelude.{
  ℕ, ◌<◌, ◌≡◌, refl, Bool, true, false, ◌&&◌, ◌||◌, List, [], ◌∷◌, ◌++◌, map, arith,
}
use legms.Prelude.Int.{ℤ, pos, leb_ℤ}
use legms.IndexTree.Tree.{covers}
use legms.TreeSpace.Task.{Box, interval}

abbrev pub in_interval : ℤ × ℤ → ℕ → Bool
in_interval (lo, hi) x = leb_ℤ lo (pos x) && leb_ℤ (pos x) hi

unfoldable pub in_box : Box → List ℕ → Bool
in_box [] [] = true
in_box [] (x ∷ v) = false
in_box (b ∷ box) [] = false
in_box (b ∷ box) (x ∷ v) = in_interval b x && in_box box v

unfoldable pub in_boxes : List Box → List ℕ → Bool
unfolding in_box
in_boxes [] v = false
in_boxes (box ∷ boxes) v = in_box box v || in_boxes boxes v

pub in_interval-interval : (o n x : ℕ) → 0 < n → in_interval (interval o n) x ≡ covers o n x
unfolding interval
in_interval-interval o n x h = ground arith

pub in_boxes-append :
    (bs cs : List Box) (v : List ℕ) → in_boxes (bs ++ cs) v ≡ (in_boxes bs v || in_boxes cs v)
unfolding in_boxes
in_boxes-append [] cs v = refl
in_boxes-append (b ∷ bs) cs v = ground (arith, in_boxes-append bs cs v)

pub in_boxes-map :
    (b : ℤ × ℤ) (boxes : List Box) (x : ℕ) (v : List ℕ)
    → in_boxes (map (λ box. b ∷ box) boxes) (x ∷ v) ≡ (in_interval b x && in_boxes boxes v)
unfolding in_boxes in_box
in_boxes-map b [] x v = ground arith
in_boxes-map b (box ∷ boxes) x v = ground (arith, in_boxes-map b boxes x v)

pub in_boxes-map_nil :
    (b : ℤ × ℤ) (boxes : List Box) → in_boxes (map (λ box. b ∷ box) boxes) [] ≡ false
unfolding in_boxes in_box
in_boxes-map_nil b [] = refl
in_boxes-map_nil b (box ∷ boxes) = in_boxes-map_nil b boxes
