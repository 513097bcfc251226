-- ===== src/TreeSpace/Leaves.antt =====
-- The points of leaves, and what the spaces of subtrees are to be.
use legms.Prelude.{
  ℕ, ◌+◌, ◌<◌, ◌≡◌, refl, sym, inl, inr, true, false, ◌&&◌, ◌||◌, List, [], ◌∷◌, Bool-cases, arith,
}
use legms.IndexTree.Tree.{IndexTree, empty, block, is_empty, covers}
use legms.IndexTree.Compact.Form.{IsCompact, IsCompact-IsOrdered_rest}
use legms.IndexTree.Compact.Canonical.{child_at_below}
use legms.IndexTree.Compact.Indexes.{has_index, has_index-block, has_index-none, has_index-empty}
use legms.IndexTree.Shape.{is_leaf}
use legms.TreeSpace.Task.{Space, leaf_rects, same_dims}
use legms.TreeSpace.Rects.{in_box, in_boxes, in_interval-interval}

-- No coordinate stands in two blocks of a compact tree.
pub has_index_or :
    (i n : ℕ) (t r : IndexTree) (x : ℕ) (cs : List ℕ)
    → IsCompact (block i n t r)
    → has_index (block i n t r) (x ∷ cs)
      ≡ ((covers i n x && has_index t cs) || has_index r (x ∷ cs))
has_index_or i n t r x cs h = elim (Bool-cases (covers i n x)) [
  | inl e ↦
      let under : x < i + n = ground arith in
      let none_there =
        has_index-none r x cs
          (child_at_below (i + n) r x (IsCompact-IsOrdered_rest i n t r h) under) in
      ground (arith, has_index-block i n t r x cs, none_there)
  | inr e ↦ ground (arith, has_index-block i n t r x cs)
]

pub leaf_points :
    (r : IndexTree) (x : ℕ) (cs : List ℕ)
    → IsCompact r
    → is_leaf r ≡ true
    → in_boxes (leaf_rects r) (x ∷ cs) ≡ has_index r (x ∷ cs)
unfolding leaf_rects in_boxes in_box is_leaf is_empty has_index
leaf_points empty x cs h l = sym (has_index-empty x cs)
leaf_points (block i n empty r) x [] h l = ground (
  arith,
  has_index_or i n empty r x [] h,
  in_interval-interval i n x h.0,
  leaf_points r x [] h.3 l,
)
leaf_points (block i n empty r) x (c ∷ cs) h l = ground (
  arith,
  has_index_or i n empty r x (c ∷ cs) h,
  has_index-empty c cs,
  leaf_points r x (c ∷ cs) h.3 l,
)
leaf_points (block i n (block j m s q) r) x cs h l = cc

pub leaf_nil : (r : IndexTree) → in_boxes (leaf_rects r) [] ≡ false
unfolding leaf_rects in_boxes in_box
leaf_nil empty = refl
leaf_nil (block i n t r) = leaf_nil r

-- A space of a dimension with the indexes of a tree.
abbrev pub HasIndexes : ℕ → IndexTree → Space → Type 0
HasIndexes d t space = (space.dim ≡ d) × ((v : List ℕ) → in_boxes space.rects v ≡ has_index t v)

-- One space for each block, in order.
abbrev pub Matches : ℕ → IndexTree → List Space → Type 0
Matches d empty [] = Unit
Matches d empty (s ∷ spaces) = ⊥
Matches d (block i n t r) [] = ⊥
Matches d (block i n t r) (s ∷ spaces) = HasIndexes d t s × Matches d r spaces

pub same_dims-Matches :
    (d : ℕ) (r : IndexTree) (spaces : List Space) → Matches d r spaces → same_dims d spaces ≡ true
unfolding same_dims
same_dims-Matches d r [] m = refl
same_dims-Matches d empty (s ∷ spaces) m = absurd m
same_dims-Matches d (block i n t r) (s ∷ spaces) m =
    ground (arith, m.0.0, same_dims-Matches d r spaces m.1)
