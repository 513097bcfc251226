-- ===== src/IndexTree/Grow.antt =====
-- hyperion/IndexTree.h: trees made from a tree by growing its leaves and by pruning.
pub mod Leaves
pub mod Pruned
use legms.Prelude.{
  ℕ, zero, suc, List, [], ◌∷◌, ◌++◌, leb, if◌then◌else◌, Option, none, some, Result, ok, ◌>>=◌,
}
use legms.IndexTree.Tree.{IndexTree, empty, block, is_empty}
use legms.IndexTree.Compact.{of_blocks}
use legms.IndexTree.Shape.{height}

-- The std::transform of grow_leaves: the vector `sprouted`.
unfoldable pub sprout_blocks : IndexTree → IndexTree → Result IndexTree
unfolding is_empty
sprout_blocks sprout empty = ok empty
sprout_blocks sprout (block i n t r) = do
  t' ← if is_empty t then ok sprout else (sprout_blocks sprout t >>= of_blocks)
  r' ← sprout_blocks sprout r
  ok (block i n t' r')

-- t.grow_leaves(sprout)
unfoldable pub grow_leaves : IndexTree → IndexTree → Result IndexTree
unfolding sprout_blocks
grow_leaves t sprout = sprout_blocks sprout t >>= of_blocks

-- The std::transform of pruned: the vector `trimmed`. In the call for a child, `pruned` is written
-- out.
unfoldable pub prune_blocks : ℕ → IndexTree → Result IndexTree
prune_blocks to_height empty = ok empty
prune_blocks zero (block i n t r) = do r' ← prune_blocks zero r; ok (block i n empty r')
prune_blocks (suc h) (block i n t r) = do
  t' ← if leb (height t) h then ok t else (prune_blocks h t >>= of_blocks)
  r' ← prune_blocks (suc h) r
  ok (block i n t' r')

-- t.pruned(to_height)
unfoldable pub pruned : ℕ → IndexTree → Result IndexTree
unfolding prune_blocks
pruned to_height t =
    if leb (height t) to_height then ok t else (prune_blocks to_height t >>= of_blocks)

-- The children that grow_at makes of one block (i, n, t), one for each coordinate from i + j on. A
-- leaf is replaced by what `fn` returns for its index, if it returns a tree.
unfoldable pub unroll : ℕ → ℕ → (ℕ → Result IndexTree) → IndexTree → Result IndexTree
unroll j zero grown rest = ok rest
unroll j (suc n) grown rest = do
  t' ← grown j
  r' ← unroll (suc j) n grown rest
  ok (block j 1 t' r')

unfoldable pub or_leaf : Option IndexTree → IndexTree
or_leaf none = empty
or_leaf (some t) = t

-- The std::for_each of grow_at, and grow_leaves_at(fn).
unfoldable pub grow_blocks : (List ℕ → Option IndexTree) → List ℕ → IndexTree → Result IndexTree
unfolding is_empty unroll or_leaf
grow_blocks fn here empty = ok empty
grow_blocks fn here (block i n t r) = do
  rest ← grow_blocks fn here r
  unroll i n
      (λ j.
        if is_empty t
        then ok (or_leaf (fn (here ++ j ∷ [])))
        else (grow_blocks fn (here ++ j ∷ []) t >>= of_blocks))
      rest

unfoldable pub grow_leaves_at : (List ℕ → Option IndexTree) → IndexTree → Result IndexTree
unfolding grow_blocks
grow_leaves_at fn t = grow_blocks fn [] t >>= of_blocks
