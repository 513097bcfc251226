-- ===== src/TreeSpace/Examples.antt =====
-- The theorem about index spaces, at a tree of rows 2 to 4 with columns 0 to 9 and row 7 with column 3.
use legms.Prelude.{◌≡◌, refl, [], ◌∷◌, some, ok, arith}
use legms.IndexTree.Tree.{IndexTree, empty, block}
use legms.IndexTree.Compact.Form.{IsCompact}
use legms.IndexTree.Compact.Indexes.{has_index}
use legms.IndexTree.Shape.{rank}
use legms.TreeSpace.Task.{Space, tree_index_space}
use legms.TreeSpace.Rects.{in_boxes}
use legms.TreeSpace.Space.{tree_index_space-has_index}

abbrev rows : IndexTree
rows = block 2 3 (block 0 10 empty empty) (block 7 1 (block 3 1 empty empty) empty)

rows-IsCompact : IsCompact rows
rows-IsCompact = ground arith

rank-rows : rank rows ≡ some 2
unfolding rank
rank-rows = refl

tree_index_space-has_index_example :
    (space : Space) × (tree_index_space 3 (λ boxes. boxes) rows ≡ ok space)
    × (space.dim ≡ 2)
    × (in_boxes space.rects (4 ∷ 9 ∷ []) ≡ has_index rows (4 ∷ 9 ∷ []))
tree_index_space-has_index_example =
    tree_index_space-has_index 3 (λ boxes. boxes) (λ boxes v. refl) rows 1 (4 ∷ 9 ∷ [])
      rows-IsCompact rank-rows (omega arith)
