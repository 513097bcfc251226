-- ===== src/MeasRef/Extend.antt =====
-- hyperion/MeasRef.cc: `extend_index_ranks`, which pads the indexes of a tree with zeros.
pub mod Padded
pub mod Prefixes
pub mod Ranks
use mathlib.Core.List.{reverse}
use legms.Prelude.{
  ℕ, zero, suc, List, [], ◌∷◌, ltb, ◌==◌, if◌then◌else◌, Option, none, some, length, Result, ok,
  throws, out_of_fuel, ◌>>=◌,
}
use legms.IndexTree.Tree.{IndexTree, empty, block}
use legms.IndexTree.Compact.{of_blocks}
use legms.IndexTree.Merge.{merge}
use legms.IndexTree.Shape.{rank}
use legms.IndexTree.Iterator.{IndexTreeIterator, iterator, is_valid, advance, deref}

-- for (i = rank; i > 0; --i) …, and the assertion after it; `coords` has its last element first.
unfoldable pub chain : ℕ → List ℕ → IndexTree → Result IndexTree
unfolding of_blocks
chain zero [] ch = ok ch
chain zero (back ∷ coords) ch = throws
chain (suc i) [] ch = of_blocks (block 0 1 ch empty) >>= chain i []
chain (suc i) (back ∷ coords) ch =
    let padded = of_blocks (block 0 1 ch empty) >>= chain i (back ∷ coords) in
    let taken = of_blocks (block back 1 ch empty) >>= chain i coords in
    if ltb (length (back ∷ coords)) (suc i) then padded else taken

-- while (it) { …; ++it; }, with fuel
unfoldable pub merge_chains : ℕ → ℕ → IndexTreeIterator → IndexTree → Result IndexTree
unfolding is_valid deref advance chain merge
merge_chains zero depth it result = out_of_fuel
merge_chains (suc f) depth it result =
    let rest : Result IndexTree = (elim (deref it) [
      | none ↦ throws
      | some coords ↦ chain depth (reverse coords) empty >>= λ ch.
          merge result ch >>= merge_chains f depth (advance it)
    ]) in
    if is_valid it then rest else ok result

-- The assertions on result.rank().
unfoldable pub check_rank : ℕ → IndexTree → Result IndexTree
unfolding rank
check_rank depth result = elim (rank result) [
  | none ↦ throws
  | some k ↦ if k == depth then ok result else throws
]

-- extend_index_ranks(tree, rank)
unfoldable pub extend_index_ranks : ℕ → IndexTree → ℕ → Result IndexTree
unfolding iterator merge_chains check_rank
extend_index_ranks f tree depth = merge_chains f depth (iterator tree) empty >>= check_rank depth
