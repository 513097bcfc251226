-- ===== src/IndexTree/Examples.antt =====
-- Runs of the operations on small trees, and the theorems at those trees.
use legms.Prelude.{
  ℕ, ◌^◌, ◌<◌, ◌≡◌, ◌≢◌, ◌↔◌, refl, ◌||◌, Bool, List, [], ◌∷◌, ◌++◌, map, some, ok, throws, ◌>>=◌,
  length, leb, ◌&&◌, arith, if◌then◌else◌,
}
use legms.IndexTree.Tree.{IndexTree, empty, block, eq, child_at, nodes}
use legms.IndexTree.Compact.{compact}
use legms.IndexTree.Compact.Form.{IsCompact, compact-IsCompact}
use legms.IndexTree.Compact.Meaning.{child_at-compact}
use legms.IndexTree.Compact.Indexes.{has_index, eq-iff-has_index}
use legms.IndexTree.Compact.Paths.{has_path}
use legms.IndexTree.Merge.{merge}
use legms.IndexTree.Merge.Union.{merge-Unites}
use legms.IndexTree.Merge.Laws.{merge_comm, merge_assoc}
use legms.IndexTree.Serial.{serialize, serialized_size, serdez_deserialize, sizeof_size_t}
use legms.IndexTree.Serial.RoundTrip.{FitsWords, serdez_deserialize-serialize}
use legms.IndexTree.Shape.{rank}
use legms.IndexTree.Grow.{grow_leaves, pruned}
use legms.IndexTree.Grow.Leaves.{joined, grow_leaves-joined}
use legms.IndexTree.Grow.Pruned.{pruned-has_path}
use legms.IndexTree.Pattern.{of_pattern}
use legms.IndexTree.Pattern.Repeats.{span, of_pattern-throws}
use legms.IndexTree.Iterator.{iterator, visit_all}
use legms.IndexTree.Iterator.Gather.{indexes, visit_all-iterator}
use legms.IndexTree.Iterator.Coverage.{occurrences, occurrences-tree_coords}

-- {(0~1,{0~2}),(4~4)}
abbrev rows : IndexTree
rows = block 0 2 (block 0 3 empty empty) (block 4 1 empty empty)

-- {(1~4,{2~3})}
abbrev more_rows : IndexTree
more_rows = block 1 4 (block 2 2 empty empty) empty

rows-IsCompact : IsCompact rows
unfolding eq
rows-IsCompact = ground arith

more_rows-IsCompact : IsCompact more_rows
unfolding eq
more_rows-IsCompact = ground arith

merged_rows :
    merge rows more_rows
    ≡ ok (
        block 0 1
          (block 0 3 empty empty)
          (block 1 1 (block 0 4 empty empty) (block 2 3 (block 2 2 empty empty) empty)))
unfolding merge nodes eq compact
merged_rows = refl

-- Blocks out of order, an empty one and two that join.
abbrev unsorted : IndexTree
unsorted = block 3 2 empty (block 7 0 empty (block 0 3 empty empty))

unsorted_compacted : compact unsorted ≡ ok (block 0 5 empty empty)
unfolding compact eq
unsorted_compacted = refl

overlapping_throws : compact (block 0 3 empty (block 2 1 empty empty)) ≡ throws
unfolding compact eq
overlapping_throws = refl

merge-Unites_example :
    (c : IndexTree) × (merge rows more_rows ≡ ok c)
    × IsCompact c
    × ((cs : List ℕ) → has_path c cs ≡ (has_path rows cs || has_path more_rows cs))
merge-Unites_example = merge-Unites rows more_rows rows-IsCompact more_rows-IsCompact

merge_comm_example : merge rows more_rows ≡ merge more_rows rows
merge_comm_example = merge_comm rows more_rows rows-IsCompact more_rows-IsCompact

merge_assoc_example :
    (merge rows more_rows >>= λ c. merge c rows) ≡ (merge more_rows rows >>= λ c. merge rows c)
merge_assoc_example =
    merge_assoc rows more_rows rows-IsCompact more_rows-IsCompact rows rows-IsCompact

eq-iff-has_index_example :
    (eq rows more_rows ≡ Bool.true) ↔ ((cs : List ℕ) → has_index rows cs ≡ has_index more_rows cs)
eq-iff-has_index_example = eq-iff-has_index rows more_rows rows-IsCompact more_rows-IsCompact

compact-IsCompact_example : IsCompact (block 0 5 empty empty)
compact-IsCompact_example =
    compact-IsCompact unsorted (block 0 5 empty empty) (omega arith) unsorted_compacted

child_at-compact_example : child_at (block 0 5 empty empty) 4 ≡ child_at unsorted 4
child_at-compact_example = child_at-compact unsorted (block 0 5 empty empty) 4 unsorted_compacted

rows-FitsWords : FitsWords rows
rows-FitsWords = omega arith

rows_size_fits : serialized_size rows < 256 ^ sizeof_size_t
unfolding serialized_size
rows_size_fits = omega arith

serdez_deserialize-serialize_example :
    serdez_deserialize (serialize rows ++ 1 ∷ 2 ∷ []) ≡ ok (rows, serialized_size rows)
serdez_deserialize-serialize_example =
    serdez_deserialize-serialize rows (1 ∷ 2 ∷ []) rows-IsCompact rows-FitsWords rows_size_fits

visit_all-iterator_example : visit_all 9 (iterator rows) ≡ map some (indexes rows)
visit_all-iterator_example = visit_all-iterator rows 9 (unfold indexes in omega arith)

indexes-rows :
    indexes rows
    ≡ (0 ∷ 0 ∷ [])
      ∷ (0 ∷ 1 ∷ [])
      ∷ (0 ∷ 2 ∷ [])
      ∷ (1 ∷ 0 ∷ [])
      ∷ (1 ∷ 1 ∷ [])
      ∷ (1 ∷ 2 ∷ [])
      ∷ (4 ∷ [])
      ∷ []
unfolding indexes
indexes-rows = refl

rows-ne-empty : rows ≢ empty
rows-ne-empty = cc

occurrences-tree_coords_example :
    occurrences (1 ∷ 2 ∷ []) (iterator rows).tree_coords
    ≡ (if has_index rows (1 ∷ 2 ∷ []) then 1 else 0)
occurrences-tree_coords_example =
    occurrences-tree_coords rows (1 ∷ 2 ∷ []) rows-IsCompact rows-ne-empty

grow_leaves-joined_example :
    (c : IndexTree) × (grow_leaves rows more_rows ≡ ok c)
    × IsCompact c
    × ((cs : List ℕ) → has_index c cs ≡ joined rows more_rows cs)
grow_leaves-joined_example =
    grow_leaves-joined rows more_rows rows-IsCompact more_rows-IsCompact rows-ne-empty

pruned-has_path_example :
    (c : IndexTree) × (pruned 0 rows ≡ ok c)
    × IsCompact c
    × ((cs : List ℕ) → has_path c cs ≡ (has_path rows cs && leb (length cs) 1))
pruned-has_path_example = pruned-has_path 0 rows rows-IsCompact

rows-path : has_path rows (1 ∷ 2 ∷ []) ≡ Bool.true
unfolding has_path child_at
rows-path = refl

more_rows-rank : rank more_rows ≡ some 2
unfolding rank
more_rows-rank = refl

more_rows-index : has_index more_rows (4 ∷ 3 ∷ []) ≡ Bool.true
unfolding has_index child_at
more_rows-index = refl

-- {(0~3, {0~4})}, repeated up to 7 indexes.
of_pattern-throws_example : of_pattern 6 (block 0 4 (span 5) empty) 7 ≡ throws
of_pattern-throws_example =
    of_pattern-throws 0 5 4 1 2 (omega arith) (omega arith) (omega arith) (omega arith)
      (omega arith)
