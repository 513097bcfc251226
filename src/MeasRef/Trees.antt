-- ===== src/MeasRef/Trees.antt =====
-- hyperion/MeasRef.cc: `measure_index_trees`, the index trees of a measure or a reference, and the
-- trees of `MeasRef::create`.
pub mod Mixed
pub mod Sets
pub mod Holding
pub mod Children
pub mod Levels
pub mod Raw
pub mod Own
pub mod Combined
pub mod Built
pub mod One
pub mod Whole
pub mod Created
use legms.Prelude.{
  ℕ, zero, suc, ◌+◌, List, [], ◌∷◌, map, Option, none, some, length, Result, ok, throws,
  out_of_fuel, ◌>>=◌,
}
use legms.IndexTree.Tree.{IndexTree, empty, block}
use legms.IndexTree.Compact.{of_blocks, of_extent, of_counts}
use legms.IndexTree.Merge.{merge}
use legms.IndexTree.Shape.{rank, height}
use legms.IndexTree.Iterator.{iterator}
use legms.MeasRef.Measure.{Measure, null, measure, MrBase}
use legms.MeasRef.Extend.{extend_index_ranks}

pub record MeasureIndexTrees : Type 0 where
  pub metadata_tree : Option IndexTree
  pub value_tree : Option IndexTree

-- if (ctrees.metadata_tree) …, and the same for the values: `c` is the component.
unfoldable pub add_tree : ℕ → Option IndexTree → Option IndexTree → Result (Option IndexTree)
add_tree c none result = ok result
add_tree c (some ctree) none = of_blocks (block c 1 ctree empty) >>= λ md. ok (some md)
add_tree c (some ctree) (some result) =
    of_blocks (block c 1 ctree empty) >>= λ md. merge result md >>= λ merged. ok (some merged)

-- The body of the loop for a component; `none` is one that is not in `components`.
unfoldable pub add_component :
    ℕ → Result (Option MeasureIndexTrees) → MeasureIndexTrees → Result MeasureIndexTrees
add_component c throws result = throws
add_component c out_of_fuel result = out_of_fuel
add_component c (ok none) result = ok result
add_component c (ok (some ctrees)) result =
    add_tree c ctrees.metadata_tree result.metadata_tree >>= λ md.
    add_tree c ctrees.value_tree result.value_tree >>= λ value.
    ok (record { metadata_tree = md; value_tree = value })

-- if (tree && !tree.rank()) tree = extend_index_ranks(tree, tree.height() + 1), with fuel for each
-- index
unfoldable pub extend_tree : Option IndexTree → Result (Option IndexTree)
extend_tree none = ok none
extend_tree (some t) = elim (rank t) [
  | some k ↦ ok (some t)
  | none ↦
      extend_index_ranks (suc (length (iterator t).tree_coords)) t (height t + 1) >>= λ extended.
      ok (some extended)
]

-- From the trees of VALUE on. The order of an unordered_map is not specified; here the components
-- are taken in the order of their values.
unfoldable pub combine_trees :
    Option IndexTree
    → Result (Option MeasureIndexTrees)
    → Result (Option MeasureIndexTrees)
    → Result (Option MeasureIndexTrees)
    → Result (Option MeasureIndexTrees)
    → Result (Option MeasureIndexTrees)
    → Result MeasureIndexTrees
combine_trees value o e l d v =
    add_component 0 (ok (some (record { metadata_tree = some empty; value_tree = value })))
      (record { metadata_tree = none; value_tree = none })
    >>= add_component 1 o
    >>= add_component 2 e
    >>= add_component 3 l
    >>= add_component 4 d
    >>= add_component 5 v
    >>= λ result. extend_tree result.metadata_tree >>= λ md.
        extend_tree result.value_tree >>= λ values.
        ok (record { metadata_tree = md; value_tree = values })

-- measure_index_trees(m) of a measure; null is a component that is not there.
unfoldable pub measure_trees : Measure → Result (Option MeasureIndexTrees)
measure_trees null = ok none
measure_trees (measure vs k t o e l d v) = of_extent (length vs) >>= λ value.
    combine_trees (some value) (measure_trees o) (measure_trees e) (measure_trees l)
      (measure_trees d) (measure_trees v)
    >>= λ result. ok (some result)

-- measure_index_trees(mrb) of a reference, which has no value
unfoldable pub measure_index_trees : MrBase → Result MeasureIndexTrees
measure_index_trees r =
    combine_trees none (measure_trees r.offset) (measure_trees r.epoch) (measure_trees r.position)
      (measure_trees r.direction) (measure_trees r.radial_velocity)

unfoldable pub all_trees : List MrBase → Result (List MeasureIndexTrees)
unfolding measure_index_trees
all_trees [] = ok []
all_trees (r ∷ mrbs) = measure_index_trees r >>= λ t. all_trees mrbs >>= λ itrees. ok (t ∷ itrees)

-- md_v and val_v, of which the first takes optional::value()
unfoldable pub metadata_blocks : List MeasureIndexTrees → Result (List (ℕ × IndexTree))
metadata_blocks [] = ok []
metadata_blocks (t ∷ itrees) = elim t.metadata_tree [
  | none ↦ throws
  | some md ↦ metadata_blocks itrees >>= λ md_v. ok ((1, md) ∷ md_v)
]

unfoldable pub value_blocks : List MeasureIndexTrees → List (ℕ × IndexTree)
value_blocks [] = []
value_blocks (t ∷ itrees) =
    (1, elim t.value_tree [ none ↦ empty | some value ↦ value ]) ∷ value_blocks itrees

-- The trees of MeasRef::create, of which create_regions makes the index spaces; rank().value() throws
-- where there is no rank.
unfoldable pub create_trees : List MrBase → Result (IndexTree × IndexTree)
unfolding all_trees metadata_blocks value_blocks of_counts rank extend_index_ranks iterator
create_trees mrbs = all_trees mrbs >>= λ itrees. metadata_blocks itrees >>= λ md_v.
    of_counts md_v >>= λ metadata_tree. of_counts (value_blocks itrees) >>= λ value_tree.
    elim (rank metadata_tree) [
      | none ↦ throws
      | some k ↦
          extend_index_ranks (suc (length (iterator value_tree).tree_coords)) value_tree (k + 1)
          >>= λ extended. ok (metadata_tree, extended)
    ]
