-- ===== src/MeasRef/Examples.antt =====
-- The theorems on measure references, at a direction whose frame has an epoch with an offset, and at
-- one without a frame.
use legms.Prelude.{
  ℕ, none, true, ◌≤◌, ◌≡◌, ◌↔◌, refl, ap, List, [], ◌∷◌, some, length, arith, ok, throws, ◌>>=◌,
  All,
}
use legms.MeasRef.Measure.{m_direction, m_epoch, m_none, Measure, null, measure, MrBase, is_class}
use legms.MeasRef.Regions.{Point, Metadata, Regions}
use legms.MeasRef.Entries.{own_metadata, own_values, or_else, entry, bare}
use legms.MeasRef.Initialize.{initialize}
use legms.MeasRef.Initialize.States.{depth, InSpace}
use legms.MeasRef.Initialize.References.{
  IsWritable, reference_entries, initialize-reference_entries,
}
use legms.MeasRef.Instantiate.{instantiate}
use legms.MeasRef.Instantiate.States.{is_some}
use legms.MeasRef.Instantiate.Restored.{IsRestorableRef}
use legms.IndexTree.Compact.{of_blocks, of_extent}
use legms.IndexTree.Merge.{merge}
use legms.MeasRef.Trees.{
  measure_index_trees, create_trees, all_trees, metadata_blocks, combine_trees, add_component,
  add_tree, measure_trees, extend_tree,
}
use legms.MeasRef.Trees.Mixed.{create_trees-throws}
use legms.MeasRef.Extend.{extend_index_ranks}
use legms.MeasRef.Extend.Padded.{pad}
use legms.MeasRef.Extend.Ranks.{extend_index_ranks-pad}
use legms.IndexTree.Compact.Form.{IsCompact}
use legms.IndexTree.Compact.Indexes.{has_index}
use legms.IndexTree.Shape.{rank, height}
use legms.IndexTree.Iterator.{iterator}
use legms.IndexTree.Tree.{IndexTree, empty, block, eq, nodes, child_at}
use legms.MeasRef.RoundTrip.{instantiate-initialize}

abbrev epoch_offset : Measure
epoch_offset = measure (7 ∷ 8 ∷ []) m_epoch 2 null null null null null

abbrev frame_epoch : Measure
frame_epoch = measure (5 ∷ []) m_epoch 1 epoch_offset null null null null

abbrev apparent : MrBase
apparent = record {
  measure_class = m_direction;
  ref_type = 3;
  offset = null;
  epoch = frame_epoch;
  position = null;
  direction = null;
  radial_velocity = null;
}

abbrev j2000 : MrBase
j2000 = record {
  measure_class = m_direction;
  ref_type = 0;
  offset = null;
  epoch = null;
  position = null;
  direction = null;
  radial_velocity = null;
}

abbrev pair : List MrBase
pair = apparent ∷ j2000 ∷ []

abbrev unset : Metadata
unset = record { measure_class = m_none; ref_type = 0; num_values = 0 }

-- Points have four coordinates in the metadata and five in the values.
blank_regions : Regions
blank_regions = record {
  metadata_space = λ q. is_some (reference_entries own_metadata 2 0 pair q);
  values_space = λ q. is_some (reference_entries own_values 2 0 pair q);
  metadata = λ q. unset;
  values = λ q. 0;
}

-- VALUE of the offset of the epoch, which stands under EPOCH and OFFSET
offset_entry :
    reference_entries own_metadata 2 0 pair (0 ∷ 2 ∷ 1 ∷ 0 ∷ [])
    ≡ some (record { measure_class = m_epoch; ref_type = 2; num_values = 2 })
unfolding reference_entries entry own_metadata
offset_entry = refl

pair_built :
    (initialize 20 4 pair m_direction blank_regions >>= λ rs. instantiate (λ k vs. vs) 20 4 rs 1)
    ≡ ok pair
unfolding initialize instantiate blank_regions reference_entries entry own_metadata own_values
    is_some
pair_built = refl

pair-IsWritable : All (IsWritable 2 m_direction) pair
unfolding depth bare is_class
pair-IsWritable = (
  record {
    of_class = refl;
    offset_classes = tt;
    epoch_classes = (refl, (refl, tt, tt, tt, tt, tt), tt, tt, tt, tt);
    position_classes = tt;
    direction_classes = tt;
    radial_velocity_classes = tt;
    levels = omega arith;
  },
  (
    record {
      of_class = refl;
      offset_classes = tt;
      epoch_classes = tt;
      position_classes = tt;
      direction_classes = tt;
      radial_velocity_classes = tt;
      levels = omega arith;
    },
    tt,
  ),
)

pair-IsRestorableRef : All (IsRestorableRef (λ k vs. vs)) pair
unfolding is_class
pair-IsRestorableRef = (
  record {
    known = refl;
    offset_of = tt;
    offset = tt;
    epoch = (
      omega arith,
      refl,
      refl,
      refl,
      (omega arith, refl, refl, tt, tt, tt, tt, tt, tt),
      tt,
      tt,
      tt,
      tt,
    );
    position = tt;
    direction = tt;
    radial_velocity = tt;
  },
  (
    record {
      known = refl;
      offset_of = tt;
      offset = tt;
      epoch = tt;
      position = tt;
      direction = tt;
      radial_velocity = tt;
    },
    tt,
  ),
)

metadata_in : InSpace blank_regions.metadata_space [] (reference_entries own_metadata 2 0 pair)
unfolding is_some blank_regions
metadata_in q a e = ap is_some e

values_in : InSpace blank_regions.values_space [] (reference_entries own_values 2 0 pair)
unfolding is_some blank_regions
values_in q a e = ap is_some e

metadata_points :
    (q : Point)
    → length q ≡ 4
    → blank_regions.metadata_space q ≡ is_some (reference_entries own_metadata 2 0 pair q)
unfolding blank_regions
metadata_points q h = refl

initialize-reference_entries_example :
    (enough : ℕ) × ((f : ℕ)
      → enough ≤ f
      → initialize f 4 pair m_direction blank_regions
        ≡ ok (record blank_regions {
          metadata =
              λ q. or_else (reference_entries own_metadata 2 0 pair q) (blank_regions.metadata q);
          values = λ q. or_else (reference_entries own_values 2 0 pair q) (blank_regions.values q);
        }))
initialize-reference_entries_example =
    initialize-reference_entries 2 pair m_direction blank_regions pair-IsWritable metadata_in
      values_in

instantiate-initialize_example :
    (enough : ℕ) × ((f : ℕ)
      → enough ≤ f
      → (initialize f 4 pair m_direction blank_regions >>= λ rs. instantiate (λ k vs. vs) f 4 rs 1)
        ≡ ok pair)
instantiate-initialize_example =
    instantiate-initialize (λ k vs. vs) 2 apparent (j2000 ∷ []) m_direction blank_regions
      pair-IsWritable pair-IsRestorableRef metadata_points metadata_in values_in

-- The tree of a direction whose frame has an epoch with an offset: VALUE, and under EPOCH its VALUE
-- and OFFSET, padded to three coordinates
apparent_trees :
    measure_index_trees apparent
    ≡ ok (record {
      metadata_tree = some (
          block 0 1
            (block 0 1 (block 0 1 empty empty) empty)
            (block 2 1 (block 0 2 (block 0 1 empty empty) empty) empty));
      value_tree = some (
          block 2 1
            (block 0 1
              (block 0 1 (block 0 1 empty empty) empty)
              (block 1 1 (block 0 1 (block 0 2 empty empty) empty) empty))
            empty);
    })
unfolding measure_index_trees eq nodes combine_trees add_component add_tree of_blocks measure_trees
    of_extent extend_tree rank merge extend_index_ranks height
apparent_trees = refl

mixed_trees : create_trees pair ≡ throws
unfolding create_trees eq nodes combine_trees add_component add_tree measure_trees of_extent
    extend_tree height
mixed_trees = refl

abbrev frame_only : MrBase
frame_only = record {
  measure_class = m_direction;
  ref_type = 3;
  offset = null;
  epoch = epoch_offset;
  position = null;
  direction = null;
  radial_velocity = null;
}

-- A direction without a frame has one level, one with a frame has more.
create_trees-throws_example : create_trees (j2000 ∷ frame_only ∷ []) ≡ throws
unfolding all_trees metadata_blocks has_index child_at eq nodes combine_trees add_component add_tree
    of_blocks measure_trees extend_tree rank of_extent merge extend_index_ranks height
create_trees-throws_example =
    create_trees-throws (j2000 ∷ frame_only ∷ [])
      (record { metadata_tree = some (block 0 1 empty empty); value_tree = none }
        ∷ record {
          metadata_tree =
              some (block 0 1 (block 0 1 empty empty) (block 2 1 (block 0 1 empty empty) empty));
          value_tree = some (block 2 1 (block 0 1 (block 0 2 empty empty) empty) empty);
        }
        ∷ [])
      ((1, block 0 1 empty empty)
        ∷ (1, block 0 1 (block 0 1 empty empty) (block 2 1 (block 0 1 empty empty) empty))
        ∷ [])
      0 1 1 1 (block 0 1 empty empty)
      (block 0 1 (block 0 1 empty empty) (block 2 1 (block 0 1 empty empty) empty)) (0 ∷ [])
      (2 ∷ 0 ∷ []) refl refl refl refl refl refl (λ e. omega arith)

abbrev mixed_lengths : IndexTree
mixed_lengths = block 0 1 empty (block 2 1 (block 0 2 empty empty) empty)

mixed_lengths-IsCompact : IsCompact mixed_lengths
unfolding eq
mixed_lengths-IsCompact = ground arith

mixed_lengths_short : (cs : List ℕ) → has_index mixed_lengths cs ≡ true → length cs ≤ 3
unfolding has_index child_at
mixed_lengths_short [] h = omega arith
mixed_lengths_short (x ∷ []) h = omega arith
mixed_lengths_short (x ∷ y ∷ []) h = omega arith
mixed_lengths_short (x ∷ y ∷ z ∷ []) h = omega arith
mixed_lengths_short (x ∷ y ∷ z ∷ w ∷ cs) h = ground arith

extend_index_ranks-pad_example :
    (r : IndexTree) × (extend_index_ranks 9 mixed_lengths 3 ≡ ok r)
    × IsCompact r
    × (rank r ≡ some 3)
    × ((cs : List ℕ)
        → (has_index r cs ≡ true)
          ↔ ((v : List ℕ) × (has_index mixed_lengths v ≡ true) × (cs ≡ pad 3 v)))
unfolding iterator
extend_index_ranks-pad_example =
    extend_index_ranks-pad 9 3 mixed_lengths mixed_lengths-IsCompact (λ e. cc) mixed_lengths_short
      (omega arith)
