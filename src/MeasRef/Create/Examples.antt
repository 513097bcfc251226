-- ===== src/MeasRef/Create/Examples.antt =====
-- The theorems on stored references, at two directions with offsets and at one of them alone.
use legms.Prelude.{
  ℕ, zero, suc, ◌≤◌, ◌≡◌, refl, true, false, List, [], ◌∷◌, map, some, arith, ok, ◌>>=◌,
}
use legms.IndexTree.Tree.{eq, nodes}
use legms.MeasRef.Measure.{m_direction, m_none, null, measure, MrBase, is_class}
use legms.MeasRef.Entries.{pred, entry, bare, own_metadata, own_values}
use legms.MeasRef.Initialize.States.{depth}
use legms.MeasRef.Instantiate.States.{is_some}
use legms.MeasRef.Initialize.{initialize}
use legms.MeasRef.Instantiate.{instantiate}
use legms.IndexTree.Tree.{child_at}
use legms.IndexTree.Compact.{of_extent}
use legms.IndexTree.Compact.Indexes.{has_index}
use legms.IndexTree.Shape.{height, index_range}
use legms.MeasRef.Trees.{
  MeasureIndexTrees, measure_index_trees, create_trees, combine_trees, add_component, add_tree,
  measure_trees, extend_tree,
}
use legms.MeasRef.Trees.Sets.{Holding}
use legms.MeasRef.Trees.Children.{child}
use legms.MeasRef.Trees.Levels.{HasValues}
use legms.MeasRef.Trees.Built.{measure_index_trees-entry}
use legms.MeasRef.Create.{
  Contents, create, make, clone, create_regions, has_case, write_index, write_codes, write_code,
  read_index, read_codes, assign_code,
}
use legms.MeasRef.Create.Codes.{codes_map}
use legms.MeasRef.Create.Made.{IsKept, make-create}
use legms.MeasRef.Create.Cloned.{make-clone}

abbrev with_offset : List ℕ → MrBase
with_offset vs = record {
  measure_class = m_direction;
  ref_type = 3;
  offset = measure vs m_direction 2 null null null null null;
  epoch = null;
  position = null;
  direction = null;
  radial_velocity = null;
}

abbrev coded : List (MrBase × ℕ)
coded = (with_offset (7 ∷ []), 5) ∷ (with_offset (8 ∷ 9 ∷ []), 6) ∷ []

abbrev unwritten : Contents
unwritten = record {
  metadata = λ q. record { measure_class = m_none; ref_type = 4; num_values = 4 };
  values = λ q. 4;
  codes = λ i. 4;
}

with_offset-IsKept :
    (v : ℕ) (vs : List ℕ) → IsKept (λ k vs. vs) 1 m_direction (with_offset (v ∷ vs))
unfolding depth bare is_class
with_offset-IsKept v vs = record {
  writable = record {
    of_class = refl;
    offset_classes = (refl, tt, tt, tt, tt, tt);
    epoch_classes = tt;
    position_classes = tt;
    direction_classes = tt;
    radial_velocity_classes = tt;
    levels = omega arith;
  };
  restorable = record {
    known = refl;
    offset_of = refl;
    offset = (omega arith, refl, refl, tt, tt, tt, tt, tt, tt);
    epoch = tt;
    position = tt;
    direction = tt;
    radial_velocity = tt;
  };
  levels = refl;
}

-- The second code stands at the second place, also after a clone that takes the types for codes.
code_of_second : codes_map false (5 ∷ 6 ∷ []) 6 ≡ some 1
unfolding codes_map
code_of_second = refl

make-create_example :
    (enough : ℕ) × ((f : ℕ)
      → enough ≤ f
      → (create f 9 unwritten coded m_direction false >>= make (λ k vs. vs) f 9)
        ≡ ok (map (λ m. m.0) coded, codes_map false (5 ∷ 6 ∷ [])))
make-create_example =
    make-create (λ k vs. vs) 1 9 (with_offset (7 ∷ []), 5) ((with_offset (8 ∷ 9 ∷ []), 6) ∷ [])
      m_direction false unwritten (omega arith)
      (with_offset-IsKept 7 [], (with_offset-IsKept 8 (9 ∷ []), tt))

-- One reference without an index: its clone has one.
make-clone_example :
    (enough : ℕ) × ((f : ℕ)
      → enough ≤ f
      → (create f 9 unwritten ((with_offset (7 ∷ []), 0) ∷ []) m_direction true >>= λ s.
          clone (λ k vs. vs) f 9 unwritten s >>= make (λ k vs. vs) f 9)
        ≡ ok (with_offset (7 ∷ []) ∷ [], codes_map false (3 ∷ [])))
make-clone_example =
    make-clone (λ k vs. vs) 1 9 (with_offset (7 ∷ []), 0) [] m_direction true unwritten unwritten
      (omega arith) (with_offset-IsKept 7 [], tt)

offset-HasValues : (c : ℕ) → HasValues (child (bare (with_offset (7 ∷ []))) c)
unfolding child bare
offset-HasValues zero = tt
offset-HasValues (suc zero) = (omega arith, tt, tt, tt, tt, tt)
offset-HasValues (suc (suc zero)) = tt
offset-HasValues (suc (suc (suc zero))) = tt
offset-HasValues (suc (suc (suc (suc zero)))) = tt
offset-HasValues (suc (suc (suc (suc (suc zero))))) = tt
offset-HasValues (suc (suc (suc (suc (suc (suc c)))))) = tt

measure_index_trees-entry_example :
    (trees : MeasureIndexTrees) × (measure_index_trees (with_offset (7 ∷ [])) ≡ ok trees)
    × Holding trees.metadata_tree (λ q. is_some (
        entry own_metadata
          (pred (depth (bare (with_offset (7 ∷ [])))))
          (bare (with_offset (7 ∷ [])))
          q))
    × Holding trees.value_tree (λ q. is_some (
        entry own_values
          (pred (depth (bare (with_offset (7 ∷ [])))))
          (bare (with_offset (7 ∷ [])))
          q))
measure_index_trees-entry_example =
    measure_index_trees-entry (with_offset (7 ∷ [])) offset-HasValues

coded_run :
    (create 40 9 unwritten coded m_direction false >>= make (λ k vs. vs) 40 9 >>= λ (mrbs, rmap).
    ok (rmap 6))
    ≡ ok (some 1)
unfolding create make create_trees combine_trees add_component add_tree measure_trees of_extent
    extend_tree eq nodes height create_regions has_case initialize has_index child_at write_index
    write_codes write_code read_index read_codes assign_code instantiate index_range
coded_run = refl
