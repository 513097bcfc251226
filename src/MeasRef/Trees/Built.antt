-- ===== src/MeasRef/Trees/Built.antt =====
-- What `measure_index_trees` returns.
use mathlib.Core.Path.{fun_ext}
use legms.Prelude.{
  ◌≤◌, lt→ltb, le→ltb, ℕ, zero, suc, ◌+◌, ◌<◌, ◌≡◌, ◌≢◌, refl, ap, sym, ◌∙◌, subst, false, List, [],
  ◌∷◌, ltb, Option, none, some, arith, length, get_elem?, ok, Bool-cases, inl, inr, if_true,
  if_false,
}
use legms.IndexTree.Tree.{IndexTree, empty, block}
use legms.IndexTree.Compact.{of_extent}
use legms.IndexTree.Compact.Form.{compact_id}
use legms.IndexTree.Compact.Indexes.{
  has_index, has_index-block, has_index-block_nil, has_index-empty,
}
use legms.MeasRef.Measure.{MClass, Measure, null, measure, MrBase}
use legms.MeasRef.Entries.{Partial, pred, entry, own_metadata, own_values, bare}
use legms.MeasRef.Initialize.States.{depth}
use legms.MeasRef.Instantiate.States.{is_some}
use legms.MeasRef.Trees.{MeasureIndexTrees, measure_trees, measure_index_trees, combine_trees}
use legms.MeasRef.Trees.Sets.{Indexes, Holding, has_index-empty_nil, Pads, Longest}
use legms.MeasRef.Trees.Children.{child, OwnLaws}
use legms.MeasRef.Trees.Raw.{slots, raw, raw-Pads, raw-Longest}
use legms.MeasRef.Trees.Levels.{HasValues, HasValues-child}
use legms.MeasRef.Trees.Own.{own_metadata-laws, own_values-laws}
use legms.MeasRef.Trees.Combined.{upto, HoldingBoth, combine_trees-Holding}

-- The indexes of the entries of a measure, at the levels that it has.
abbrev pub metadata_at : ℕ → Measure → Indexes
metadata_at n m q = is_some (entry own_metadata n m q)

abbrev pub values_at : ℕ → Measure → Indexes
values_at n m q = is_some (entry own_values n m q)

metadata_slots : Measure → ℕ → Indexes
metadata_slots m = slots own_metadata 0 own_metadata-laws m

values_slots : Measure → ℕ → Indexes
values_slots m = slots own_values 1 own_values-laws m

child_beyond : (m : Measure) (c : ℕ) → 6 ≤ c → child m c ≡ null
unfolding child
child_beyond null c h = refl
child_beyond (measure vs k t o e l d v) zero h = absurd (omega arith)
child_beyond (measure vs k t o e l d v) (suc zero) h = absurd (omega arith)
child_beyond (measure vs k t o e l d v) (suc (suc zero)) h = absurd (omega arith)
child_beyond (measure vs k t o e l d v) (suc (suc (suc zero))) h = absurd (omega arith)
child_beyond (measure vs k t o e l d v) (suc (suc (suc (suc zero)))) h = absurd (omega arith)
child_beyond (measure vs k t o e l d v) (suc (suc (suc (suc (suc zero))))) h = absurd (omega arith)
child_beyond (measure vs k t o e l d v) (suc (suc (suc (suc (suc (suc c)))))) h = refl

module _ {A : Type 0} (own : ℕ → List ℕ → MClass → ℕ → Partial A) (extra : ℕ)
    (laws : OwnLaws own extra) where
  null_at : (n : ℕ) (q : List ℕ) → is_some (entry own n null q) ≡ false
  unfolding entry is_some
  null_at n q = refl

  slots_beyond : (m : Measure) (x : ℕ) (q : List ℕ) → 6 ≤ x → slots own extra laws m x q ≡ false
  unfolding slots
  slots_beyond m zero q h = absurd (omega arith)
  slots_beyond m (suc c) q h =
      ap (λ n. is_some (entry own (pred (depth n)) n q)) (child_beyond m (suc c) h)
      ∙ null_at (pred (depth null)) q

  upto-raw :
      (m : Measure) (cs : List ℕ) → upto 6 (slots own extra laws m) cs ≡ raw own extra laws m cs
  unfolding upto raw
  upto-raw m [] = refl
  upto-raw m (x ∷ q) = elim (Bool-cases (ltb x 6)) [
    | inl e ↦ if_true (ltb x 6) (slots own extra laws m x q) false e
    | inr e ↦
        if_false (ltb x 6) (slots own extra laws m x q) false e
        ∙ sym (slots_beyond m x q (ground arith))
  ]

  upto-Pads :
      (m : Measure) (n : ℕ)
      → m ≢ null
      → depth m ≡ suc n
      → Pads (suc (n + extra)) (upto 6 (slots own extra laws m)) (λ q. is_some (entry own n m q))
  upto-Pads m n ne h =
      subst (λ p. Pads (suc (n + extra)) p (λ q. is_some (entry own n m q)))
        (sym (fun_ext (upto-raw m))) (raw-Pads own extra laws m n ne h)

  upto-Longest :
      (m : Measure) (n : ℕ)
      → m ≢ null
      → depth m ≡ suc n
      → ((c : ℕ) → HasValues (child m c))
      → Longest (suc (n + extra)) (upto 6 (slots own extra laws m))
  upto-Longest m n ne h values =
      subst (Longest (suc (n + extra))) (sym (fun_ext (upto-raw m)))
        (raw-Longest own extra laws m n ne h values)

-- What the call for a component returns.
abbrev BuiltFor : Measure → Option MeasureIndexTrees → Type 0
BuiltFor m = HoldingBoth (metadata_at (pred (depth m)) m) (values_at (pred (depth m)) m)

-- IndexTree(), the tree of the metadata of VALUE
root_Holding :
    (vs : List ℕ) (k : MClass) (t : ℕ) (o e l d v : Measure)
    → Holding (some empty) (metadata_slots (measure vs k t o e l d v) 0)
unfolding metadata_slots slots entry own_metadata is_some
root_Holding vs k t o e l d v = (tt, at)
  where
    at : (cs : List ℕ) → has_index empty cs ≡ metadata_slots (measure vs k t o e l d v) 0 cs
    at [] = has_index-empty_nil
    at (x ∷ q) = has_index-empty x q

some-get_elem : (vs : List ℕ) (i : ℕ) → is_some (get_elem? vs i) ≡ ltb i (length vs)
unfolding is_some
some-get_elem [] i = sym (le→ltb i 0 (omega arith))
some-get_elem (v ∷ vs) zero = sym (lt→ltb 0 (suc (length vs)) (omega arith))
some-get_elem (v ∷ vs) (suc i) = some-get_elem vs i ∙ ltb_suc i (length vs)
  where
    ltb_suc : (i n : ℕ) → ltb i n ≡ ltb (suc i) (suc n)
    ltb_suc i n = ground arith

-- IndexTree(n), the tree of n values
values_Holding :
    (vs : List ℕ) (k : MClass) (t : ℕ) (o e l d v : Measure)
    → 0 < length vs
    → Holding (some (block 0 (length vs) empty empty)) (values_slots (measure vs k t o e l d v) 0)
unfolding values_slots slots entry own_values is_some
values_Holding vs k t o e l d v h = ((h, tt, tt, tt), at)
  where
    at :
        (cs : List ℕ)
        → has_index (block 0 (length vs) empty empty) cs
          ≡ values_slots (measure vs k t o e l d v) 0 cs
    at [] = has_index-block_nil 0 (length vs) empty empty
    at (i ∷ []) =
        has_index-block 0 (length vs) empty empty i []
        ∙ ground (arith, some-get_elem vs i, has_index-empty i [], has_index-empty_nil)
    at (i ∷ x ∷ q) =
        has_index-block 0 (length vs) empty empty i (x ∷ q)
        ∙ ground (arith, has_index-empty x q, has_index-empty i (x ∷ q))

no_values_Holding :
    (k : MClass) (t : ℕ) (o e l d v : Measure)
    → Holding none (values_slots (measure [] k t o e l d v) 0)
unfolding values_slots slots entry own_values is_some
no_values_Holding k t o e l d v [] = refl
no_values_Holding k t o e l d v (i ∷ q) = ground arith

of_extent_some : (n : ℕ) → 0 < n → of_extent n ≡ ok (block 0 n empty empty)
unfolding of_extent
of_extent_some n h = compact_id (block 0 n empty empty) (h, tt, tt, tt)

-- The trees from those of the components, where `value` is the tree of the values of the measure.
combine_trees-BuiltFor :
    (vs : List ℕ) (k : MClass) (t : ℕ) (o e l d v : Measure) (value : Option IndexTree)
    (o' e' l' d' v' : Option MeasureIndexTrees)
    → ((c : ℕ) → HasValues (child (measure vs k t o e l d v) c))
    → Holding value (values_slots (measure vs k t o e l d v) 0)
    → BuiltFor o o'
    → BuiltFor e e'
    → BuiltFor l l'
    → BuiltFor d d'
    → BuiltFor v v'
    → (trees : MeasureIndexTrees) × (combine_trees value (ok o') (ok e') (ok l') (ok d') (ok v')
        ≡ ok trees)
      × BuiltFor (measure vs k t o e l d v) (some trees)
unfolding slots child metadata_slots values_slots
combine_trees-BuiltFor vs k t o e l d v value o' e' l' d' v' values at_value bo be bl bd bv =
    let m : Measure = measure vs k t o e l d v in
    let ne : m ≢ null = λ e. cc in
    let level : depth m ≡ suc (pred (depth m)) = unfold depth in refl in
    combine_trees-Holding (metadata_slots m) (values_slots m) value o' e' l' d' v'
      (pred (depth m) + 0) (pred (depth m) + 1) (metadata_at (pred (depth m)) m)
      (values_at (pred (depth m)) m)
      (record { in_metadata = root_Holding vs k t o e l d v; in_values = at_value })
      (record { in_metadata = bo.in_metadata; in_values = bo.in_values })
      (record { in_metadata = be.in_metadata; in_values = be.in_values })
      (record { in_metadata = bl.in_metadata; in_values = bl.in_values })
      (record { in_metadata = bd.in_metadata; in_values = bd.in_values })
      (record { in_metadata = bv.in_metadata; in_values = bv.in_values })
      (upto-Longest own_metadata 0 own_metadata-laws m (pred (depth m)) ne level values)
      (upto-Longest own_values 1 own_values-laws m (pred (depth m)) ne level values)
      (upto-Pads own_metadata 0 own_metadata-laws m (pred (depth m)) ne level)
      (upto-Pads own_values 1 own_values-laws m (pred (depth m)) ne level)

measure_trees-BuiltFor :
    (m : Measure)
    → HasValues m
    → (trees : Option MeasureIndexTrees) × (measure_trees m ≡ ok trees) × BuiltFor m trees
unfolding measure_trees
measure_trees-BuiltFor null h = (
  none,
  refl,
  record {
    in_metadata = null_at own_metadata 0 own_metadata-laws (pred (depth null));
    in_values = null_at own_values 1 own_values-laws (pred (depth null));
  },
)
measure_trees-BuiltFor (measure vs k t o e l d v) h =
    let (o', eo, bo) = measure_trees-BuiltFor o h.1 in
    let (e', ee, be) = measure_trees-BuiltFor e h.2 in
    let (l', el, bl) = measure_trees-BuiltFor l h.3 in
    let (d', ed, bd) = measure_trees-BuiltFor d h.4 in
    let (v', ev, bv) = measure_trees-BuiltFor v h.5 in
    let (trees, made, built) =
      combine_trees-BuiltFor vs k t o e l d v (some (block 0 (length vs) empty empty)) o' e' l' d'
        v' (λ c. HasValues-child (measure vs k t o e l d v) c h)
        (values_Holding vs k t o e l d v h.0) bo be bl bd bv in
    (some trees, rw (of_extent_some (length vs) h.0, eo, ee, el, ed, ev, made) refl, built)

-- For a reference on which each measure that it depends on has a value, `measure_index_trees` returns
-- compact trees: the indexes of the metadata tree are the points of the metadata of the reference,
-- at the number of levels that it has, and those of the value tree, if there is one, the points of
-- the values; there is no value tree only if there are no values.
pub measure_index_trees-entry :
    (r : MrBase)
    → ((c : ℕ) → HasValues (child (bare r) c))
    → (trees : MeasureIndexTrees) × (measure_index_trees r ≡ ok trees)
      × Holding trees.metadata_tree
          (λ q. is_some (entry own_metadata (pred (depth (bare r))) (bare r) q))
      × Holding trees.value_tree
          (λ q. is_some (entry own_values (pred (depth (bare r))) (bare r) q))
unfolding measure_index_trees bare child
measure_index_trees-entry r values =
    let (o', eo, bo) = measure_trees-BuiltFor r.offset (values 1) in
    let (e', ee, be) = measure_trees-BuiltFor r.epoch (values 2) in
    let (l', el, bl) = measure_trees-BuiltFor r.position (values 3) in
    let (d', ed, bd) = measure_trees-BuiltFor r.direction (values 4) in
    let (v', ev, bv) = measure_trees-BuiltFor r.radial_velocity (values 5) in
    let (trees, made, built) =
      combine_trees-BuiltFor [] r.measure_class r.ref_type r.offset r.epoch r.position r.direction
        r.radial_velocity none o' e' l' d' v' values
        (no_values_Holding r.measure_class r.ref_type r.offset r.epoch r.position r.direction
          r.radial_velocity)
        bo be bl bd bv in
    (trees, rw (eo, ee, el, ed, ev) made, built.in_metadata, built.in_values)
