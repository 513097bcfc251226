-- ===== src/MeasRef/Trees/One.antt =====
-- The trees of one reference, as `create` takes them.
use legms.Prelude.{
  ℕ, suc, ◌+◌, ◌≤◌, ◌≡◌, refl, ap, sym, ◌∙◌, subst, true, List, [], ◌∷◌, Option, none, some, arith,
  length, ok, if_true,
}
use legms.IndexTree.Tree.{IndexTree, empty}
use legms.IndexTree.Compact.Form.{IsCompact}
use legms.IndexTree.Compact.Indexes.{has_index, has_index-empty}
use legms.IndexTree.Iterator.Coverage.{list_eq}
use legms.MeasRef.Points.{zeros, list_eq_refl}
use legms.MeasRef.Measure.{MrBase}
use legms.MeasRef.Entries.{pred, entry, own_metadata, own_values, bare}
use legms.MeasRef.Initialize.States.{depth}
use legms.MeasRef.Instantiate.States.{is_some}
use legms.MeasRef.Trees.{MeasureIndexTrees, measure_index_trees}
use legms.MeasRef.Trees.Sets.{Indexes, Holding}
use legms.MeasRef.Trees.Children.{child}
use legms.MeasRef.Trees.Levels.{HasValues, entry-length}
use legms.MeasRef.Trees.Own.{own_values-laws}
use legms.MeasRef.Trees.Built.{metadata_at, values_at, measure_index_trees-entry}

-- A reference with `n` levels below its own one, of which each measure has a value.
pub record IsStored (n : ℕ) (r : MrBase) : Type 0 where
  pub levels : depth (bare r) ≡ suc n
  pub values : (c : ℕ) → HasValues (child (bare r) c)

-- The tree that `create` takes for the values of a reference.
abbrev pub or_empty : Option IndexTree → IndexTree
or_empty o = elim o [ none ↦ empty | some value ↦ value ]

-- The trees of one reference.
pub record StoredTrees (n : ℕ) (r : MrBase) : Type 0 where
  pub trees : MeasureIndexTrees
  pub md : IndexTree
  pub made : measure_index_trees r ≡ ok trees
  pub has_md : trees.metadata_tree ≡ some md
  pub md_compact : IsCompact md
  pub md_indexes : (q : List ℕ) → has_index md q ≡ metadata_at n (bare r) q
  pub values_compact : IsCompact (or_empty trees.value_tree)
  pub values_in :
      (q : List ℕ) → values_at n (bare r) q ≡ true → has_index (or_empty trees.value_tree) q ≡ true
  pub values_short :
      (q : List ℕ) → has_index (or_empty trees.value_tree) q ≡ true → length q ≤ suc (n + 1)

pub own_entry : (n : ℕ) (r : MrBase) → (q : List ℕ) × (metadata_at n (bare r) q ≡ true)
unfolding bare entry is_some own_metadata
own_entry n r =
    (0 ∷ zeros n, ap is_some (if_true (list_eq (zeros n) (zeros n)) _ _ (list_eq_refl (zeros n))))

tree_there :
    (o : Option IndexTree) (p : Indexes) (q : List ℕ)
    → Holding o p
    → p q ≡ true
    → (t : IndexTree) × (o ≡ some t) × Holding (some t) p
tree_there none p q h e = cc (h q)
tree_there (some t) p q h e = (t, refl, h)

or_empty-IsCompact : (o : Option IndexTree) (p : Indexes) → Holding o p → IsCompact (or_empty o)
or_empty-IsCompact none p h = tt
or_empty-IsCompact (some t) p h = h.0

or_empty_in :
    (o : Option IndexTree) (p : Indexes) (q : List ℕ)
    → Holding o p
    → p q ≡ true
    → has_index (or_empty o) q ≡ true
or_empty_in none p q h e = cc (h q)
or_empty_in (some t) p q h e = h.1 q ∙ e

or_empty_short :
    (o : Option IndexTree) (p : Indexes) (k : ℕ) (q : List ℕ)
    → Holding o p
    → ((q : List ℕ) → p q ≡ true → length q ≤ k)
    → has_index (or_empty o) q ≡ true
    → length q ≤ k
or_empty_short none p k [] h short e = omega arith
or_empty_short none p k (x ∷ q) h short e = cc (has_index-empty x q)
or_empty_short (some t) p k q h short e = short q (sym (h.1 q) ∙ e)

pub make-StoredTrees : (n : ℕ) (r : MrBase) → IsStored n r → StoredTrees n r
make-StoredTrees n r w =
    let (trees, made, in_md, in_vals) = measure_index_trees-entry r w.values in
    let levels : pred (depth (bare r)) ≡ n = ap pred w.levels in
    let in_md' : Holding trees.metadata_tree (metadata_at n (bare r)) =
      subst (λ i. Holding trees.metadata_tree (metadata_at i (bare r))) levels in_md in
    let in_vals' : Holding trees.value_tree (values_at n (bare r)) =
      subst (λ i. Holding trees.value_tree (values_at i (bare r))) levels in_vals in
    let (q, at) = own_entry n r in
    let (md, there, holding) =
      tree_there trees.metadata_tree (metadata_at n (bare r)) q in_md' at in
    record {
      trees = trees;
      md = md;
      made = made;
      has_md = there;
      md_compact = holding.0;
      md_indexes = holding.1;
      values_compact = or_empty-IsCompact trees.value_tree (values_at n (bare r)) in_vals';
      values_in = λ q e. or_empty_in trees.value_tree (values_at n (bare r)) q in_vals' e;
      values_short = λ q e.
          or_empty_short trees.value_tree (values_at n (bare r)) (suc (n + 1)) q in_vals'
            (λ q e. omega (
              arith,
              entry-length own_values 1 own_values-laws (bare r) n q (omega (arith, w.levels)) e,
            ))
            e;
    }
