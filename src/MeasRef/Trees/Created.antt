-- ===== src/MeasRef/Trees/Created.antt =====
-- The trees that `MeasRef::create` makes.
use legms.Prelude.{
  ℕ, suc, ◌+◌, ◌≤◌, ◌≡◌, ◌≢◌, refl, ap, sym, ◌∙◌, true, false, List, [], ◌∷◌, none, some, arith,
  length, Result, ok, throws, ◌>>=◌, inl, inr, All,
}
use legms.IndexTree.Tree.{IndexTree, empty, block, child_at, covers}
use legms.IndexTree.Compact.{place_blocks, of_counts}
use legms.IndexTree.Compact.Form.{IsCompact, HasCompactChildren, compact-IsCompact, compact_total}
use legms.IndexTree.Compact.Canonical.{child_at-empty}
use legms.IndexTree.Compact.Meaning.{child_at-compact}
use legms.IndexTree.Compact.Indexes.{
  has_index, has_index-child_at, has_index-empty, has_index-block_nil,
}
use legms.IndexTree.Shape.{rank}
use legms.IndexTree.Shape.Uniform.{AllOfLength-rank}
use legms.IndexTree.Iterator.{iterator}
use legms.MeasRef.Measure.{MClass, MrBase}
use legms.MeasRef.Entries.{Partial, own_metadata, own_values, bare}
use legms.MeasRef.Initialize.States.{InSpace}
use legms.MeasRef.Initialize.References.{
  reference_entries, reference_entries_nil, reference_entries_head,
}
use legms.MeasRef.Instantiate.States.{is_some}
use legms.MeasRef.Extend.{extend_index_ranks}
use legms.MeasRef.Extend.Ranks.{extend_index_ranks-pad}
use legms.MeasRef.Trees.{value_blocks, create_trees}
use legms.MeasRef.Trees.Mixed.{place_blocks-IsOrdered}
use legms.MeasRef.Trees.Sets.{pad_full}
use legms.MeasRef.Trees.Children.{OwnLaws}
use legms.MeasRef.Trees.Levels.{entry-length}
use legms.MeasRef.Trees.Own.{own_metadata-laws, own_values-laws}
use legms.MeasRef.Trees.One.{IsStored, own_entry}
use legms.MeasRef.Trees.Whole.{StoredBlocks, make-StoredBlocks, reference_entries_at, if_split}

nil_none :
    {A : Type 0} (own : ℕ → List ℕ → MClass → ℕ → Partial A) (n lo : ℕ) (mrbs : List MrBase)
    → is_some (reference_entries own n lo mrbs []) ≡ false
unfolding is_some
nil_none own n lo mrbs = ap is_some (reference_entries_nil own n lo mrbs)

-- The points of the entries have one coordinate for the reference, and those of its levels.
reference_entries-length :
    {A : Type 0} (own : ℕ → List ℕ → MClass → ℕ → Partial A) (extra : ℕ)
    → OwnLaws own extra
    → (n lo : ℕ) (mrbs : List MrBase) → All (IsStored n) mrbs
    → (q : List ℕ) → is_some (reference_entries own n lo mrbs q) ≡ true
    → length q ≡ suc (suc (n + extra))
reference_entries-length own extra laws n lo [] ws q e =
    absurd (unfold reference_entries is_some in cc)
reference_entries-length own extra laws n lo (r ∷ mrbs) ws [] e = cc (nil_none own n lo (r ∷ mrbs))
reference_entries-length own extra laws n lo (r ∷ mrbs) ws (x ∷ q) e =
    if_split (covers lo 1 x)
      (λ k. ap suc (entry-length own extra laws (bare r) n q (omega (arith, ws.0.levels)) k))
      (λ k. reference_entries-length own extra laws n (lo + 1) mrbs ws.1 (x ∷ q) k)
      (sym (reference_entries_at own n lo r mrbs x q) ∙ e)

-- The tree of the blocks has their indexes.
record CountsTree (ch : List (ℕ × IndexTree)) : Type 0 where
  tree : IndexTree
  made : of_counts ch ≡ ok tree
  is_compact : IsCompact tree
  indexes : (x : ℕ) (q : List ℕ) → has_index tree (x ∷ q) ≡ has_index (place_blocks 0 ch) (x ∷ q)
  child : (x : ℕ) → child_at tree x ≡ child_at (place_blocks 0 ch) x

make-CountsTree :
    (ch : List (ℕ × IndexTree)) → HasCompactChildren (place_blocks 0 ch) → CountsTree ch
unfolding of_counts
make-CountsTree ch ws =
    let (c, made) = compact_total 0 (place_blocks 0 ch) (place_blocks-IsOrdered 0 ch) in
    record {
      tree = c;
      made = made;
      is_compact = compact-IsCompact (place_blocks 0 ch) c ws made;
      indexes = λ x q.
          has_index-child_at c (place_blocks 0 ch) x q
            (child_at-compact (place_blocks 0 ch) c x made);
      child = λ x. child_at-compact (place_blocks 0 ch) c x made;
    }

index_nil :
    (t : IndexTree) (x : ℕ) (q : List ℕ) → has_index t (x ∷ q) ≡ true → has_index t [] ≡ false
index_nil empty x q e = cc (has_index-empty x q)
index_nil (block i n t r) x q e = has_index-block_nil i n t r

create_trees_lem :
    (mrbs : List MrBase) (n k : ℕ) (blocks : StoredBlocks n 0 mrbs) (md vals extended : IndexTree)
    → of_counts blocks.md_v ≡ ok md
    → of_counts (value_blocks blocks.itrees) ≡ ok vals
    → rank md ≡ some k
    → extend_index_ranks (suc (length (iterator vals).tree_coords)) vals (k + 1) ≡ ok extended
    → create_trees mrbs ≡ ok (md, extended)
unfolding create_trees
create_trees_lem mrbs n k blocks md vals extended md_made vals_made ranked ran =
    rw (blocks.made, blocks.blocks, md_made, vals_made)
      (ap
          (λ o. elim o as (λ o. Result (IndexTree × IndexTree)) [
            | none ↦ throws
            | some k ↦
                extend_index_ranks (suc (length (iterator vals).tree_coords)) vals (k + 1)
                >>= λ extended. ok (md, extended)
          ])
          ranked
        ∙ rw ran refl)

-- The trees of references: the metadata tree has exactly the points of their entries, and the value
-- tree at least those.
pub record CreatedTrees (n : ℕ) (mrbs : List MrBase) : Type 0 where
  pub md : IndexTree
  pub vals : IndexTree
  pub made : create_trees mrbs ≡ ok (md, vals)
  pub md_compact : IsCompact md
  pub md_rank : rank md ≡ some (suc (suc n))
  pub vals_rank : rank vals ≡ some (suc (suc n) + 1)
  pub md_points :
      (q : List ℕ) → has_index md q ≡ is_some (reference_entries own_metadata n 0 mrbs q)
  pub vals_points : InSpace (has_index vals) [] (reference_entries own_values n 0 mrbs)

first_point :
    (n : ℕ) (r : MrBase) (mrbs : List MrBase)
    → (q : List ℕ) × (is_some (reference_entries own_metadata n 0 (r ∷ mrbs) (0 ∷ q)) ≡ true)
first_point n r mrbs =
    let (q, at) = own_entry n r in
    (q, ap is_some (reference_entries_head own_metadata n 0 r mrbs q) ∙ at)

md_points_lem :
    (n : ℕ) (r : MrBase) (mrbs : List MrBase) (blocks : StoredBlocks n 0 (r ∷ mrbs))
    (counts : CountsTree blocks.md_v) (q : List ℕ)
    → has_index counts.tree q ≡ is_some (reference_entries own_metadata n 0 (r ∷ mrbs) q)
md_points_lem n r mrbs blocks counts [] =
    let (q, at) = first_point n r mrbs in
    index_nil counts.tree 0 q (counts.indexes 0 q ∙ blocks.md_indexes 0 q ∙ at)
    ∙ sym (nil_none own_metadata n 0 (r ∷ mrbs))
md_points_lem n r mrbs blocks counts (x ∷ q) = counts.indexes x q ∙ blocks.md_indexes x q

values_not_empty :
    (n : ℕ) (r : MrBase) (mrbs : List MrBase) (blocks : StoredBlocks n 0 (r ∷ mrbs))
    (counts : CountsTree (value_blocks blocks.itrees))
    → counts.tree ≢ empty
values_not_empty n r mrbs blocks counts e = elim blocks.values_child [
  | inl none_left ↦ cc none_left
  | inr (t, at) ↦ cc (ap (λ s. child_at s 0) e, counts.child 0, at, child_at-empty 0)
]

pub make-CreatedTrees :
    (n : ℕ) (r : MrBase) (mrbs : List MrBase)
    → All (IsStored n) (r ∷ mrbs)
    → CreatedTrees n (r ∷ mrbs)
make-CreatedTrees n r mrbs ws =
    let blocks = make-StoredBlocks n 0 (r ∷ mrbs) ws in
    let md = make-CountsTree blocks.md_v blocks.md_compact in
    let vals = make-CountsTree (value_blocks blocks.itrees) blocks.values_compact in
    let points = md_points_lem n r mrbs blocks md in
    let ranked : rank md.tree ≡ some (suc (suc n)) =
      AllOfLength-rank md.tree (suc (suc n)) md.is_compact (λ q e. omega (
        arith,
        reference_entries-length own_metadata 0 own_metadata-laws n 0 (r ∷ mrbs) ws q
            (sym (points q) ∙ e),
      )) in
    let (extended, ran, u, extended_rank, padded) =
      extend_index_ranks-pad (suc (length (iterator vals.tree).tree_coords)) (suc (suc n) + 1)
        vals.tree vals.is_compact (values_not_empty n r mrbs blocks vals)
        (λ q e. short blocks vals q e) (omega arith) in
    record {
      md = md.tree;
      vals = extended;
      made =
          create_trees_lem (r ∷ mrbs) n (suc (suc n)) blocks md.tree vals.tree extended md.made
            vals.made ranked ran;
      md_compact = md.is_compact;
      md_rank = ranked;
      vals_rank = extended_rank;
      md_points = points;
      vals_points = λ q a e. (padded q).1 (
        q,
        there blocks vals q (ap is_some e ∙ (unfold is_some in refl)),
        sym (
            pad_full q (suc (suc n) + 1) (
              omega (
                arith,
                reference_entries-length own_values 1 own_values-laws n 0 (r ∷ mrbs) ws q
                    (ap is_some e ∙ (unfold is_some in refl)),
              ))),
      );
    }
  where
    short :
        (blocks : StoredBlocks n 0 (r ∷ mrbs)) (vals : CountsTree (value_blocks blocks.itrees))
        (q : List ℕ)
        → has_index vals.tree q ≡ true
        → length q ≤ suc (suc n) + 1
    short blocks vals [] e = omega arith
    short blocks vals (x ∷ q) e =
        omega (arith, blocks.values_short x q (sym (vals.indexes x q) ∙ e))

    there :
        (blocks : StoredBlocks n 0 (r ∷ mrbs)) (vals : CountsTree (value_blocks blocks.itrees))
        (q : List ℕ)
        → is_some (reference_entries own_values n 0 (r ∷ mrbs) q) ≡ true
        → has_index vals.tree q ≡ true
    there blocks vals [] e = cc (nil_none own_values n 0 (r ∷ mrbs))
    there blocks vals (x ∷ q) e = vals.indexes x q ∙ blocks.values_in x q e
