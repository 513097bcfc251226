-- ===== src/MeasRef/Trees/Mixed.antt =====
-- `MeasRef::create` of references that differ in their numbers of levels.
use legms.Prelude.{
  ℕ, zero, suc, ◌+◌, ◌≡◌, ◌≢◌, refl, ap, sym, ◌∙◌, true, List, [], ◌∷◌, none, some, length,
  get_elem?, Result, ok, throws, ◌>>=◌, returned_first, ok-injective, subst, arith, Option-cases,
  inl, inr, if_true, if_false,
}
use legms.IndexTree.Tree.{IndexTree, IsOrdered, child_at, covers}
use legms.IndexTree.Compact.{of_counts, place_blocks}
use legms.IndexTree.Compact.Form.{compact_total}
use legms.IndexTree.Compact.Meaning.{child_at-compact}
use legms.IndexTree.Compact.Indexes.{has_index, has_index-some}
use legms.IndexTree.Shape.{rank}
use legms.IndexTree.Shape.Rank.{rank-length}
use legms.MeasRef.Measure.{MrBase}
use legms.IndexTree.Iterator.{iterator}
use legms.MeasRef.Extend.{extend_index_ranks}
use legms.MeasRef.Trees.{MeasureIndexTrees, all_trees, metadata_blocks, value_blocks, create_trees}

-- Consecutive blocks stand in order.
pub place_blocks-IsOrdered :
    (lo : ℕ) (ch : List (ℕ × IndexTree)) → IsOrdered lo (place_blocks lo ch)
unfolding place_blocks
place_blocks-IsOrdered lo [] = tt
place_blocks-IsOrdered lo ((n, t) ∷ ch) = (omega arith, place_blocks-IsOrdered (lo + n) ch)

-- Blocks of one coordinate each.
abbrev AllOne : List (ℕ × IndexTree) → Type 0
AllOne [] = Unit
AllOne ((n, t) ∷ ch) = (n ≡ 1) × AllOne ch

child_at-place_blocks :
    (lo i : ℕ) (ch : List (ℕ × IndexTree)) (n : ℕ) (t : IndexTree)
    → AllOne ch
    → get_elem? ch i ≡ some (n, t)
    → child_at (place_blocks lo ch) (lo + i) ≡ some t
unfolding place_blocks child_at
child_at-place_blocks lo i [] n t one h = cc
child_at-place_blocks lo zero ((m, s) ∷ ch) n t one h =
    if_true (covers lo m (lo + 0)) _ _ (ground arith) ∙ cc h
child_at-place_blocks lo (suc i) ((m, s) ∷ ch) n t one h =
    if_false (covers lo m (lo + suc i)) _ _ (ground arith)
    ∙ ap (child_at (place_blocks (lo + m) ch)) (shift_one lo i m one.0)
    ∙ child_at-place_blocks (lo + m) i ch n t one.1 h
  where
    shift_one : (lo i m : ℕ) → m ≡ 1 → lo + suc i ≡ lo + m + i
    shift_one lo i m e = omega arith

metadata_blocks-none :
    (t : MeasureIndexTrees) (itrees : List MeasureIndexTrees)
    → t.metadata_tree ≡ none
    → metadata_blocks (t ∷ itrees) ≡ throws
unfolding metadata_blocks
metadata_blocks-none t itrees h =
    ap
      (λ o. elim o as (λ o. Result (List (ℕ × IndexTree))) [
        | none ↦ throws
        | some md ↦ metadata_blocks itrees >>= λ md_v. ok ((1, md) ∷ md_v)
      ])
      h

pub metadata_blocks-some :
    (t : MeasureIndexTrees) (itrees : List MeasureIndexTrees) (md : IndexTree)
    → t.metadata_tree ≡ some md
    → metadata_blocks (t ∷ itrees) ≡ (metadata_blocks itrees >>= λ md_v. ok ((1, md) ∷ md_v))
unfolding metadata_blocks
metadata_blocks-some t itrees md h =
    ap
      (λ o. elim o as (λ o. Result (List (ℕ × IndexTree))) [
        | none ↦ throws
        | some md ↦ metadata_blocks itrees >>= λ md_v. ok ((1, md) ∷ md_v)
      ])
      h

metadata_blocks-AllOne :
    (itrees : List MeasureIndexTrees) (md_v : List (ℕ × IndexTree))
    → metadata_blocks itrees ≡ ok md_v
    → AllOne md_v
metadata_blocks-AllOne [] md_v h =
    let same : ok [] ≡ ok md_v = unfold metadata_blocks in h in subst AllOne (ok-injective same) tt
metadata_blocks-AllOne (t ∷ itrees) md_v h = elim (Option-cases t.metadata_tree) [
  | inl e ↦ cc (metadata_blocks-none t itrees e)
  | inr (md, e) ↦
      let (rest, k, same) =
        returned_first (metadata_blocks itrees) (λ md_v. ok ((1, md) ∷ md_v))
          (sym (metadata_blocks-some t itrees md e) ∙ h) in
      subst AllOne (ok-injective same) (refl, metadata_blocks-AllOne itrees rest k)
]

-- A tree of consecutive blocks of one coordinate has the indexes of the subtrees.
of_counts-has_index :
    (ch : List (ℕ × IndexTree)) (c : IndexTree) (i n : ℕ) (t : IndexTree) (cs : List ℕ)
    → AllOne ch
    → of_counts ch ≡ ok c
    → get_elem? ch i ≡ some (n, t)
    → has_index t cs ≡ true
    → has_index c (i ∷ cs) ≡ true
unfolding of_counts
of_counts-has_index ch c i n t cs one made at h =
    has_index-some c t i cs (
      child_at-compact (place_blocks 0 ch) c i made
      ∙ ap (child_at (place_blocks 0 ch)) (zero_add i)
      ∙ child_at-place_blocks 0 i ch n t one at)
    ∙ h
  where
    zero_add : (i : ℕ) → i ≡ 0 + i
    zero_add i = omega arith

no_rank :
    (c : IndexTree) (as' bs : List ℕ)
    → has_index c as' ≡ true
    → has_index c bs ≡ true
    → length as' ≢ length bs
    → rank c ≡ none
no_rank c as' bs ha hb ne = elim (Option-cases (rank c)) [
  | inl e ↦ e
  | inr (k, e) ↦ absurd (ne (rank-length c k as' e ha ∙ sym (rank-length c k bs e hb)))
]

of_counts_total : (ch : List (ℕ × IndexTree)) → (c : IndexTree) × (of_counts ch ≡ ok c)
unfolding of_counts
of_counts_total ch = compact_total 0 (place_blocks 0 ch) (place_blocks-IsOrdered 0 ch)

-- If the metadata trees of two of the references have indexes that differ in length, then `create`
-- throws: the tree of all references has no rank, whose value it takes.
pub create_trees-throws :
    (mrbs : List MrBase) (itrees : List MeasureIndexTrees) (md_v : List (ℕ × IndexTree))
    (i j n m : ℕ) (a b : IndexTree) (as' bs : List ℕ)
    → all_trees mrbs ≡ ok itrees
    → metadata_blocks itrees ≡ ok md_v
    → get_elem? md_v i ≡ some (n, a)
    → get_elem? md_v j ≡ some (m, b)
    → has_index a as' ≡ true
    → has_index b bs ≡ true
    → length as' ≢ length bs
    → create_trees mrbs ≡ throws
unfolding create_trees
create_trees-throws mrbs itrees md_v i j n m a b as' bs made blocks at_i at_j ha hb ne =
    let one = metadata_blocks-AllOne itrees md_v blocks in
    let (md, md_made) = of_counts_total md_v in
    let (values, values_made) = of_counts_total (value_blocks itrees) in
    let unranked : rank md ≡ none =
      no_rank md (i ∷ as') (j ∷ bs) (of_counts-has_index md_v md i n a as' one md_made at_i ha)
        (of_counts-has_index md_v md j m b bs one md_made at_j hb) (λ e. ne (omega arith)) in
    rw (made, blocks, md_made, values_made)
      (ap
        (λ o. elim o as (λ o. Result (IndexTree × IndexTree)) [
          | none ↦ throws
          | some k ↦
              extend_index_ranks (suc (length (iterator values).tree_coords)) values (k + 1)
              >>= λ extended. ok (md, extended)
        ])
        unranked)
