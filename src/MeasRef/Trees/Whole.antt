-- ===== src/MeasRef/Trees/Whole.antt =====
-- The trees of `MeasRef::create`, before the value tree is extended: blocks of one coordinate for each
-- reference.
use legms.Prelude.{
  ℕ, suc, ◌+◌, ◌≤◌, ◌≡◌, ◌≢◌, refl, ap, sym, ◌∙◌, Bool, true, false, List, [], ◌∷◌, if◌then◌else◌,
  some, arith, length, ok, Bool-cases, inl, inr, ◌⊎◌, if_true, if_false, All,
}
use legms.IndexTree.Tree.{IndexTree, child_at, covers}
use legms.IndexTree.Compact.{place_blocks}
use legms.IndexTree.Compact.Form.{HasCompactChildren}
use legms.IndexTree.Compact.Canonical.{child_at_inside}
use legms.IndexTree.Compact.Indexes.{has_index, has_index-block, has_index-empty}
use legms.MeasRef.Measure.{MClass, MrBase}
use legms.MeasRef.Entries.{Partial, entry, own_metadata, own_values, bare}
use legms.MeasRef.Initialize.References.{
  reference_entries, reference_entries_head, reference_entries_other,
}
use legms.MeasRef.Instantiate.States.{is_some}
use legms.MeasRef.Trees.{MeasureIndexTrees, all_trees, metadata_blocks, value_blocks}
use legms.MeasRef.Trees.Mixed.{metadata_blocks-some}
use legms.MeasRef.Trees.One.{IsStored, or_empty, StoredTrees, make-StoredTrees}

-- The blocks of references, from the coordinate `lo` on.
pub record StoredBlocks (n lo : ℕ) (mrbs : List MrBase) : Type 0 where
  pub itrees : List MeasureIndexTrees
  pub md_v : List (ℕ × IndexTree)
  pub made : all_trees mrbs ≡ ok itrees
  pub blocks : metadata_blocks itrees ≡ ok md_v
  pub md_compact : HasCompactChildren (place_blocks lo md_v)
  pub md_indexes :
      (x : ℕ) (q : List ℕ)
      → has_index (place_blocks lo md_v) (x ∷ q)
        ≡ is_some (reference_entries own_metadata n lo mrbs (x ∷ q))
  pub values_compact : HasCompactChildren (place_blocks lo (value_blocks itrees))
  pub values_in :
      (x : ℕ) (q : List ℕ)
      → is_some (reference_entries own_values n lo mrbs (x ∷ q)) ≡ true
      → has_index (place_blocks lo (value_blocks itrees)) (x ∷ q) ≡ true
  pub values_short :
      (x : ℕ) (q : List ℕ)
      → has_index (place_blocks lo (value_blocks itrees)) (x ∷ q) ≡ true
      → length q ≤ suc (n + 1)
  pub values_child :
      (mrbs ≡ [])
      ⊎ ((t : IndexTree) × (child_at (place_blocks lo (value_blocks itrees)) lo ≡ some t))

-- At the coordinate of the first reference there are its entries, elsewhere those of the others.
pub reference_entries_at :
    {A : Type 0} (own : ℕ → List ℕ → MClass → ℕ → Partial A) (n lo : ℕ) (r : MrBase)
    (mrbs : List MrBase) (x : ℕ) (q : List ℕ)
    → is_some (reference_entries own n lo (r ∷ mrbs) (x ∷ q)) ≡ (
        if covers lo 1 x
        then is_some (entry own n (bare r) q)
        else is_some (reference_entries own n (lo + 1) mrbs (x ∷ q)))
reference_entries_at own n lo r mrbs x q = elim (Bool-cases (covers lo 1 x)) [
  | inl e ↦
      let here : x ≡ lo = ground arith in
      ap (λ i. is_some (reference_entries own n lo (r ∷ mrbs) (i ∷ q))) here
      ∙ ap is_some (reference_entries_head own n lo r mrbs q)
      ∙ sym (if_true (covers lo 1 x) _ _ e)
  | inr e ↦
      let elsewhere : lo ≢ x = λ same. ground arith in
      let next : suc lo ≡ lo + 1 = omega arith in
      ap is_some (reference_entries_other own n lo r mrbs x q elsewhere)
      ∙ ap (λ i. is_some (reference_entries own n i mrbs (x ∷ q))) next
      ∙ sym (if_false (covers lo 1 x) _ _ e)
]

if_cong :
    (c : Bool) {a b a' b' : Bool} → a ≡ a' → b ≡ b' → (if c then a else b) ≡ (if c then a' else b')
if_cong true h k = h
if_cong false h k = k

if_imp :
    (c : Bool) {a b a' b' : Bool}
    → (a ≡ true → a' ≡ true)
    → (b ≡ true → b' ≡ true)
    → (if c then a else b) ≡ true
    → (if c then a' else b') ≡ true
if_imp true h k e = h e
if_imp false h k e = k e

pub if_split :
    (c : Bool) {a b : Bool} {P : Type 0}
    → (a ≡ true → P)
    → (b ≡ true → P)
    → (if c then a else b) ≡ true
    → P
if_split true h k e = h e
if_split false h k e = k e

empty_none : (lo x : ℕ) (q : List ℕ) → has_index (place_blocks lo (value_blocks [])) (x ∷ q) ≡ false
unfolding place_blocks value_blocks
empty_none lo x q = has_index-empty x q

cons-StoredBlocks :
    (n lo : ℕ) (r : MrBase) (mrbs : List MrBase)
    → StoredTrees n r
    → StoredBlocks n (lo + 1) mrbs
    → StoredBlocks n lo (r ∷ mrbs)
unfolding place_blocks value_blocks all_trees
cons-StoredBlocks n lo r mrbs one rest =
    let values : IndexTree = or_empty one.trees.value_tree in
    record {
      itrees = one.trees ∷ rest.itrees;
      md_v = (1, one.md) ∷ rest.md_v;
      made = rw (one.made, rest.made) refl;
      blocks = metadata_blocks-some one.trees rest.itrees one.md one.has_md ∙ rw rest.blocks refl;
      md_compact = (one.md_compact, rest.md_compact);
      md_indexes = λ x q.
          has_index-block lo 1 one.md (place_blocks (lo + 1) rest.md_v) x q
          ∙ if_cong (covers lo 1 x) (one.md_indexes q) (rest.md_indexes x q)
          ∙ sym (reference_entries_at own_metadata n lo r mrbs x q);
      values_compact = (one.values_compact, rest.values_compact);
      values_in = λ x q e.
          has_index-block lo 1 values (place_blocks (lo + 1) (value_blocks rest.itrees)) x q
          ∙ if_imp (covers lo 1 x) (one.values_in q) (rest.values_in x q)
              (sym (reference_entries_at own_values n lo r mrbs x q) ∙ e);
      values_short = λ x q e.
          if_split (covers lo 1 x) (one.values_short q) (rest.values_short x q) (
            sym (has_index-block lo 1 values (place_blocks (lo + 1) (value_blocks rest.itrees)) x q)
            ∙ e);
      values_child = inr (
        values,
        child_at_inside lo 1 values (place_blocks (lo + 1) (value_blocks rest.itrees)) lo
            (omega arith) (omega arith),
      );
    }

pub make-StoredBlocks :
    (n lo : ℕ) (mrbs : List MrBase) → All (IsStored n) mrbs → StoredBlocks n lo mrbs
make-StoredBlocks n lo [] ws = record {
  itrees = [];
  md_v = [];
  made = unfold all_trees in refl;
  blocks = unfold metadata_blocks in refl;
  md_compact = unfold place_blocks in tt;
  md_indexes = λ x q. unfold place_blocks reference_entries is_some in has_index-empty x q;
  values_compact = unfold place_blocks value_blocks in tt;
  values_in = λ x q e. unfold place_blocks value_blocks reference_entries is_some in cc;
  values_short = λ x q e. cc (empty_none lo x q);
  values_child = inl refl;
}
make-StoredBlocks n lo (r ∷ mrbs) ws =
    cons-StoredBlocks n lo r mrbs (make-StoredTrees n r ws.0)
      (make-StoredBlocks n (lo + 1) mrbs ws.1)
