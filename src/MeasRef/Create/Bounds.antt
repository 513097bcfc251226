-- ===== src/MeasRef/Create/Bounds.antt =====
-- The trees of stored references, and the regions that are made from them.
use legms.Prelude.{
  ℕ, zero, suc, ◌+◌, ◌<◌, ◌≡◌, ◌≢◌, ◌==◌, refl, ap, sym, ◌∙◌, Bool, true, false, List, [], ◌∷◌,
  if◌then◌else◌, Option, none, some, arith, length, Result, ok, throws, Bool-cases, inl, inr,
  Option-cases,
}
use legms.IndexTree.Tree.{IndexTree, child_at}
use legms.IndexTree.Compact.Canonical.{child_at-IsCompact}
use legms.IndexTree.Compact.Indexes.{has_index, has_index-some, has_index-none, has_index_exists}
use legms.IndexTree.Shape.{index_range}
use legms.IndexTree.Shape.Range.{index_range_exact}
use legms.MeasRef.Measure.{MClass, Measure, null, measure, MrBase}
use legms.MeasRef.Regions.{Regions}
use legms.MeasRef.Entries.{own_metadata, bare}
use legms.MeasRef.Initialize.References.{
  reference_entries, reference_entries_head, reference_entries_other,
}
use legms.MeasRef.Instantiate.States.{is_some, IsRestorable}
use legms.MeasRef.Instantiate.Restored.{IsRestorableRef}
use legms.MeasRef.Trees.Children.{child}
use legms.MeasRef.Trees.Levels.{HasValues}
use legms.MeasRef.Trees.One.{own_entry}
use legms.MeasRef.Trees.Created.{CreatedTrees}
use legms.MeasRef.Create.{IndexRegion, MeasRef, Contents, create_regions, write_index, read_index}
use legms.MeasRef.Create.Codes.{codes_map, read_index-write_index}

IsRestorable-HasValues :
    (make_value : MClass → List ℕ → List ℕ) (m : Measure) → IsRestorable make_value m → HasValues m
IsRestorable-HasValues make_value null h = tt
IsRestorable-HasValues make_value (measure vs k t o e l d v) h = (
  h.0,
  IsRestorable-HasValues make_value o h.4,
  IsRestorable-HasValues make_value e h.5,
  IsRestorable-HasValues make_value l h.6,
  IsRestorable-HasValues make_value d h.7,
  IsRestorable-HasValues make_value v h.8,
)

pub child-HasValues :
    (make_value : MClass → List ℕ → List ℕ) (r : MrBase) (c : ℕ)
    → IsRestorableRef make_value r
    → HasValues (child (bare r) c)
unfolding child bare
child-HasValues make_value r zero w = tt
child-HasValues make_value r (suc zero) w = IsRestorable-HasValues make_value r.offset w.offset
child-HasValues make_value r (suc (suc zero)) w = IsRestorable-HasValues make_value r.epoch w.epoch
child-HasValues make_value r (suc (suc (suc zero))) w =
    IsRestorable-HasValues make_value r.position w.position
child-HasValues make_value r (suc (suc (suc (suc zero)))) w =
    IsRestorable-HasValues make_value r.direction w.direction
child-HasValues make_value r (suc (suc (suc (suc (suc zero))))) w =
    IsRestorable-HasValues make_value r.radial_velocity w.radial_velocity
child-HasValues make_value r (suc (suc (suc (suc (suc (suc c)))))) w = tt

-- A reference at its place has an entry, and there is none beyond the last one.
last_point :
    (n lo : ℕ) (r : MrBase) (mrbs : List MrBase)
    → (q : List ℕ) × (is_some
          (reference_entries own_metadata n lo (r ∷ mrbs) ((lo + length mrbs) ∷ q))
        ≡ true)
last_point n lo r [] =
    let (q, at) = own_entry n r in
    let here : lo + 0 ≡ lo = omega arith in
    (
      q,
      ap (λ i. is_some (reference_entries own_metadata n lo (r ∷ []) (i ∷ q))) here
          ∙ ap is_some (reference_entries_head own_metadata n lo r [] q)
          ∙ at,
    )
last_point n lo r (s ∷ mrbs) =
    let (q, at) = last_point n (suc lo) s mrbs in
    let moved : lo + length (s ∷ mrbs) ≡ suc lo + length mrbs = omega arith in
    (
      q,
      ap is_some (
            reference_entries_other own_metadata n lo r (s ∷ mrbs) (lo + length (s ∷ mrbs)) q
              (λ e. omega arith))
          ∙ ap (λ i. is_some (reference_entries own_metadata n (suc lo) (s ∷ mrbs) (i ∷ q))) moved
          ∙ at,
    )

entry_within :
    (n lo : ℕ) (mrbs : List MrBase) (x : ℕ) (q : List ℕ)
    → is_some (reference_entries own_metadata n lo mrbs (x ∷ q)) ≡ true
    → x < lo + length mrbs
entry_within n lo [] x q e = absurd (unfold reference_entries is_some in cc)
entry_within n lo (r ∷ mrbs) x q e = elim (Bool-cases (lo == x)) [
  | inl here ↦ let same : lo ≡ x = ground arith in omega arith
  | inr elsewhere ↦
      let other : lo ≢ x = λ same. ground arith in
      omega (
        arith,
        entry_within n (suc lo) mrbs x q
            (ap is_some (sym (reference_entries_other own_metadata n lo r mrbs x q other)) ∙ e),
      )
]

child_of_index :
    (t : IndexTree) (x : ℕ) (q : List ℕ)
    → has_index t (x ∷ q) ≡ true
    → (s : IndexTree) × (child_at t x ≡ some s)
child_of_index t x q e = elim (Option-cases (child_at t x)) [
  | inl none_there ↦ cc (has_index-none t x q none_there)
  | inr there ↦ there
]

-- The bounds of the index space of the metadata.
created_bounds :
    (n : ℕ) (r : MrBase) (mrbs : List MrBase) (trees : CreatedTrees n (r ∷ mrbs))
    → index_range trees.md ≡ (0, length mrbs)
created_bounds n r mrbs trees =
    let (q, at) = own_entry n r in
    let (first, e) = child_of_index trees.md 0 q (
      trees.md_points (0 ∷ q)
      ∙ ap is_some (reference_entries_head own_metadata n 0 r mrbs q)
      ∙ at) in
    let (q', at') = last_point n 0 r mrbs in
    let moved : length mrbs ≡ 0 + length mrbs = omega arith in
    let (last, e') = child_of_index trees.md (length mrbs) q' (
      ap (λ i. has_index trees.md (i ∷ q')) moved
      ∙ trees.md_points ((0 + length mrbs) ∷ q')
      ∙ at') in
    index_range_exact trees.md (length mrbs) first last trees.md_compact
      (λ x s e.
        let (cs, k) = has_index_exists s (child_at-IsCompact trees.md x s trees.md_compact e) in
        omega (
          arith,
          entry_within n 0 (r ∷ mrbs) x cs
              (sym (trees.md_points (x ∷ cs)) ∙ has_index-some trees.md s x cs e ∙ k),
        ))
      e e'

-- What the record of a reference is before it is written.
unfoldable pub region_of :
    (n : ℕ) (r : MrBase) (mrbs : List MrBase) → CreatedTrees n (r ∷ mrbs) → Contents → Regions
region_of n r mrbs trees contents = record {
  metadata_space = has_index trees.md;
  values_space = has_index trees.vals;
  metadata = contents.metadata;
  values = contents.values;
}

pub index_of : List MrBase → Bool → Contents → Option IndexRegion
index_of mrbs no_index contents =
    if no_index then none else some (record { lo = 0; hi = length mrbs; codes = contents.codes })

pub create_regions_lem :
    (n : ℕ) (r : MrBase) (mrbs : List MrBase) (trees : CreatedTrees n (r ∷ mrbs))
    (contents : Contents) (no_index : Bool)
    → create_regions contents trees.md trees.vals no_index
      ≡ ok (record {
        dim = suc (suc n);
        bounds = (0, length mrbs);
        regions = region_of n r mrbs trees contents;
        index = index_of mrbs no_index contents;
      })
unfolding create_regions region_of index_of
create_regions_lem n r mrbs trees contents no_index =
    ap
      (λ o. elim o as (λ o. Result MeasRef) [
        | none ↦ throws
        | some dim ↦ ok (record {
          dim = dim;
          bounds = index_range trees.md;
          regions = region_of n r mrbs trees contents;
          index =
              if no_index
              then none
              else some (record {
                lo = (index_range trees.md).0;
                hi = (index_range trees.md).1;
                codes = contents.codes;
              });
        })
      ])
      trees.md_rank
    ∙ ap
        (λ bounds. ok (record {
          dim = suc (suc n);
          bounds = bounds;
          regions = region_of n r mrbs trees contents;
          index =
              if no_index
              then none
              else some (record { lo = bounds.0; hi = bounds.1; codes = contents.codes });
        }))
        (created_bounds n r mrbs trees)

-- The codes, and the map that is read from them.
pub kept_index :
    (c : ℕ) (codes : List ℕ) (mrbs : List MrBase) (no_index : Bool) (contents : Contents)
    → length codes ≡ length mrbs
    → (index : Option IndexRegion) × (write_index (c ∷ codes) (index_of mrbs no_index contents)
        ≡ ok index)
      × (read_index index ≡ codes_map no_index (c ∷ codes))
unfolding index_of write_index codes_map
kept_index c codes mrbs true contents h = (none, refl, unfold read_index in refl)
kept_index c codes mrbs false contents h =
    let (index, wrote, reads) = read_index-write_index c codes contents.codes in
    (
      index,
      ap (λ hi. write_index (c ∷ codes) (some (record { lo = 0; hi = hi; codes = contents.codes })))
            (sym h)
          ∙ wrote,
      reads,
    )
