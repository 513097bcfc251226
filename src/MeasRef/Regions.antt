-- ===== src/MeasRef/Regions.antt =====
-- The points and regions of hyperion/MeasRef.cc. A point is the list of its coordinates; a region is
-- an index space and the contents of its fields, which stand at every point, unspecified before they
-- are written. Accesses are checked against the index space.
use legms.Prelude.{ℕ, zero, suc, Bool, List, [], ◌∷◌, if◌then◌else◌, Result, ok, throws}
use legms.IndexTree.Iterator.Coverage.{list_eq}
use legms.MeasRef.Measure.{MClass}

abbrev pub Point : Type 0
Point = List ℕ

-- p[j] = v
unfoldable pub put : ℕ → ℕ → Point → Point
put j v [] = []
put zero v (x ∷ p) = v ∷ p
put (suc j) v (x ∷ p) = x ∷ put j v p

-- p[j] = 0, p[j + 1] = 0, …, to the end of the point
unfoldable pub clear : ℕ → Point → Point
clear j [] = []
clear zero (x ∷ p) = 0 ∷ clear zero p
clear (suc j) (x ∷ p) = x ∷ clear j p

-- MEASURE_CLASS_FID, REF_TYPE_FID, NUM_VALUES_FID
pub record Metadata : Type 0 where
  pub measure_class : MClass
  pub ref_type : ℕ
  pub num_values : ℕ

-- DataRegions, less the index region
pub record Regions : Type 0 where
  pub metadata_space : Point → Bool
  pub values_space : Point → Bool
  pub metadata : Point → Metadata
  pub values : Point → ℕ

unfoldable pub update : {A : Type 0} → Point → A → (Point → A) → Point → A
unfolding list_eq
update p a s q = if list_eq p q then a else s q

-- A write of one of the three fields of the metadata at a point.
unfoldable pub write_metadata : (Metadata → Metadata) → Point → Regions → Result Regions
unfolding update
write_metadata f p rs =
    if rs.metadata_space p
    then ok (record rs { metadata = update p (f (rs.metadata p)) rs.metadata })
    else throws

-- vals.write(p1, v)
unfoldable pub write_value : Point → ℕ → Regions → Result Regions
unfolding update
write_value p1 v rs =
    if rs.values_space p1 then ok (record rs { values = update p1 v rs.values }) else throws

-- mclasses.read(p), rtypes.read(p), numvals.read(p)
unfoldable pub read_metadata : {A : Type 0} → (Metadata → A) → Point → Regions → Result A
read_metadata f p rs = if rs.metadata_space p then ok (f (rs.metadata p)) else throws

-- vals.read(p1)
unfoldable pub read_value : Point → Regions → Result ℕ
read_value p1 rs = if rs.values_space p1 then ok (rs.values p1) else throws
