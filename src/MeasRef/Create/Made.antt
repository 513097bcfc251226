-- ===== src/MeasRef/Create/Made.antt =====
-- `make` returns the references that `create` was given.
use legms.Prelude.{
  ℕ, suc, ◌≤◌, ◌<◌, max, ◌≡◌, refl, ap, sym, ◌∙◌, subst, Bool, true, List, [], ◌∷◌, map, Option,
  some, arith, length, ok, ◌>>=◌, if_true, All,
}
use legms.IndexTree.Compact.Indexes.{has_index}
use legms.MeasRef.Measure.{MClass, MrBase}
use legms.MeasRef.Regions.{Metadata, Regions, read_metadata}
use legms.MeasRef.Points.{zeros}
use legms.MeasRef.Equiv.{mclass}
use legms.MeasRef.Instantiate.Fresh.{entry_own}
use legms.MeasRef.Entries.{own_metadata, own_values, bare, or_else}
use legms.MeasRef.Initialize.{initialize}
use legms.MeasRef.Initialize.States.{depth, InSpace}
use legms.MeasRef.Initialize.References.{
  IsWritable, initialize-reference_entries, reference_entries, reference_entries_head,
}
use legms.MeasRef.Instantiate.{instantiate}
use legms.MeasRef.Instantiate.States.{is_some}
use legms.MeasRef.Instantiate.Restored.{IsRestorableRef}
use legms.MeasRef.RoundTrip.{instantiate-initialize}
use legms.MeasRef.Trees.One.{IsStored}
use legms.MeasRef.Trees.Created.{CreatedTrees, make-CreatedTrees}
use legms.MeasRef.Create.{
  IndexRegion, MeasRef, Contents, has_case, write_index, create, CodeMap, read_index, make,
}
use legms.MeasRef.Create.Codes.{codes_map}
use legms.MeasRef.Create.Bounds.{
  child-HasValues, region_of, index_of, create_regions_lem, kept_index,
}

-- What `create` takes: references that it can write, and `make` can build, with one number of levels.
pub record IsKept (make_value : MClass → List ℕ → List ℕ) (n : ℕ) (klass : MClass) (r : MrBase)
    : Type 0 where
  pub writable : IsWritable n klass r
  pub restorable : IsRestorableRef make_value r
  pub levels : depth (bare r) ≡ suc n

All-map :
    {A : Type 0} (P Q : A → Type 0) → ((a : A) → P a → Q a) → (xs : List A) → All P xs → All Q xs
All-map P Q f [] h = tt
All-map P Q f (x ∷ xs) h = (f x h.0, All-map P Q f xs h.1)

length-map : {A B : Type 0} (f : A → B) (xs : List A) → length (map f xs) ≡ length xs
length-map f [] = refl
length-map f (x ∷ xs) = ap suc (length-map f xs)

-- What `create` stores, once the regions and the codes are written.
stored : (n : ℕ) (mrbs : List MrBase) → Regions → Option IndexRegion → MeasRef
stored n mrbs regions index = record {
  dim = suc (suc n);
  bounds = (0, length mrbs);
  regions = regions;
  index = index;
}

in_case : (n max_dim : ℕ) → suc (suc n) < max_dim → has_case max_dim (suc (suc n)) ≡ true
unfolding has_case
in_case n max_dim lt = ground arith

create_lem :
    (n max_dim f : ℕ) (r : MrBase × ℕ) (mrbs : List (MrBase × ℕ)) (klass : MClass) (no_index : Bool)
    (contents : Contents) (trees : CreatedTrees n (r.0 ∷ map (λ m. m.0) mrbs))
    (index : Option IndexRegion) (regions : Regions)
    → suc (suc n) < max_dim
    → initialize f
        (suc (suc n))
        (r.0 ∷ map (λ m. m.0) mrbs)
        klass
        (region_of n r.0 (map (λ m. m.0) mrbs) trees contents)
      ≡ ok regions
    → write_index (r.1 ∷ map (λ m. m.1) mrbs) (index_of (map (λ m. m.0) mrbs) no_index contents)
      ≡ ok index
    → create f max_dim contents (r ∷ mrbs) klass no_index
      ≡ ok (stored n (map (λ m. m.0) mrbs) regions index)
unfolding create stored
create_lem n max_dim f r mrbs klass no_index contents trees index regions lt wrote codes =
    rw
      (
        trees.made,
        create_regions_lem n r.0 (map (λ m. m.0) mrbs) trees contents no_index,
        in_case n max_dim lt,
        wrote,
        codes,
      )
      refl

make_lem :
    (make_value : MClass → List ℕ → List ℕ) (n max_dim f : ℕ) (mrbs result : List MrBase)
    (index : Option IndexRegion) (regions : Regions) (rmap : CodeMap)
    → suc (suc n) < max_dim
    → instantiate make_value f (suc (suc n)) regions (length mrbs) ≡ ok result
    → read_index index ≡ rmap
    → make make_value f max_dim (stored n mrbs regions index) ≡ ok (result, rmap)
unfolding make stored
make_lem make_value n max_dim f mrbs result index regions rmap lt built read =
    rw (in_case n max_dim lt, built, read) refl

-- The class of the first reference stands at the point whose coordinates are 0.
mclass_lem :
    (n : ℕ) (r : MrBase) (mrbs : List MrBase) (trees : CreatedTrees n (r ∷ mrbs)) (rs : Regions)
    (index : Option IndexRegion)
    → ((q : List ℕ) → rs.metadata_space q ≡ has_index trees.md q)
    → ((q : List ℕ) (a : Metadata)
        → reference_entries own_metadata n 0 (r ∷ mrbs) q ≡ some a
        → rs.metadata q ≡ a)
    → mclass (suc (suc n)) rs ≡ ok r.measure_class
unfolding mclass read_metadata bare
mclass_lem n r mrbs trees rs index spaces held =
    let value : Metadata = record {
      measure_class = r.measure_class;
      ref_type = r.ref_type;
      num_values = 0;
    } in
    let at : reference_entries own_metadata n 0 (r ∷ mrbs) (0 ∷ 0 ∷ zeros n) ≡ some value =
      reference_entries_head own_metadata n 0 r mrbs (0 ∷ zeros n) ∙ entry_own n [] r in
    if_true (rs.metadata_space (0 ∷ 0 ∷ zeros n)) _ _ (
      spaces (0 ∷ 0 ∷ zeros n)
      ∙ trees.md_points (0 ∷ 0 ∷ zeros n)
      ∙ (ap is_some at ∙ unfold is_some in refl))
    ∙ ap (λ md. ok md.measure_class) (held (0 ∷ 0 ∷ zeros n) value at)

-- What `create` stores is what `make` and `mclass` read.
pub record Kept (make_value : MClass → List ℕ → List ℕ) (n max_dim : ℕ) (r : MrBase × ℕ)
    (mrbs : List (MrBase × ℕ)) (klass : MClass) (no_index : Bool) (contents : Contents)
    : Type 0 where
  pub enough : ℕ
  pub kept : MeasRef
  pub creates : (f : ℕ) → enough ≤ f → create f max_dim contents (r ∷ mrbs) klass no_index ≡ ok kept
  pub makes :
      (f : ℕ)
      → enough ≤ f
      → make make_value f max_dim kept
        ≡ ok (map (λ m. m.0) (r ∷ mrbs), codes_map no_index (map (λ m. m.1) (r ∷ mrbs)))
  pub class_of : mclass kept.dim kept.regions ≡ ok klass

stored_trees :
    (make_value : MClass → List ℕ → List ℕ) (n : ℕ) (r : MrBase) (mrbs : List MrBase)
    (klass : MClass)
    → All (IsKept make_value n klass) (r ∷ mrbs)
    → CreatedTrees n (r ∷ mrbs)
stored_trees make_value n r mrbs klass ws = make-CreatedTrees n r mrbs (
    All-map (IsKept make_value n klass) (IsStored n)
      (λ s w. record {
        levels = w.levels;
        values = λ c. child-HasValues make_value s c w.restorable;
      })
      (r ∷ mrbs) ws)

pub make-Kept :
    (make_value : MClass → List ℕ → List ℕ) (n max_dim : ℕ) (r : MrBase × ℕ)
    (mrbs : List (MrBase × ℕ)) (klass : MClass) (no_index : Bool) (contents : Contents)
    → suc (suc n) < max_dim
    → All (IsKept make_value n klass) (r.0 ∷ map (λ m. m.0) mrbs)
    → Kept make_value n max_dim r mrbs klass no_index contents
make-Kept make_value n max_dim r mrbs klass no_index contents lt ws =
    let mrs : List MrBase = map (λ m. m.0) mrbs in
    let trees = stored_trees make_value n r.0 mrs klass ws in
    let rs : Regions = region_of n r.0 mrs trees contents in
    let writable =
      All-map (IsKept make_value n klass) (IsWritable n klass) (λ s w. w.writable) (r.0 ∷ mrs) ws in
    let in_md : InSpace rs.metadata_space [] (reference_entries own_metadata n 0 (r.0 ∷ mrs)) =
      λ q a e. unfold region_of is_some in trees.md_points q ∙ ap is_some e in
    let in_vals : InSpace rs.values_space [] (reference_entries own_values n 0 (r.0 ∷ mrs)) =
      unfold region_of in trees.vals_points in
    let (enough, wrote) =
      initialize-reference_entries n (r.0 ∷ mrs) klass rs writable in_md in_vals in
    let (more, both) =
      instantiate-initialize make_value n r.0 mrs klass rs writable
        (All-map (IsKept make_value n klass) (IsRestorableRef make_value) (λ s w. w.restorable)
          (r.0 ∷ mrs) ws)
        (λ q h. unfold region_of in trees.md_points q) in_md in_vals in
    let (index, wrote_codes, read) =
      kept_index r.1 (map (λ m. m.1) mrbs) mrs no_index contents
        (length-map (λ m. m.1) mrbs ∙ sym (length-map (λ m. m.0) mrbs)) in
    let regions : Regions = record rs {
      metadata = λ q. or_else (reference_entries own_metadata n 0 (r.0 ∷ mrs) q) (rs.metadata q);
      values = λ q. or_else (reference_entries own_values n 0 (r.0 ∷ mrs) q) (rs.values q);
    } in
    record {
      enough = max enough more;
      kept = stored n mrs regions index;
      creates = λ f h.
          create_lem n max_dim f r mrbs klass no_index contents trees index regions lt
            (wrote f (omega arith)) wrote_codes;
      makes = λ f h.
          make_lem make_value n max_dim f mrs (r.0 ∷ mrs) index regions
            (codes_map no_index (r.1 ∷ map (λ m. m.1) mrbs)) lt
            (subst
              (λ o.
                (o >>= λ rs. instantiate make_value f (suc (suc n)) rs (length mrs))
                ≡ ok (r.0 ∷ mrs))
              (wrote f (omega arith)) (both f (omega arith)))
            read;
      class_of =
          unfold stored in
          (mclass_lem n r.0 mrs trees regions index (λ q. unfold region_of in refl)
              (λ q a e. unfold or_else in ap (λ o. or_else o (rs.metadata q)) e)
            ∙ ap ok ws.0.writable.of_class);
    }

-- `make` of what `create` stores, in whatever the regions held before, returns the references in their
-- order, and the map from each code to its last place, or an empty one if there is no index: with
-- enough fuel, if the references can be written and built again (they are of the given class, each
-- measure on which they depend is of a known class and has values, which `make_value` keeps, each
-- offset is of the class of its reference), all have the same number of levels, and the metadata has
-- less than `max_dim` dimensions.
pub make-create :
    (make_value : MClass → List ℕ → List ℕ) (n max_dim : ℕ) (r : MrBase × ℕ)
    (mrbs : List (MrBase × ℕ)) (klass : MClass) (no_index : Bool) (contents : Contents)
    → suc (suc n) < max_dim
    → All (IsKept make_value n klass) (r.0 ∷ map (λ m. m.0) mrbs)
    → (enough : ℕ) × ((f : ℕ)
        → enough ≤ f
        → (create f max_dim contents (r ∷ mrbs) klass no_index >>= make make_value f max_dim)
          ≡ ok (map (λ m. m.0) (r ∷ mrbs), codes_map no_index (map (λ m. m.1) (r ∷ mrbs))))
make-create make_value n max_dim r mrbs klass no_index contents lt ws =
    let k = make-Kept make_value n max_dim r mrbs klass no_index contents lt ws in
    (k.enough, λ f h. rw (k.creates f h) (k.makes f h))
