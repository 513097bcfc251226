-- ===== src/MeasRef/Create.antt =====
-- hyperion/MeasRef.cc: `create`, `make` and `clone`. Regions are modelled by their contents and their
-- points; the points of an index space that is made from a tree are the indexes of the tree
-- (TreeSpace/Space). What a region holds before it is written is an argument. LEGION_MAX_DIM is
-- `max_dim`.
pub mod Codes
pub mod Bounds
pub mod Made
pub mod Cloned
mod Examples
use legms.Prelude.{
  ℕ, zero, suc, ◌+◌, ◌-◌, Bool, true, false, ◌&&◌, List, [], ◌∷◌, map, ◌==◌, ltb, leb,
  if◌then◌else◌, Option, none, some, Result, ok, throws, ◌>>=◌,
}
use legms.IndexTree.Tree.{IndexTree}
use legms.IndexTree.Compact.Indexes.{has_index}
use legms.IndexTree.Shape.{rank, index_range}
use legms.MeasRef.Measure.{MClass, MrBase, is_class}
use legms.MeasRef.Regions.{Point, Metadata, Regions}
use legms.MeasRef.Initialize.{initialize}
use legms.MeasRef.Instantiate.{instantiate}
use legms.MeasRef.Trees.{create_trees}
use legms.MeasRef.Equiv.{mclass}

-- index_lr, with the field M_CODE_FID
pub record IndexRegion : Type 0 where
  pub lo : ℕ
  pub hi : ℕ
  pub codes : ℕ → ℕ

-- metadata_lr, values_lr and index_lr: the dimension of the metadata, and the least and the greatest
-- first coordinate of its points; the points and the contents; the codes, if any.
pub record MeasRef : Type 0 where
  pub dim : ℕ
  pub bounds : ℕ × ℕ
  pub regions : Regions
  pub index : Option IndexRegion

-- What the regions hold before they are written.
pub record Contents : Type 0 where
  pub metadata : Point → Metadata
  pub values : Point → ℕ
  pub codes : ℕ → ℕ

-- create_regions(ctx, rt, metadata_tree, value_tree, no_index); an index space is not made from a tree
-- without a rank.
unfoldable pub create_regions : Contents → IndexTree → IndexTree → Bool → Result MeasRef
create_regions contents metadata_tree value_tree no_index = elim (rank metadata_tree) [
  | none ↦ throws
  | some dim ↦ ok (record {
    dim = dim;
    bounds = index_range metadata_tree;
    regions = record {
      metadata_space = has_index metadata_tree;
      values_space = has_index value_tree;
      metadata = contents.metadata;
      values = contents.values;
    };
    index =
        if no_index
        then none
        else some (record {
          lo = (index_range metadata_tree).0;
          hi = (index_range metadata_tree).1;
          codes = contents.codes;
        });
  })
]

-- The dimensions of HYPERION_FOREACH_N_LESS_MAX; for another one the switch asserts.
unfoldable pub has_case : ℕ → ℕ → Bool
has_case max_dim dim = ltb 0 dim && ltb dim max_dim

-- mcodes[i] = c
unfoldable pub write_code : ℕ → ℕ → IndexRegion → Result IndexRegion
write_code i c index =
    if leb index.lo i && leb i index.hi
    then ok (record index { codes = λ j. if j == i then c else index.codes j })
    else throws

-- for (size_t i = 0; i < mrbs.size(); ++i) mcodes[i] = std::get<1>(mrbs[i])
unfoldable pub write_codes : ℕ → List ℕ → IndexRegion → Result IndexRegion
write_codes i [] index = ok index
write_codes i (c ∷ codes) index = write_code i c index >>= write_codes (suc i) codes

-- if (!no_index)
unfoldable pub write_index : List ℕ → Option IndexRegion → Result (Option IndexRegion)
write_index codes none = ok none
write_index codes (some index) = write_codes 0 codes index >>= λ index'. ok (some index')

-- create(ctx, rt, mrbs, klass, no_index), with fuel for `initialize`
unfoldable pub create : ℕ → ℕ → Contents → List (MrBase × ℕ) → MClass → Bool → Result MeasRef
create f max_dim contents mrbs klass no_index =
    create_trees (map (λ m. m.0) mrbs) >>= λ (metadata_tree, value_tree).
    create_regions contents metadata_tree value_tree no_index >>= λ s.
    (if has_case max_dim s.dim
      then initialize f s.dim (map (λ m. m.0) mrbs) klass s.regions
      else throws)
    >>= λ regions. write_index (map (λ m. m.1) mrbs) s.index >>= λ index.
        ok (record s { regions = regions; index = index })

-- std::unordered_map<unsigned, unsigned>, and rmap[code] = i
abbrev pub CodeMap : Type 0
CodeMap = ℕ → Option ℕ

unfoldable pub assign_code : ℕ → ℕ → CodeMap → CodeMap
assign_code code i rmap x = if x == code then some i else rmap x

-- for (…; pid(); pid++) rmap[mcodes[*pid]] = *pid, for `n` points from `i` on
unfoldable pub read_codes : ℕ → ℕ → (ℕ → ℕ) → CodeMap → CodeMap
read_codes zero i codes rmap = rmap
read_codes (suc n) i codes rmap = read_codes n (suc i) codes (assign_code (codes i) i rmap)

unfoldable pub read_index : Option IndexRegion → CodeMap
read_index none = λ x. none
read_index (some index) = read_codes (suc index.hi - index.lo) index.lo index.codes (λ x. none)

-- make(rt, prs)
unfoldable pub make : (MClass → List ℕ → List ℕ) → ℕ → ℕ → MeasRef → Result (List MrBase × CodeMap)
make make_value f max_dim s =
    (if has_case max_dim s.dim then instantiate make_value f s.dim s.regions s.bounds.1 else throws)
    >>= λ mrbs. ok (mrbs, read_index s.index)

-- clone(ctx, rt, drs), which takes the types of the references for their codes
unfoldable pub clone : (MClass → List ℕ → List ℕ) → ℕ → ℕ → Contents → MeasRef → Result MeasRef
clone make_value f max_dim contents s =
    mclass s.dim s.regions >>= λ klass. (if is_class klass then clone_as klass else throws)
  where
    clone_as : MClass → Result MeasRef
    clone_as klass = make make_value f max_dim s >>= λ (mrbs, rmap).
        create f max_dim contents (map (λ r. (r, r.ref_type)) mrbs) klass false
