-- ===== src/Partition/Create.antt =====
-- hyperion/ColumnSpacePartition.cc: the two `create` functions on the metadata of a column space. The
-- result is `none` for the empty ColumnSpacePartition(), or what is passed to Legion.
use legms.Prelude.{
  ℕ, Bool, false, ◌&&◌, ◌||◌, not, List, [], ◌∷◌, map, Option, none, some, leb, ltb, length,
  if◌then◌else◌, Result, ok, throws, ◌>>=◌, Text,
}
use legms.Prelude.Int.{ℤ, pos, leb_ℤ, ◌-ℤ◌}
use legms.Utility.Strings.{str_eq}
use legms.Utility.Dimensions.{has_unique_values, dimensions_map}
use legms.Partition.Restriction.{AxisPartition, Restriction, read_elem, create_partition_on_axes}

-- std::numeric_limits<coord_t>::max()
abbrev pub max_coord : ℤ
max_coord = pos 9223372036854775807

-- What the code reads of a column space: its axes and their uid, and the bounds of its index space.
pub record ColumnSpace : Type 0 where
  pub axes_uid : Text
  pub axes : List ℕ
  pub bounds : List (ℤ × ℤ)

unfoldable pub is_foreign : Text → List (AxisPartition ℕ) → Bool
unfolding str_eq
is_foreign uid [] = false
is_foreign uid (part ∷ partition) = not (str_eq part.axes_uid uid) || is_foreign uid partition

-- The parts with the places of their axes.
unfoldable pub place_parts :
    List (AxisPartition ℕ) → List (Option ℕ) → List (AxisPartition (Option ℕ))
place_parts [] dm = []
place_parts (part ∷ partition) [] = []
place_parts (part ∷ partition) (d ∷ dm) =
    record {
      axes_uid = part.axes_uid;
      dim = d;
      stride = part.stride;
      offset = part.offset;
      extent = part.extent;
      limits = part.limits;
    }
    ∷ place_parts partition dm

-- nd <= part.dim, which does not hold of -1
unfoldable pub is_beyond : ℕ → Option ℕ → Bool
is_beyond nd none = false
is_beyond nd (some d) = leb nd d

unfoldable pub is_unsupported : ℕ → List (AxisPartition (Option ℕ)) → Bool
unfolding is_beyond
is_unsupported nd [] = false
is_unsupported nd (part ∷ iparts) =
    is_beyond nd part.dim || leb_ℤ part.stride (pos 0) || is_unsupported nd iparts

unfoldable pub or_whole : Text → List (AxisPartition (Option ℕ)) → List (AxisPartition (Option ℕ))
or_whole uid [] =
    record {
      axes_uid = uid;
      dim = some 0;
      stride = pos 0;
      offset = pos 0;
      extent = (pos 0, max_coord);
      limits = (pos 0, pos 0);
    }
    ∷ []
or_whole uid (part ∷ iparts) = part ∷ iparts

-- The switch, for the dimensions up to LEGION_MAX_DIM.
unfoldable pub switch_dims :
    ℕ → List (ℤ × ℤ) → List (AxisPartition (Option ℕ)) → Result (Option Restriction)
unfolding create_partition_on_axes
switch_dims max_dim bounds iparts =
    if leb (length iparts) max_dim && (ltb 0 (length bounds) && leb (length bounds) max_dim)
    then (create_partition_on_axes bounds iparts >>= λ column_ip. ok (some column_ip))
    else throws

unfoldable pub create : ℕ → ColumnSpace → List (AxisPartition ℕ) → Result (Option Restriction)
unfolding is_foreign has_unique_values dimensions_map place_parts is_unsupported or_whole
    switch_dims
create max_dim space partition =
    if is_foreign space.axes_uid partition
    then ok none
    else if not (has_unique_values (map (λ part. part.dim) partition))
    then ok none
    else let iparts =
        place_parts partition (dimensions_map (map (λ part. part.dim) partition) space.axes) in
      if is_unsupported (length space.bounds) iparts
      then ok none
      else switch_dims max_dim space.bounds (or_whole space.axes_uid iparts)

-- The loop that makes the parts of blocks. A place of -1 fails an assertion.
unfoldable pub block_parts :
    Text → ColumnSpace → List (ℕ × ℤ) → List (Option ℕ) → Result (List (AxisPartition ℕ))
unfolding read_elem ◌-ℤ◌
block_parts uid space [] dm = ok []
block_parts uid space (block ∷ block_sizes) [] = throws
block_parts uid space (block ∷ block_sizes) (none ∷ dm) = throws
block_parts uid space (block ∷ block_sizes) (some d ∷ dm) = do
  axis ← read_elem space.axes d
  limits ← read_elem space.bounds d
  partition ← block_parts uid space block_sizes dm
  ok (
      record {
        axes_uid = uid;
        dim = axis;
        stride = block.1;
        offset = pos 0;
        extent = (pos 0, block.1 -ℤ pos 1);
        limits = limits;
      }
      ∷ partition)

unfoldable pub create_blocks : ℕ → ColumnSpace → Text → List (ℕ × ℤ) → Result (Option Restriction)
unfolding dimensions_map block_parts create
create_blocks max_dim space block_axes_uid block_sizes =
    block_parts block_axes_uid space block_sizes
      (dimensions_map (map (λ block. block.0) block_sizes) space.axes)
    >>= λ partition. create max_dim space partition
