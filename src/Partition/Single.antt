-- ===== src/Partition/Single.antt =====
-- `create` on one part, along an axis of the column space.
use legms.Prelude.{
  ℕ, ◌≤◌, ◌<◌, ◌≡◌, refl, false, ◌&&◌, List, [], ◌∷◌, Option, some, leb, ltb, length, if_true, ok,
  ◌>>=◌, Text, arith,
}
use legms.Prelude.Int.{ℤ, pos, ◌<ℤ◌}
use legms.Utility.Strings.Suffixes.{str_eq_refl}
use legms.Utility.Dimensions.{dimensions_map, find_dimension}
use legms.Utility.Dimensions.First.{has_unique_values-true}
use legms.Partition.Restriction.{AxisPartition, create_partition_on_axes}
use legms.Partition.Create.{
  ColumnSpace, is_foreign, place_parts, is_beyond, is_unsupported, or_whole, switch_dims, create,
}

-- The part at a place.
abbrev pub placed : AxisPartition ℕ → ℕ → AxisPartition (Option ℕ)
placed part d = record {
  axes_uid = part.axes_uid;
  dim = some d;
  stride = part.stride;
  offset = part.offset;
  extent = part.extent;
  limits = part.limits;
}

own :
    (uid : Text) (part : AxisPartition ℕ) → part.axes_uid ≡ uid → is_foreign uid (part ∷ []) ≡ false
unfolding is_foreign
own uid part e = rw (e, str_eq_refl uid) refl

supported :
    (nd d : ℕ) (part : AxisPartition ℕ)
    → d < nd
    → pos 0 <ℤ part.stride
    → is_unsupported nd (placed part d ∷ []) ≡ false
unfolding is_unsupported is_beyond
supported nd d part h h' = ground arith

switch_dims_small :
    (max_dim : ℕ) (bounds : List (ℤ × ℤ)) (part : AxisPartition (Option ℕ))
    → 1 ≤ length bounds
    → length bounds ≤ max_dim
    → switch_dims max_dim bounds (part ∷ [])
      ≡ (create_partition_on_axes bounds (part ∷ []) >>= λ column_ip. ok (some column_ip))
unfolding switch_dims
switch_dims_small max_dim bounds part h h' =
    if_true (leb 1 max_dim && (ltb 0 (length bounds) && leb (length bounds) max_dim)) _ _
      (ground arith)

-- All checks pass for a part of the same axes, with a stride that is positive, along an axis that the
-- column space has.
pub create-placed :
    (max_dim : ℕ) (space : ColumnSpace) (part : AxisPartition ℕ) (d : ℕ)
    → part.axes_uid ≡ space.axes_uid
    → find_dimension part.dim 0 space.axes ≡ some d
    → d < length space.bounds
    → length space.bounds ≤ max_dim
    → pos 0 <ℤ part.stride
    → create max_dim space (part ∷ []) ≡ (
        create_partition_on_axes space.bounds (placed part d ∷ []) >>= λ column_ip.
        ok (some column_ip))
unfolding create
create-placed max_dim space part d uid place inside small positive =
    rw
      (
        create,
        own space.axes_uid part uid,
        has_unique_values-true (part.dim ∷ []),
        dimensions_map,
        place,
        place_parts,
        supported (length space.bounds) d part inside positive,
        or_whole,
      )
      (switch_dims_small max_dim space.bounds (placed part d) (omega arith) small)
