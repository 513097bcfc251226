-- ===== src/Partition/Outside.antt =====
-- A partition along one axis that is not the first one of its column space.
use legms.Prelude.{
  ℕ, zero, suc, ◌≤◌, ◌<◌, ◌≡◌, refl, ap, ◌∙◌, List, [], ◌∷◌, Option, some, get_elem?, length,
  Option-cases, inl, inr, ok, throws, ◌>>=◌, arith,
}
use legms.Prelude.Int.{ℤ, pos, ◌<ℤ◌}
use legms.Utility.Dimensions.{find_dimension}
use legms.Partition.Restriction.{
  AxisPartition, read_elem, cover_part, cover_parts, create_partition_on_axes,
}
use legms.Partition.Single.{placed, create-placed}
use legms.Partition.Create.{ColumnSpace, create}

read_single : (top : ℤ) (d : ℕ) → 1 ≤ d → read_elem (top ∷ []) d ≡ throws
unfolding read_elem
read_single top zero h = absurd (omega arith)
read_single top (suc d) h = refl

-- The only part, at a place behind the first one, reads the number of colors out of bounds.
pub create_partition_on_axes-throws :
    (bounds : List (ℤ × ℤ)) (part : AxisPartition (Option ℕ)) (d : ℕ)
    → part.dim ≡ some d
    → 1 ≤ d
    → create_partition_on_axes bounds (part ∷ []) ≡ throws
unfolding create_partition_on_axes
create_partition_on_axes-throws bounds part d e h = elim (Option-cases (get_elem? bounds d)) [
  | inl e' ↦ rw (create_partition_on_axes, cover_parts, cover_part, e, read_elem, e') refl
  | inr (b, e') ↦
      rw (create_partition_on_axes, cover_parts, cover_part, e, read_elem, e', read_single _ d h)
        refl
]

-- For one part of the column space's own axes, with a positive stride, along an axis that the column
-- space has at a place d ≥ 1: `create` reads an element beyond the array of the numbers of colors, which
-- has one element.
pub create-throws :
    (max_dim : ℕ) (space : ColumnSpace) (part : AxisPartition ℕ) (d : ℕ)
    → part.axes_uid ≡ space.axes_uid
    → find_dimension part.dim 0 space.axes ≡ some d
    → 1 ≤ d
    → d < length space.bounds
    → length space.bounds ≤ max_dim
    → pos 0 <ℤ part.stride
    → create max_dim space (part ∷ []) ≡ throws
create-throws max_dim space part d uid place behind inside small positive =
    create-placed max_dim space part d uid place inside small positive
    ∙ ap (λ r. r >>= λ column_ip. ok (some column_ip))
        (create_partition_on_axes-throws space.bounds (placed part d) d refl behind)
