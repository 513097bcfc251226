-- ===== src/Partition/Restriction.antt =====
-- hyperion/ColumnSpacePartition.cc: `create_partition_on_axes`, up to the call of Legion's
-- create_partition_by_restriction. Coordinates are integers: the code counts on their not overflowing.
use legms.Prelude.{
  ℕ, zero, suc, ◌/◌, Bool, true, false, ◌&&◌, ◌||◌, List, [], ◌∷◌, map, Option, none, some,
  get_elem?, ◌==◌, if◌then◌else◌, Result, ok, throws, ◌>>=◌, Text,
}
use legms.Prelude.Int.{ℤ, pos, negsuc, pos_part, ◌+ℤ◌, ◌-ℤ◌, ◌*ℤ◌, ltb_ℤ, leb_ℤ, eqb_ℤ}

-- The axis is a number of an axis where a partition is given, and the place of the axis among those of
-- the column space in create_partition_on_axes, with `none` for -1.
pub record AxisPartition (Dim : Type 0) : Type 0 where
  pub axes_uid : Text
  pub dim : Dim
  pub stride : ℤ
  pub offset : ℤ
  pub extent : ℤ × ℤ
  pub limits : ℤ × ℤ

-- Division by a positive number, towards zero.
unfoldable pub divide_positive : ℤ → ℕ → ℤ
divide_positive (pos a) b = pos (a / b)
divide_positive (negsuc a) b = elim (suc a / b) [ zero ↦ pos 0 | suc k ↦ negsuc k ]

module _ {Dim : Type 0} where
  -- The number of colors along an axis.
  unfoldable pub color_count : AxisPartition Dim → ℤ
  unfolding divide_positive ◌+ℤ◌ ◌-ℤ◌
  color_count part =
      if ltb_ℤ (pos 0) part.stride
      then divide_positive (part.limits.1 -ℤ part.limits.0 +ℤ part.stride) (pos_part part.stride)
      else pos 1

  -- cs_rect.hi; cs_rect.lo is zero in every dimension.
  unfoldable pub color_tops : List (AxisPartition Dim) → List ℤ
  unfolding color_count ◌-ℤ◌
  color_tops parts = map (λ part. color_count part -ℤ pos 1) parts

-- transform[m][n]
unfoldable pub transform : List (AxisPartition (Option ℕ)) → ℕ → ℕ → ℤ
transform parts m n = elim (get_elem? parts n) [
  | none ↦ pos 0
  | some part ↦ elim part.dim [ none ↦ pos 0 | some d ↦ if d == m then part.stride else pos 0 ]
]

-- An element that is not there is read beyond the array, which is undefined.
unfoldable pub read_elem : {A : Type 0} → List A → ℕ → Result A
read_elem xs i = elim (get_elem? xs i) [ none ↦ throws | some x ↦ ok x ]

unfoldable pub write_elem : {A : Type 0} → List A → ℕ → A → List A
write_elem [] i y = []
write_elem (x ∷ xs) zero y = y ∷ xs
write_elem (x ∷ xs) (suc i) y = x ∷ write_elem xs i y

-- extent, aliased and complete
pub record Coverage : Type 0 where
  pub extent : List (ℤ × ℤ)
  pub aliased : Bool
  pub complete : Bool

-- The flags, if the axis has more than one color.
unfoldable pub meet_next : ℤ → ℤ → ℤ → ℤ → Coverage → Coverage
unfolding ◌+ℤ◌
meet_next top stride lo hi coverage =
    if ltb_ℤ (pos 0) top
    then record coverage {
      aliased = coverage.aliased || leb_ℤ (lo +ℤ stride) hi;
      complete = coverage.complete && eqb_ℤ (lo +ℤ stride) (hi +ℤ pos 1);
    }
    else coverage

-- The round for a part with an axis.
unfoldable pub cover_axis : AxisPartition (Option ℕ) → ℕ → ℤ → ℤ × ℤ → Coverage → Coverage
unfolding meet_next write_elem ◌+ℤ◌ ◌*ℤ◌
cover_axis part d top bounds coverage =
    let lo = part.offset +ℤ part.extent.0 in
    let hi = part.offset +ℤ part.extent.1 in
    meet_next top part.stride lo hi (record {
      extent = write_elem coverage.extent d (lo, hi);
      aliased = coverage.aliased;
      complete =
          coverage.complete && leb_ℤ lo bounds.0 && leb_ℤ bounds.1 (hi +ℤ top *ℤ part.stride);
    })

-- The number of colors is read at the place of the axis, not at the place of the part.
unfoldable pub cover_part : List ℤ → AxisPartition (Option ℕ) → Coverage → Result Coverage
unfolding read_elem cover_axis
cover_part tops part coverage = elim part.dim [
  | none ↦ ok (record coverage { aliased = true })
  | some d ↦ read_elem coverage.extent d >>= λ bounds.
      read_elem tops d >>= λ top. ok (cover_axis part d top bounds coverage)
]

unfoldable pub cover_parts : List ℤ → List (AxisPartition (Option ℕ)) → Coverage → Result Coverage
unfolding cover_part
cover_parts tops [] coverage = ok coverage
cover_parts tops (part ∷ parts) coverage =
    cover_part tops part coverage >>= λ next. cover_parts tops parts next

pub data Kind : Type 0 where
  aliased_complete aliased_incomplete disjoint_complete disjoint_incomplete : Kind

unfoldable pub kind_of : Bool → Bool → Kind
kind_of true true = aliased_complete
kind_of true false = aliased_incomplete
kind_of false true = disjoint_complete
kind_of false false = disjoint_incomplete

-- The arguments of create_partition_by_restriction.
pub record Restriction : Type 0 where
  pub color_highs : List ℤ
  pub steps : ℕ → ℕ → ℤ
  pub extent : List (ℤ × ℤ)
  pub kind : Kind

-- create_partition_on_axes, on the bounds of the index space.
unfoldable pub create_partition_on_axes :
    List (ℤ × ℤ) → List (AxisPartition (Option ℕ)) → Result Restriction
unfolding color_tops transform cover_parts kind_of
create_partition_on_axes bounds parts =
    cover_parts (color_tops parts) parts
      (record { extent = bounds; aliased = false; complete = true })
    >>= λ coverage. ok (record {
      color_highs = color_tops parts;
      steps = transform parts;
      extent = coverage.extent;
      kind = kind_of coverage.aliased coverage.complete;
    })
