-- ===== src/Partition/Order.antt =====
-- hyperion/utility.h: operator== and operator< of AxisPartition, which do not look at the limits.
use legms.Prelude.{◌≡◌, refl, Bool, true, false, ◌&&◌, not, if◌then◌else◌, arith}
use legms.Prelude.Int.{ℤ, ltb_ℤ, eqb_ℤ}
use legms.Utility.Strings.{str_eq}
use legms.Utility.Strings.Suffixes.{str_eq_refl}
use legms.Partition.Restriction.{AxisPartition}

-- operator== and operator< of std::array<coord_t, 2>
unfoldable pub extent_eq : ℤ × ℤ → ℤ × ℤ → Bool
extent_eq (a, b) (c, d) = eqb_ℤ a c && eqb_ℤ b d

unfoldable pub extent_lt : ℤ × ℤ → ℤ × ℤ → Bool
extent_lt (a, b) (c, d) = if ltb_ℤ a c then true else if ltb_ℤ c a then false else ltb_ℤ b d

unfoldable pub axis_partition_eq : AxisPartition ℤ → AxisPartition ℤ → Bool
unfolding str_eq extent_eq
axis_partition_eq a b =
    str_eq a.axes_uid b.axes_uid
    && (eqb_ℤ a.dim b.dim
        && (eqb_ℤ a.stride b.stride && (eqb_ℤ a.offset b.offset && extent_eq a.extent b.extent)))

unfoldable pub axis_partition_lt : AxisPartition ℤ → AxisPartition ℤ → Bool
unfolding str_eq extent_lt
axis_partition_lt a b =
    if not (str_eq a.axes_uid b.axes_uid)
    then false
    else if ltb_ℤ a.dim b.dim
    then true
    else if eqb_ℤ a.dim b.dim
    then (if ltb_ℤ a.stride b.stride
        then true
        else if eqb_ℤ a.stride b.stride
        then (if ltb_ℤ a.offset b.offset
            then true
            else if eqb_ℤ a.offset b.offset
            then extent_lt a.extent b.extent
            else false)
        else false)
    else false

-- Exactly one of three tests holds.
abbrev pub ExactlyOne : Bool → Bool → Bool → Type 0
ExactlyOne true true p = ⊥
ExactlyOne true false p = p ≡ false
ExactlyOne false true p = p ≡ false
ExactlyOne false false p = p ≡ true

trichotomy_extent : (a b : ℤ × ℤ) → ExactlyOne (extent_lt a b) (extent_eq a b) (extent_lt b a)
unfolding extent_lt extent_eq
trichotomy_extent (a, b) (c, d) = ground arith

level : (a b : ℤ) → ExactlyOne (ltb_ℤ a b) (eqb_ℤ a b) (ltb_ℤ b a) × (eqb_ℤ b a ≡ eqb_ℤ a b)
level a b = (ground arith, ground arith)

-- One coordinate goes before the rest.
lexicographic :
    (l e g l' e' g' : Bool)
    → ExactlyOne l e g
    → ExactlyOne l' e' g'
    → ExactlyOne
        (if l then true else if e then l' else false)
        (e && e')
        (if g then true else if e then g' else false)
lexicographic true true g l' e' g' h h' = absurd h
lexicographic true false g l' e' g' h h' = rw h refl
lexicographic false true g l' e' g' h h' = rw h h'
lexicographic false false g l' e' g' h h' = rw h refl

-- Of two partitions along axes of one table, exactly one is true: the first is less than the second, they
-- are equal, or the second is less than the first.
pub axis_partition_trichotomy :
    (a b : AxisPartition ℤ)
    → a.axes_uid ≡ b.axes_uid
    → ExactlyOne (axis_partition_lt a b) (axis_partition_eq a b) (axis_partition_lt b a)
unfolding axis_partition_lt axis_partition_eq
axis_partition_trichotomy a b e =
    let (dims, dims_sym) = level a.dim b.dim in
    let (strides, strides_sym) = level a.stride b.stride in
    let (offsets, offsets_sym) = level a.offset b.offset in
    rw
      (
        axis_partition_lt,
        axis_partition_eq,
        e,
        str_eq_refl b.axes_uid,
        dims_sym,
        strides_sym,
        offsets_sym,
      )
      (lexicographic _ _ _ _ _ _ dims (
        lexicographic _ _ _ _ _ _ strides
          (lexicographic _ _ _ _ _ _ offsets (trichotomy_extent a.extent b.extent))))
