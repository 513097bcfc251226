-- ===== src/Partition/Blocks.antt =====
-- Blocks of one size along the first axis of a column space.
use native.Mathlib.Nat.{div-add-mod', mod-lt, add-div_right}
use legms.Prelude.{
  ℕ, zero, suc, ◌+◌, ◌-◌, ◌*◌, ◌/◌, ◌≤◌, ◌≡◌, refl, ap, sym, ◌∙◌, true, false, ◌&&◌, List, [], ◌∷◌,
  Option, some, if_true, ok, Text, arith,
}
use legms.Prelude.Int.{ℤ, pos, ◌+ℤ◌, ◌-ℤ◌, ◌*ℤ◌, ltb_ℤ, leb_ℤ, eqb_ℤ}
use legms.Partition.Restriction.{
  AxisPartition, Restriction, Coverage, disjoint_complete, divide_positive, color_count, color_tops,
  transform, read_elem, write_elem, meet_next, cover_axis, cover_part, cover_parts, kind_of,
  create_partition_on_axes,
}

pub add_pos : (a b : ℕ) → pos a +ℤ pos b ≡ pos (a + b)
unfolding ◌+ℤ◌
add_pos a b = ground arith

pub sum_pos : (a b c : ℕ) → a + b ≡ c → pos a +ℤ pos b ≡ pos c
sum_pos a b c e = add_pos a b ∙ ap pos e

pub sub_pos : (a b c : ℕ) → b + c ≡ a → pos a -ℤ pos b ≡ pos c
unfolding ◌-ℤ◌
sub_pos a b c h = ground arith

pub mul_pos : (a b : ℕ) → pos a *ℤ pos b ≡ pos (a * b)
unfolding ◌*ℤ◌
mul_pos a b = ground arith

-- The part that the blocks of n elements become, on an axis from 0 to `hi`.
abbrev pub block_part : Text → ℕ → ℕ → ℕ → AxisPartition (Option ℕ)
block_part uid n hi d = record {
  axes_uid = uid;
  dim = some d;
  stride = pos n;
  offset = pos 0;
  extent = (pos 0, pos n -ℤ pos 1);
  limits = (pos 0, pos hi);
}

color_count-block_part :
    (uid : Text) (n hi d : ℕ) → 1 ≤ n → color_count (block_part uid n hi d) ≡ pos (hi / n + 1)
unfolding color_count divide_positive
color_count-block_part uid n hi d h =
    if_true (ltb_ℤ (pos 0) (pos n)) _ _ (ground arith)
    ∙ (ap (λ a. divide_positive a n)
          (ap (λ a. a +ℤ pos n) (sub_pos hi 0 hi (omega arith)) ∙ add_pos hi n)
        ∙ ap pos (add-div_right hi h))

top-block_part :
    (uid : Text) (n hi d : ℕ) → 1 ≤ n → color_count (block_part uid n hi d) -ℤ pos 1 ≡ pos (hi / n)
top-block_part uid n hi d h =
    ap (λ m. m -ℤ pos 1) (color_count-block_part uid n hi d h)
    ∙ sub_pos (hi / n + 1) 1 (hi / n) (omega arith)

color_tops-block_part :
    (uid : Text) (n hi d : ℕ) → 1 ≤ n → color_tops (block_part uid n hi d ∷ []) ≡ pos (hi / n) ∷ []
unfolding color_tops
color_tops-block_part uid n hi d h = ap (λ top. top ∷ []) (top-block_part uid n hi d h)

apart : (n : ℕ) → 1 ≤ n → leb_ℤ (pos (0 + n)) (pos (n - 1)) ≡ false
apart n h = ground arith

meets : (n : ℕ) → 1 ≤ n → eqb_ℤ (pos (0 + n)) (pos (n - 1 + 1)) ≡ true
meets n h = ground arith

-- The blocks follow each other without a gap.
meet_next-blocks :
    (top n : ℕ) (extent : List (ℤ × ℤ))
    → 1 ≤ n
    → meet_next
        (pos top)
        (pos n)
        (pos 0)
        (pos (n - 1))
        (record { extent = extent; aliased = false; complete = true })
      ≡ record { extent = extent; aliased = false; complete = true }
unfolding meet_next
meet_next-blocks zero n extent h = refl
meet_next-blocks (suc top) n extent h =
    rw (meet_next, add_pos 0 n, add_pos (n - 1) 1, apart n h, meets n h)
      (if_true (ltb_ℤ (pos 0) (pos (suc top))) _ _ (ground arith))

reaches : (n hi : ℕ) → 1 ≤ n → leb_ℤ (pos hi) (pos (n - 1 + hi / n * n)) ≡ true
reaches n hi h = grind (arith, div-add-mod' hi n, mod-lt hi h)

-- A round, with its sums at their values.
cover_axis_sums :
    (part : AxisPartition (Option ℕ)) (d : ℕ) (top lo hi reach : ℤ) (bounds : ℤ × ℤ)
    (coverage : Coverage)
    → part.offset +ℤ part.extent.0 ≡ lo
    → part.offset +ℤ part.extent.1 ≡ hi
    → hi +ℤ top *ℤ part.stride ≡ reach
    → cover_axis part d top bounds coverage
      ≡ meet_next top part.stride lo hi (record {
        extent = write_elem coverage.extent d (lo, hi);
        aliased = coverage.aliased;
        complete = coverage.complete && leb_ℤ lo bounds.0 && leb_ℤ bounds.1 reach;
      })
unfolding cover_axis
cover_axis_sums part d top lo hi reach bounds coverage e e' e'' = rw (sym e'', sym e, sym e') refl

cover_axis-block_part :
    (uid : Text) (n hi : ℕ) (rest : List (ℤ × ℤ))
    → 1 ≤ n
    → cover_axis
        (block_part uid n hi 0)
        0
        (pos (hi / n))
        (pos 0, pos hi)
        (record { extent = (pos 0, pos hi) ∷ rest; aliased = false; complete = true })
      ≡ record { extent = (pos 0, pos (n - 1)) ∷ rest; aliased = false; complete = true }
unfolding write_elem
cover_axis-block_part uid n hi rest h =
    cover_axis_sums (block_part uid n hi 0) 0 (pos (hi / n)) (pos 0) (pos (n - 1))
      (pos (n - 1 + hi / n * n)) (pos 0, pos hi) _ (add_pos 0 0)
      (ap (λ a. pos 0 +ℤ a) (sub_pos n 1 (n - 1) (omega arith))
        ∙ sum_pos 0 (n - 1) (n - 1) (omega arith))
      (ap (λ a. pos (n - 1) +ℤ a) (mul_pos (hi / n) n) ∙ add_pos (n - 1) (hi / n * n))
    ∙ rw (reaches n hi h) (meet_next-blocks (hi / n) n _ h)

-- What the blocks of n elements are made of, on a first axis from 0 to `hi`.
abbrev pub blocks : Text → ℕ → ℕ → List (ℤ × ℤ) → Restriction
blocks uid n hi rest = record {
  color_highs = pos (hi / n) ∷ [];
  steps = transform (block_part uid n hi 0 ∷ []);
  extent = (pos 0, pos (n - 1)) ∷ rest;
  kind = disjoint_complete;
}

pub create_partition_on_axes-blocks :
    (uid : Text) (n hi : ℕ) (rest : List (ℤ × ℤ))
    → 1 ≤ n
    → create_partition_on_axes ((pos 0, pos hi) ∷ rest) (block_part uid n hi 0 ∷ [])
      ≡ ok (blocks uid n hi rest)
unfolding create_partition_on_axes color_tops cover_parts cover_part read_elem kind_of
create_partition_on_axes-blocks uid n hi rest h =
    rw
      (
        create_partition_on_axes,
        color_tops,
        cover_parts,
        cover_part,
        top-block_part uid n hi 0 h,
        cover_axis-block_part uid n hi rest h,
      )
      refl
