-- ===== src/Partition/Pieces.antt =====
-- The pieces of blocks of one size.
use native.Mathlib.Nat.{div-add-mod', mod-lt, div-lt_iff_lt-mul}
use legms.Prelude.{
  ℕ, suc, ◌+◌, ◌-◌, ◌*◌, ◌/◌, ◌≤◌, ◌<◌, ◌≡◌, ◌↔◌, refl, ap, sym, ◌∙◌, List, [], ◌∷◌, ==_refl,
  if_true, ◌==◌, some, get_elem?, length, ok, ◌>>=◌, Text, arith, subst,
}
use legms.Prelude.Int.{ℤ, pos, ◌+ℤ◌, ◌-ℤ◌, ◌*ℤ◌, ◌≤ℤ◌}
use legms.Utility.Dimensions.{dimensions_map, find_dimension}
use legms.Partition.Restriction.{
  AxisPartition, Restriction, disjoint_complete, read_elem, transform,
}
use legms.Partition.Create.{ColumnSpace, block_parts, create_blocks}
use legms.Partition.Single.{create-placed}
use legms.Partition.Blocks.{blocks, sum_pos, add_pos, mul_pos, create_partition_on_axes-blocks}

-- A point of a piece along one axis: the extent is moved by a multiple of the step.
abbrev pub InPiece : Restriction → ℕ → ℕ → Type 0
InPiece r c x =
    (lo : ℤ) × (hi : ℤ) × (get_elem? r.extent 0 ≡ some (lo, hi))
    × (lo +ℤ r.steps 0 0 *ℤ pos c ≤ℤ pos x)
    × (pos x ≤ℤ hi +ℤ r.steps 0 0 *ℤ pos c)

quotient_iff : (n c x : ℕ) → 1 ≤ n → ((n * c ≤ x) × (x ≤ n - 1 + n * c)) ↔ (c ≡ x / n)
quotient_iff n c x h = (
  λ (low, high).
      let above : x < (c + 1) * n = grind arith in
      let least : x / n < c + 1 = (div-lt_iff_lt-mul h).1 above in
      let not_less : ¬ (x / n < c) =
        λ less. let under : x < c * n = (div-lt_iff_lt-mul h).0 less in grind arith in
      omega arith,
  λ e. let whole = div-add-mod' x n in let rest = mod-lt x h in rw e (grind arith),
)

piece_ends :
    (n c : ℕ)
    → (pos 0 +ℤ pos n *ℤ pos c ≡ pos (n * c))
      × (pos (n - 1) +ℤ pos n *ℤ pos c ≡ pos (n - 1 + n * c))
piece_ends n c = (
  ap (λ a. pos 0 +ℤ a) (mul_pos n c) ∙ sum_pos 0 (n * c) (n * c) (omega arith),
  ap (λ a. pos (n - 1) +ℤ a) (mul_pos n c) ∙ add_pos (n - 1) (n * c),
)

InPiece-blocks :
    (uid : Text) (n hi : ℕ) (rest : List (ℤ × ℤ)) (c x : ℕ)
    → 1 ≤ n
    → InPiece (blocks uid n hi rest) c x ↔ (c ≡ x / n)
unfolding transform
InPiece-blocks uid n hi rest c x h =
    let (first, last) = piece_ends n c in
    (
      λ (lo, top, e, low, high).
          let lo_eq : lo ≡ pos 0 = cc in
          let top_eq : top ≡ pos (n - 1) = cc in
          let low' : pos (n * c) ≤ℤ pos x =
            subst (λ a. a ≤ℤ pos x) (ap (λ a. a +ℤ pos n *ℤ pos c) lo_eq ∙ first) low in
          let high' : pos x ≤ℤ pos (n - 1 + n * c) =
            subst (λ a. pos x ≤ℤ a) (ap (λ a. a +ℤ pos n *ℤ pos c) top_eq ∙ last) high in
          (quotient_iff n c x h).0 (omega arith, omega arith),
      λ e.
          let (low, high) = (quotient_iff n c x h).1 e in
          (
            pos 0,
            pos (n - 1),
            refl,
            subst (λ a. a ≤ℤ pos x) (sym first) (omega arith),
            subst (λ a. pos x ≤ℤ a) (sym last) (omega arith),
          ),
    )

-- A column space whose first axis goes from 0 to `hi`.
abbrev pub space_of : Text → ℕ → List ℕ → ℕ → List (ℤ × ℤ) → ColumnSpace
space_of uid a axes hi rest = record {
  axes_uid = uid;
  axes = a ∷ axes;
  bounds = (pos 0, pos hi) ∷ rest;
}

-- The part that the block is at first.
abbrev given_part : Text → ℕ → ℕ → ℕ → AxisPartition ℕ
given_part uid a n hi = record {
  axes_uid = uid;
  dim = a;
  stride = pos n;
  offset = pos 0;
  extent = (pos 0, pos n -ℤ pos 1);
  limits = (pos 0, pos hi);
}

find_first : (a : ℕ) (axes : List ℕ) → find_dimension a 0 (a ∷ axes) ≡ some 0
unfolding find_dimension
find_first a axes = if_true (a == a) _ _ (==_refl a)

create_blocks-blocks :
    (max_dim : ℕ) (uid : Text) (a : ℕ) (axes : List ℕ) (n hi : ℕ) (rest : List (ℤ × ℤ))
    → 1 ≤ n
    → suc (length rest) ≤ max_dim
    → create_blocks max_dim (space_of uid a axes hi rest) uid ((a, pos n) ∷ [])
      ≡ ok (some (blocks uid n hi rest))
unfolding create_blocks block_parts dimensions_map read_elem
create_blocks-blocks max_dim uid a axes n hi rest h small =
    rw (create_blocks, find_first a axes)
      (create-placed max_dim (space_of uid a axes hi rest) (given_part uid a n hi) 0 refl
          (find_first a axes) (omega arith) small (omega arith)
        ∙ ap (λ r. r >>= λ column_ip. ok (some column_ip))
            (create_partition_on_axes-blocks uid n hi rest h))

-- Blocks of n ≥ 1 elements along the first axis of a column space, where this axis goes from 0 to hi:
-- `create` passes a disjoint and complete partition on to Legion, with hi / n + 1 colors, and a
-- coordinate x ≤ hi lies in the piece of the color x / n, which is one of these, and in no other one.
pub create_blocks-InPiece :
    (max_dim : ℕ) (uid : Text) (a : ℕ) (axes : List ℕ) (n hi : ℕ) (rest : List (ℤ × ℤ)) (c x : ℕ)
    → 1 ≤ n
    → suc (length rest) ≤ max_dim
    → x ≤ hi
    → (r : Restriction) × (create_blocks max_dim (space_of uid a axes hi rest) uid ((a, pos n) ∷ [])
        ≡ ok (some r))
      × (r.kind ≡ disjoint_complete)
      × (r.color_highs ≡ pos (hi / n) ∷ [])
      × (x / n ≤ hi / n)
      × (InPiece r c x ↔ (c ≡ x / n))
create_blocks-InPiece max_dim uid a axes n hi rest c x h small within = (
  blocks uid n hi rest,
  create_blocks-blocks max_dim uid a axes n hi rest h small,
  refl,
  refl,
  grind (arith, div-add-mod' x n, div-add-mod' hi n, mod-lt x h, mod-lt hi h),
  InPiece-blocks uid n hi rest c x h,
)
