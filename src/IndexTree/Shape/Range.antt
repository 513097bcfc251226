-- ===== src/IndexTree/Shape/Range.antt =====
-- index_range: the least and the greatest coordinate of a tree's blocks.
use legms.Prelude.{
  ℕ, ◌+◌, ◌-◌, ◌≤◌, ◌≡◌, refl, ap₂, sym, ◌∙◌, false, ltb, if◌then◌else◌, some, arith, if_false,
  Bool-cases, inl, inr,
}
use legms.IndexTree.Tree.{IndexTree, empty, block, child_at, covers}
use legms.IndexTree.Compact.Form.{IsCompact, IsCompact-IsOrdered_rest}
use legms.IndexTree.Compact.Canonical.{
  child_at_inside, child_at_above, child_at_below, child_at-empty,
}
use legms.IndexTree.Shape.{range_from, index_range, coord_max, coord_min}

-- No block goes beyond the coordinate.
abbrev pub ChildrenWithin : ℕ → IndexTree → Type 0
ChildrenWithin k t = (x : ℕ) (s : IndexTree) → child_at t x ≡ some s → x ≤ k

ChildrenWithin-rest :
    (k i n : ℕ) (t r : IndexTree)
    → IsCompact (block i n t r)
    → ChildrenWithin k (block i n t r)
    → ChildrenWithin k r
ChildrenWithin-rest k i n t r u h x s e = elim (Bool-cases (ltb x (i + n))) [
  | inl k' ↦ cc (child_at_below (i + n) r x (IsCompact-IsOrdered_rest i n t r u) (ground arith))
  | inr k' ↦ h x s (child_at_above i n t r x (ground arith) ∙ e)
]

greater : ℕ → ℕ → ℕ
greater h b = if ltb h b then b else h

less : ℕ → ℕ → ℕ
less a i = if ltb i a then i else a

greater_le : (h b k : ℕ) → h ≤ k → b ≤ k → greater h b ≤ k
unfolding greater
greater_le h b k le le' = ground arith

le_greater : (h b : ℕ) → (h ≤ greater h b) × (b ≤ greater h b)
unfolding greater
le_greater h b = ground arith

less_le : (a i : ℕ) → (less a i ≤ a) × (less a i ≤ i)
unfolding less
less_le a i = ground arith

range_from-empty : (a h : ℕ) → range_from (a, h) empty ≡ (a, h)
unfolding range_from
range_from-empty a h = refl

in_rest :
    (i n : ℕ) (t r : IndexTree) (x : ℕ) (s : IndexTree)
    → covers i n x ≡ false
    → child_at (block i n t r) x ≡ some s
    → child_at r x ≡ some s
unfolding child_at
in_rest i n t r x s outside e = sym (if_false (covers i n x) (some t) (child_at r x) outside) ∙ e

range_from-block :
    (i n : ℕ) (t r : IndexTree) (a h : ℕ)
    → range_from (a, h) (block i n t r) ≡ range_from (less a i, greater h (i + n - 1)) r
unfolding range_from less greater
range_from-block i n t r a h = refl

high_grows : (t : IndexTree) (a h : ℕ) → h ≤ (range_from (a, h) t).1
high_grows empty a h = rw (range_from-empty a h) (omega arith)
high_grows (block i n t r) a h =
    rw (range_from-block i n t r a h)
      (omega (arith, high_grows r (less a i) (greater h (i + n - 1)), le_greater h (i + n - 1)))

high_le :
    (t : IndexTree) (a h k : ℕ)
    → IsCompact t
    → h ≤ k
    → ChildrenWithin k t
    → (range_from (a, h) t).1 ≤ k
high_le empty a h k u le within = rw (range_from-empty a h) le
high_le (block i n t r) a h k u le within = rw (range_from-block i n t r a h) (
    high_le r (less a i) (greater h (i + n - 1)) k u.3
      (greater_le h (i + n - 1) k le
        (within (i + n - 1) t (child_at_inside i n t r (i + n - 1) (omega arith) (omega arith))))
      (ChildrenWithin-rest k i n t r u within))

child-high :
    (t : IndexTree) (a h x : ℕ) (s : IndexTree)
    → child_at t x ≡ some s
    → x ≤ (range_from (a, h) t).1
child-high empty a h x s e = cc (child_at-empty x)
child-high (block i n t r) a h x s e =
    rw (range_from-block i n t r a h) (elim (Bool-cases (covers i n x)) [
      | inl inside ↦
          let last : x ≤ i + n - 1 = ground arith in
          omega (arith, high_grows r (less a i) (greater h (i + n - 1)), le_greater h (i + n - 1))
      | inr outside ↦
          child-high r (less a i) (greater h (i + n - 1)) x s (in_rest i n t r x s outside e)
    ])

low_le : (t : IndexTree) (a h : ℕ) → (range_from (a, h) t).0 ≤ a
low_le empty a h = rw (range_from-empty a h) (omega arith)
low_le (block i n t r) a h =
    rw (range_from-block i n t r a h)
      (omega (arith, low_le r (less a i) (greater h (i + n - 1)), less_le a i))

child-low :
    (t : IndexTree) (a h x : ℕ) (s : IndexTree)
    → child_at t x ≡ some s
    → (range_from (a, h) t).0 ≤ x
child-low empty a h x s e = cc (child_at-empty x)
child-low (block i n t r) a h x s e =
    rw (range_from-block i n t r a h) (elim (Bool-cases (covers i n x)) [
      | inl inside ↦
          let first : i ≤ x = ground arith in
          omega (arith, low_le r (less a i) (greater h (i + n - 1)), less_le a i)
      | inr outside ↦
          child-low r (less a i) (greater h (i + n - 1)) x s (in_rest i n t r x s outside e)
    ])

-- A compact tree with a block at 0, and none beyond `k`, where there is one, has the range 0 to k.
pub index_range_exact :
    (t : IndexTree) (k : ℕ) (first last : IndexTree)
    → IsCompact t
    → ChildrenWithin k t
    → child_at t 0 ≡ some first
    → child_at t k ≡ some last
    → index_range t ≡ (0, k)
unfolding index_range
index_range_exact t k first last u within e e' =
    let low : (range_from (coord_max, coord_min) t).0 ≡ 0 =
      omega (arith, child-low t coord_max coord_min 0 first e) in
    let high : (range_from (coord_max, coord_min) t).1 ≡ k = omega (
      arith,
      child-high t coord_max coord_min k last e',
      high_le t coord_max coord_min k u (omega arith) within,
    ) in
    ap₂ (λ a b. (a, b)) low high
