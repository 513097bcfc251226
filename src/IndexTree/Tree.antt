-- ===== src/IndexTree/Tree.antt =====
-- hyperion/IndexTree.h: the data of `IndexTree<COORD_T>`, its equality, and what a tree denotes.
-- The class has one member, the vector `m_children` of (start, count, subtree), so that a tree and a
-- vector of such triples are one type here: `empty` is `IndexTree()` and also the end of a vector.
-- COORD_T is instantiated at an unsigned type, with sums of coordinates that stay in its range.
use legms.Prelude.{
  ℕ, suc, ◌+◌, ◌≤◌, ◌≡◌, refl, Bool, true, false, ◌&&◌, Option, none, some, arith, ltb, leb, ◌==◌,
  if◌then◌else◌,
}

pub data IndexTree : Type 0 where
  empty : IndexTree
  block : ℕ → ℕ → IndexTree → IndexTree → IndexTree

-- operator==: memberwise on `m_children`.
unfoldable pub eq : IndexTree → IndexTree → Bool
eq empty empty = true
eq empty (block j m s q) = false
eq (block i n t r) empty = false
eq (block i n t r) (block j m s q) = (i == j) && ((n == m) && (eq t s && eq r q))

pub eq_sound : (a b : IndexTree) → eq a b ≡ true → a ≡ b
unfolding eq
eq_sound empty empty h = refl
eq_sound empty (block j m s q) h = cc
eq_sound (block i n t r) empty h = cc
eq_sound (block i n t r) (block j m s q) h = ground (arith, eq_sound t s, eq_sound r q)

pub eq_refl : (a : IndexTree) → eq a a ≡ true
unfolding eq
eq_refl empty = refl
eq_refl (block i n t r) = ground (arith, eq_refl t, eq_refl r)

-- `t == IndexTree()`
unfoldable pub is_empty : IndexTree → Bool
is_empty empty = true
is_empty (block i n t r) = false

-- Vectors of blocks: concatenation and length.
unfoldable pub append : IndexTree → IndexTree → IndexTree
append empty ys = ys
append (block i n t r) ys = block i n t (append r ys)

unfoldable pub count : IndexTree → ℕ
count empty = 0
count (block i n t r) = suc (count r)

-- The number of blocks at all levels.
unfoldable pub nodes : IndexTree → ℕ
nodes empty = 0
nodes (block i n t r) = suc (nodes t + nodes r)

-- What a vector of blocks denotes: the subtree that stands at a coordinate, of the first block that
-- covers it.
abbrev pub covers : ℕ → ℕ → ℕ → Bool
covers i n c = leb i c && ltb c (i + n)

unfoldable pub child_at : IndexTree → ℕ → Option IndexTree
child_at empty c = none
child_at (block i n t r) c = if covers i n c then some t else child_at r c

-- The blocks stand in order, do not overlap, and start at `lo` or above.
abbrev pub IsOrdered : ℕ → IndexTree → Type 0
IsOrdered lo empty = Unit
IsOrdered lo (block i n t r) = (lo ≤ i) × IsOrdered (i + n) r
