-- ===== src/IndexTree/Grow/Leaves.antt =====
-- `grow_leaves` puts a copy of the sprout at every leaf.
use legms.Prelude.{
  ℕ, ◌+◌, ◌≤◌, ◌≡◌, ◌≢◌, refl, sym, ◌∙◌, Bool, true, false, List, [], ◌∷◌, if◌then◌else◌, Option,
  none, some, Result, ok, ◌>>=◌, arith,
}
use legms.IndexTree.Tree.{IndexTree, empty, block, is_empty, covers, child_at, IsOrdered}
use legms.IndexTree.Compact.{compact, of_blocks}
use legms.IndexTree.Compact.Form.{
  IsCompact, HasCompactChildren, compact_total, compact-IsCompact, IsCompact-IsOrdered,
}
use legms.IndexTree.Compact.Meaning.{child_at-compact}
use legms.IndexTree.Compact.Indexes.{
  has_index, has_index-child_at, has_index_exists, has_index-block, has_index-block_nil,
  has_index-empty,
}
use legms.IndexTree.Compact.Canonical.{child_at_inside}
use legms.IndexTree.Grow.{sprout_blocks, grow_leaves}

-- The coordinates lead down `t` to one of its leaves, and on along an index of `s`.
pub joined : IndexTree → IndexTree → List ℕ → Bool
joined empty s cs = has_index s cs
joined (block i n t r) s [] = false
joined (block i n t r) s (x ∷ cs) = elim (child_at (block i n t r) x) [
  | none ↦ false
  | some u ↦ joined u s cs
]

-- The index of a vector's block at `x`.
joined_in : Option IndexTree → IndexTree → List ℕ → Bool
unfolding joined
joined_in none s cs = false
joined_in (some u) s cs = joined u s cs

joined_in-block :
    (i n : ℕ) (t r s : IndexTree) (x : ℕ) (cs : List ℕ)
    → joined_in (child_at (block i n t r) x) s cs
      ≡ (if covers i n x then joined t s cs else joined_in (child_at r x) s cs)
unfolding joined_in child_at
joined_in-block i n t r s x cs = ground arith

joined-block :
    (i n : ℕ) (t r s : IndexTree) (x : ℕ) (cs : List ℕ)
    → joined (block i n t r) s (x ∷ cs) ≡ joined_in (child_at (block i n t r) x) s cs
unfolding joined joined_in
joined-block i n t r s x cs = ground arith

-- What sprout_blocks returns on ordered blocks with compact subtrees.
abbrev Sprouts : ℕ → IndexTree → IndexTree → Result IndexTree → Type 0
Sprouts lo t s res =
    (c : IndexTree) × (res ≡ ok c)
    × IsOrdered lo c
    × HasCompactChildren c
    × ((x : ℕ) (cs : List ℕ) → has_index c (x ∷ cs) ≡ joined_in (child_at t x) s cs)

-- What grow_leaves returns on a compact tree with children.
abbrev Grown : IndexTree → IndexTree → Result IndexTree → Type 0
Grown t s res =
    (c : IndexTree) × (res ≡ ok c) × IsCompact c × ((cs : List ℕ) → has_index c cs ≡ joined t s cs)

joined-block_nil : (i n : ℕ) (t r s : IndexTree) → joined (block i n t r) s [] ≡ false
unfolding joined
joined-block_nil i n t r s = refl

joined_exists :
    (t s : IndexTree) → IsCompact t → IsCompact s → (cs : List ℕ) × (joined t s cs ≡ true)
unfolding joined
joined_exists empty s u v = has_index_exists s v
joined_exists (block i n t r) s u v =
    let sub = joined_exists t s u.1 v in
    (i ∷ sub.0, rw (child_at_inside i n t r i (omega arith) (omega arith), joined) sub.1)

-- Compaction does not empty a vector that has an index.
of_blocks-Grown :
    (lo i n : ℕ) (t r s : IndexTree) (res : Result IndexTree)
    → IsCompact (block i n t r)
    → IsCompact s
    → Sprouts lo (block i n t r) s res
    → Grown (block i n t r) s (res >>= of_blocks)
unfolding of_blocks
of_blocks-Grown lo i n t r s res u v (newch, e, o, w, same) =
    let (c, compacted) = compact_total lo newch o in
    (c, rw e compacted, compact-IsCompact newch c w compacted, λ cs. at_index cs c compacted)
  where
    not_empty :
        (c : IndexTree) (cs : List ℕ)
        → joined (block i n t r) s cs ≡ true
        → ((x : ℕ) (ds : List ℕ) → has_index c (x ∷ ds) ≡ joined (block i n t r) s (x ∷ ds))
        → has_index c [] ≡ joined (block i n t r) s []
    not_empty empty [] found agree = cc (joined-block_nil i n t r s)
    not_empty empty (x ∷ ds) found agree = cc (agree x ds, has_index-empty x ds)
    not_empty (block j m q k) cs found agree =
        has_index-block_nil j m q k ∙ sym (joined-block_nil i n t r s)

    at_index :
        (cs : List ℕ) (c : IndexTree)
        → compact newch ≡ ok c
        → has_index c cs ≡ joined (block i n t r) s cs
    at_index [] c h =
        let (cs, found) = joined_exists (block i n t r) s u v in
        not_empty c cs found (λ x ds.
          has_index-child_at c newch x ds (child_at-compact newch c x h)
          ∙ same x ds
          ∙ sym (joined-block i n t r s x ds))
    at_index (x ∷ cs) c h =
        has_index-child_at c newch x cs (child_at-compact newch c x h)
        ∙ same x cs
        ∙ sym (joined-block i n t r s x cs)

-- The child of a block: the sprout at a leaf, and else the grown subtree.
sprouted : IndexTree → IndexTree → Result IndexTree
sprouted s t = if is_empty t then ok s else (sprout_blocks s t >>= of_blocks)

block-Sprouts :
    (lo i n : ℕ) (t r s : IndexTree)
    → lo ≤ i
    → Grown t s (sprouted s t)
    → Sprouts (i + n) r s (sprout_blocks s r)
    → Sprouts lo (block i n t r) s (sprout_blocks s (block i n t r))
unfolding sprouted sprout_blocks
block-Sprouts lo i n t r s le (t', et, ut, same_t) (r', er, o, w, same_r) = (
  block i n t' r',
  rw (et, er),
  (le, o),
  (ut, w),
  λ x cs.
      has_index-block i n t' r' x cs
      ∙ ground (arith, same_t cs, same_r x cs, joined_in-block i n t r s x cs),
)

nothing-Sprouts : (lo : ℕ) (s : IndexTree) → Sprouts lo empty s (ok empty)
unfolding joined_in child_at
nothing-Sprouts lo s = (empty, refl, tt, tt, λ x cs. has_index-empty x cs)

leaf_sprouts : (s : IndexTree) → IsCompact s → Grown empty s (ok s)
unfolding joined
leaf_sprouts s v = (s, refl, v, λ cs. refl)

sprout_blocks-Sprouts :
    (t s : IndexTree) (lo : ℕ)
    → IsOrdered lo t
    → IsCompact t
    → IsCompact s
    → Sprouts lo t s (sprout_blocks s t)
unfolding sprouted is_empty sprout_blocks
sprout_blocks-Sprouts empty s lo o u v = nothing-Sprouts lo s
sprout_blocks-Sprouts (block i n empty r) s lo o u v =
    block-Sprouts lo i n empty r s o.0 (leaf_sprouts s v)
      (sprout_blocks-Sprouts r s (i + n) o.1 u.3 v)
sprout_blocks-Sprouts (block i n (block j m q k) r) s lo o u v =
    block-Sprouts lo i n (block j m q k) r s o.0
      (of_blocks-Grown 0 j m q k s (sprout_blocks s (block j m q k)) u.1 v
        (sprout_blocks-Sprouts (block j m q k) s 0 (IsCompact-IsOrdered (block j m q k) u.1) u.1 v))
      (sprout_blocks-Sprouts r s (i + n) o.1 u.3 v)

-- grow_leaves on a compact tree other than IndexTree() with a compact sprout returns a compact
-- tree. Its indexes are those that are made of an index of the tree and an index of the sprout
-- behind it.
pub grow_leaves-joined :
    (t s : IndexTree)
    → IsCompact t
    → IsCompact s
    → t ≢ empty
    → (c : IndexTree) × (grow_leaves t s ≡ ok c)
      × IsCompact c
      × ((cs : List ℕ) → has_index c cs ≡ joined t s cs)
unfolding grow_leaves
grow_leaves-joined empty s u v ne = absurd (ne refl)
grow_leaves-joined (block i n t r) s u v ne =
    of_blocks-Grown 0 i n t r s (sprout_blocks s (block i n t r)) u v
      (sprout_blocks-Sprouts (block i n t r) s 0 (IsCompact-IsOrdered (block i n t r) u) u v)
