-- ===== src/IndexTree/Grow/Pruned.antt =====
-- `pruned` cuts the paths of a tree at a length, and `height` is the length of its longest path.
use legms.Prelude.{
  ℕ, zero, suc, ◌+◌, ◌≤◌, max, ◌≡◌, refl, ap, ◌∙◌, true, ◌&&◌, List, [], ◌∷◌, if◌then◌else◌, Result,
  ok, ◌>>=◌, arith, Bool-cases, inl, inr, leb, length, if-of_true, if-of_false,
}
use legms.IndexTree.Tree.{IndexTree, empty, block, covers, IsOrdered}
use legms.IndexTree.Compact.{compact, of_blocks}
use legms.IndexTree.Compact.Form.{
  IsCompact, HasCompactChildren, compact_total, compact-IsCompact, IsCompact-IsOrdered,
}
use legms.IndexTree.Compact.Meaning.{child_at-compact}
use legms.IndexTree.Compact.Paths.{
  has_path, has_path-block, has_path-empty, has_path-nil, has_path-child_at,
}
use legms.IndexTree.Shape.{height, max_height, is_leaf}
use legms.IndexTree.Grow.{prune_blocks, pruned}

-- The length of the longest path.
pub depth : IndexTree → ℕ
depth empty = 0
depth (block i n t r) = max (suc (depth t)) (depth r)

-- The longest path below the children of a vector, as the height of the children goes.
leaf-depth : (r : IndexTree) → is_leaf r ≡ true → depth r ≤ 1
unfolding depth is_leaf
leaf-depth empty h = omega arith
leaf-depth (block i n empty r) h = omega (arith, leaf-depth r h)
leaf-depth (block i n (block j m s q) r) h = cc

mutual
  unfolding height depth

  depth-height : (t : IndexTree) → depth t ≤ suc (height t)
  depth-height empty = omega arith
  depth-height (block i n t r) = elim (Bool-cases (is_leaf (block i n t r))) [
    | inl k ↦
        if-of_true (λ (z : ℕ). max (suc (depth t)) (depth r) ≤ suc z) (is_leaf (block i n t r)) _ _
          k (leaf-depth (block i n t r) k)
    | inr k ↦
        if-of_false (λ (z : ℕ). max (suc (depth t)) (depth r) ≤ suc z) (is_leaf (block i n t r)) _ _
          k
          (omega (
            arith,
            depth-height t,
            depth-max_height r (max 0 (height t)),
            max_height-ge r (max 0 (height t)),
          ))
  ]

  depth-max_height : (r : IndexTree) (hmax : ℕ) → depth r ≤ suc (suc (max_height hmax r))
  depth-max_height empty hmax = omega arith
  depth-max_height (block i n t r) hmax = omega (
    arith,
    depth-height t,
    depth-max_height r (max hmax (height t)),
    max_height-ge r (max hmax (height t)),
  )

  max_height-ge : (r : IndexTree) (hmax : ℕ) → hmax ≤ max_height hmax r
  max_height-ge empty hmax = omega arith
  max_height-ge (block i n t r) hmax = omega (arith, max_height-ge r (max hmax (height t)))

has_path-depth : (t : IndexTree) (cs : List ℕ) → has_path t cs ≡ true → length cs ≤ depth t
unfolding depth
has_path-depth t [] h = omega arith
has_path-depth empty (x ∷ cs) h = cc (has_path-empty x cs)
has_path-depth (block i n t r) (x ∷ cs) h = elim (Bool-cases (covers i n x)) [
  | inl k ↦
      let below : has_path t cs ≡ true = ground (arith, has_path-block i n t r x cs) in
      omega (arith, has_path-depth t cs below)
  | inr k ↦
      let beside : has_path r (x ∷ cs) ≡ true = ground (arith, has_path-block i n t r x cs) in
      omega (arith, has_path-depth r (x ∷ cs) beside)
]

-- A path is at most one longer than the height of its tree.
pub length-height :
    (t : IndexTree) (cs : List ℕ) → has_path t cs ≡ true → length cs ≤ suc (height t)
length-height t cs h = omega (arith, depth-height t, has_path-depth t cs h)

abbrev CutVector : ℕ → ℕ → IndexTree → Result IndexTree → Type 0
CutVector lo h t res =
    (c : IndexTree) × (res ≡ ok c)
    × IsOrdered lo c
    × HasCompactChildren c
    × ((x : ℕ) (cs : List ℕ) → has_path c (x ∷ cs) ≡ (has_path t (x ∷ cs) && leb (length cs) h))

abbrev CutTree : ℕ → IndexTree → Result IndexTree → Type 0
CutTree h t res =
    (c : IndexTree) × (res ≡ ok c)
    × IsCompact c
    × ((cs : List ℕ) → has_path c cs ≡ (has_path t cs && leb (length cs) (suc h)))

of_blocks-CutTree :
    (lo h : ℕ) (t : IndexTree) (res : Result IndexTree)
    → CutVector lo h t res
    → CutTree h t (res >>= of_blocks)
unfolding of_blocks
of_blocks-CutTree lo h t res (newch, e, o, w, same) =
    let (c, compacted) = compact_total lo newch o in
    (c, rw e compacted, compact-IsCompact newch c w compacted, λ cs. at_path cs c compacted)
  where
    at_path :
        (cs : List ℕ) (c : IndexTree)
        → compact newch ≡ ok c
        → has_path c cs ≡ (has_path t cs && leb (length cs) (suc h))
    at_path [] c k = rw (has_path-nil c, has_path-nil t) (ground arith)
    at_path (x ∷ cs) c k =
        has_path-child_at c newch x cs (child_at-compact newch c x k)
        ∙ same x cs
        ∙ ap (λ b. has_path t (x ∷ cs) && b) (ground arith)

-- A tree that is not higher than the cut keeps its paths.
short-CutTree : (h : ℕ) (t : IndexTree) → IsCompact t → leb (height t) h ≡ true → CutTree h t (ok t)
short-CutTree h t u le = (t, refl, u, same)
  where
    same : (cs : List ℕ) → has_path t cs ≡ (has_path t cs && leb (length cs) (suc h))
    same cs = elim (Bool-cases (has_path t cs)) [
      | inl k ↦ rw k (ground (arith, length-height t cs k))
      | inr k ↦ rw k refl
    ]

block-CutVector :
    (lo h i n : ℕ) (t t' r : IndexTree) (res : Result IndexTree)
    → lo ≤ i
    → IsCompact t'
    → ((cs : List ℕ) → has_path t' cs ≡ (has_path t cs && leb (length cs) h))
    → CutVector (i + n) h r res
    → CutVector lo h (block i n t r) (res >>= λ r'. ok (block i n t' r'))
block-CutVector lo h i n t t' r res le ut same_t (r', er, o, w, same_r) = (
  block i n t' r',
  rw er,
  (le, o),
  (ut, w),
  λ x cs.
      has_path-block i n t' r' x cs
      ∙ ground (arith, same_t cs, same_r x cs, has_path-block i n t r x cs),
)

cut_to_leaf :
    (t : IndexTree) (cs : List ℕ) → has_path empty cs ≡ (has_path t cs && leb (length cs) 0)
cut_to_leaf t [] = rw (has_path-nil empty, has_path-nil t) refl
cut_to_leaf t (x ∷ cs) = rw (has_path-empty x cs) (ground arith)

-- The choice that pruned makes by the height of the tree.
cut_child :
    (h : ℕ) (t : IndexTree)
    → IsCompact t
    → CutVector 0 h t (prune_blocks h t)
    → CutTree h t (if leb (height t) h then ok t else (prune_blocks h t >>= of_blocks))
cut_child h t u cut = elim (Bool-cases (leb (height t) h)) [
  | inl k ↦ if-of_true (CutTree h t) (leb (height t) h) _ _ k (short-CutTree h t u k)
  | inr k ↦
      if-of_false (CutTree h t) (leb (height t) h) _ _ k
        (of_blocks-CutTree 0 h t (prune_blocks h t) cut)
]

prune_blocks-CutVector :
    (t : IndexTree) (h lo : ℕ) → IsOrdered lo t → IsCompact t → CutVector lo h t (prune_blocks h t)
unfolding prune_blocks
prune_blocks-CutVector empty h lo o u = (empty, refl, tt, tt, λ x cs. rw (has_path-empty x cs) refl)
prune_blocks-CutVector (block i n t r) zero lo o u =
    block-CutVector lo 0 i n t empty r (prune_blocks 0 r) o.0 tt (cut_to_leaf t)
      (prune_blocks-CutVector r 0 (i + n) o.1 u.3)
prune_blocks-CutVector (block i n t r) (suc h) lo o u =
    let (t', et, ut, same) =
      cut_child h t u.1 (prune_blocks-CutVector t h 0 (IsCompact-IsOrdered t u.1) u.1) in
    let (c, e, oc, w, cut) =
      block-CutVector lo (suc h) i n t t' r (prune_blocks (suc h) r) o.0 ut same
        (prune_blocks-CutVector r (suc h) (i + n) o.1 u.3) in
    (
      c,
      ap (λ m. m >>= λ t'. prune_blocks (suc h) r >>= λ r'. ok (block i n t' r')) et ∙ e,
      oc,
      w,
      cut,
    )

-- pruned on a compact tree returns a compact tree, which has the paths of the tree that are at most
-- one longer than the given height.
pub pruned-has_path :
    (h : ℕ) (t : IndexTree)
    → IsCompact t
    → (c : IndexTree) × (pruned h t ≡ ok c)
      × IsCompact c
      × ((cs : List ℕ) → has_path c cs ≡ (has_path t cs && leb (length cs) (suc h)))
unfolding pruned
pruned-has_path h t u = cut_child h t u (prune_blocks-CutVector t h 0 (IsCompact-IsOrdered t u) u)
