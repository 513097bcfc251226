-- ===== src/IndexTree/Shape/Longest.antt =====
-- The height of a tree is the length of its longest index, less one.
use legms.Prelude.{
  ℕ, zero, suc, ◌+◌, ◌≤◌, max, ◌≡◌, refl, sym, ◌∙◌, subst, true, false, List, [], ◌∷◌, arith,
  length, Bool-cases, inl, inr, if_true, if_false,
}
use legms.IndexTree.Tree.{IndexTree, empty, block, covers}
use legms.IndexTree.Compact.Form.{IsCompact, IsCompact-IsOrdered_rest}
use legms.IndexTree.Compact.Canonical.{child_at_inside, child_at_below}
use legms.IndexTree.Compact.Indexes.{
  has_index, has_index-block, has_index-block_nil, has_index-empty, has_index-some, has_index-none,
  has_index_exists,
}
use legms.IndexTree.Shape.Rank.{leaf-BlocksOfLength}
use legms.IndexTree.Shape.{is_leaf, height, max_height}

-- No index is longer than the given length.
abbrev pub NoLonger : ℕ → IndexTree → Type 0
NoLonger k t = (cs : List ℕ) → has_index t cs ≡ true → length cs ≤ k

-- The same, of the indexes of blocks, without their first coordinate.
abbrev BlocksNoLonger : ℕ → IndexTree → Type 0
BlocksNoLonger k r = (x : ℕ) (cs : List ℕ) → has_index r (x ∷ cs) ≡ true → length cs ≤ k

first_child :
    (k i n : ℕ) (t r : IndexTree)
    → IsCompact (block i n t r)
    → BlocksNoLonger k (block i n t r)
    → NoLonger k t
first_child k i n t r u h cs e = h i cs (
    has_index-some (block i n t r) t i cs (child_at_inside i n t r i (omega arith) (omega arith))
    ∙ e)

other_blocks :
    (k i n : ℕ) (t r : IndexTree)
    → IsCompact (block i n t r)
    → BlocksNoLonger k (block i n t r)
    → BlocksNoLonger k r
other_blocks k i n t r u h x cs e = elim (Bool-cases (covers i n x)) [
  | inl inside ↦ cc (
      has_index-none r x cs
        (child_at_below (i + n) r x (IsCompact-IsOrdered_rest i n t r u) (ground arith)))
  | inr outside ↦ h x cs (
      has_index-block i n t r x cs
      ∙ if_false (covers i n x) (has_index t cs) (has_index r (x ∷ cs)) outside
      ∙ e)
]

NoLonger-child :
    (k i n : ℕ) (t r : IndexTree)
    → NoLonger (suc k) (block i n t r)
    → BlocksNoLonger k (block i n t r)
NoLonger-child k i n t r h x cs e = omega (arith, h (x ∷ cs) e)

not_zero : (i n : ℕ) (t r : IndexTree) → IsCompact (block i n t r) → NoLonger 0 (block i n t r) → ⊥
not_zero i n t r u h = at (has_index_exists (block i n t r) u)
  where
    at : (cs : List ℕ) × (has_index (block i n t r) cs ≡ true) → ⊥
    at ([], e) = cc (has_index-block_nil i n t r)
    at (x ∷ cs, e) = absurd (omega (arith, h (x ∷ cs) e))

BlocksNoLonger-is_leaf : (r : IndexTree) → IsCompact r → BlocksNoLonger 0 r → is_leaf r ≡ true
unfolding is_leaf
BlocksNoLonger-is_leaf empty u h = refl
BlocksNoLonger-is_leaf (block i n empty r) u h =
    BlocksNoLonger-is_leaf r u.3 (other_blocks 0 i n empty r u h)
BlocksNoLonger-is_leaf (block i n (block j m s q) r) u h =
    absurd (not_zero j m s q u.1 (first_child 0 i n (block j m s q) r u h))

mutual
  unfolding height

  height_le : (t : IndexTree) (k : ℕ) → IsCompact t → NoLonger (suc k) t → height t ≤ k
  height_le empty k u h = omega arith
  height_le (block i n t r) zero u h =
      subst (λ (k : ℕ). k ≤ 0)
        (sym (
          if_true (is_leaf (block i n t r)) 0 (1 + max_height (max 0 (height t)) r)
            (BlocksNoLonger-is_leaf (block i n t r) u (NoLonger-child 0 i n t r h))))
        (omega arith)
  height_le (block i n t r) (suc k) u h = elim (Bool-cases (is_leaf (block i n t r))) [
    | inl l ↦
        subst (λ (j : ℕ). j ≤ suc k)
          (sym (if_true (is_leaf (block i n t r)) 0 (1 + max_height (max 0 (height t)) r) l))
          (omega arith)
    | inr l ↦
        subst (λ (j : ℕ). j ≤ suc k)
          (sym (if_false (is_leaf (block i n t r)) 0 (1 + max_height (max 0 (height t)) r) l))
          (omega (
            arith,
            max_height_le r (max 0 (height t)) k u.3
                (omega (
                  arith,
                  height_le t k u.1
                      (first_child (suc k) i n t r u (NoLonger-child (suc k) i n t r h)),
                ))
                (other_blocks (suc k) i n t r u (NoLonger-child (suc k) i n t r h)),
          ))
  ]

  max_height_le :
      (r : IndexTree) (m k : ℕ)
      → IsCompact r
      → m ≤ k
      → BlocksNoLonger (suc k) r
      → max_height m r ≤ k
  max_height_le empty m k u le h = le
  max_height_le (block i n t r) m k u le h =
      max_height_le r (max m (height t)) k u.3
        (omega (arith, height_le t k u.1 (first_child (suc k) i n t r u h)))
        (other_blocks (suc k) i n t r u h)

in_first :
    (i n : ℕ) (t r : IndexTree) (x : ℕ) (cs : List ℕ)
    → covers i n x ≡ true
    → has_index (block i n t r) (x ∷ cs) ≡ true
    → has_index t cs ≡ true
in_first i n t r x cs inside e =
    sym (if_true (covers i n x) (has_index t cs) (has_index r (x ∷ cs)) inside)
    ∙ sym (has_index-block i n t r x cs)
    ∙ e

in_rest :
    (i n : ℕ) (t r : IndexTree) (x : ℕ) (cs : List ℕ)
    → covers i n x ≡ false
    → has_index (block i n t r) (x ∷ cs) ≡ true
    → has_index r (x ∷ cs) ≡ true
in_rest i n t r x cs outside e =
    sym (if_false (covers i n x) (has_index t cs) (has_index r (x ∷ cs)) outside)
    ∙ sym (has_index-block i n t r x cs)
    ∙ e

max_height_grows : (r : IndexTree) (m : ℕ) → m ≤ max_height m r
unfolding height
max_height_grows empty m = omega arith
max_height_grows (block i n t r) m = omega (arith, max_height_grows r (max m (height t)))

mutual
  unfolding height

  length-height : (t : IndexTree) → NoLonger (suc (height t)) t
  length-height empty [] e = omega arith
  length-height empty (x ∷ cs) e = cc (has_index-empty x cs)
  length-height (block i n t r) [] e = omega arith
  length-height (block i n t r) (x ∷ cs) e = elim (Bool-cases (is_leaf (block i n t r))) [
    | inl l ↦ omega (arith, leaf-BlocksOfLength (block i n t r) l x cs e)
    | inr l ↦
        subst (λ (j : ℕ). suc (length cs) ≤ suc j)
          (sym (if_false (is_leaf (block i n t r)) 0 (1 + max_height (max 0 (height t)) r) l))
          (elim (Bool-cases (covers i n x)) [
            | inl inside ↦ omega (
              arith,
              length-height t cs (in_first i n t r x cs inside e),
              max_height_grows r (max 0 (height t)),
            )
            | inr outside ↦ omega (
              arith,
              length-max_height r (max 0 (height t)) x cs (in_rest i n t r x cs outside e),
            )
          ])
  ]

  length-max_height : (r : IndexTree) (m : ℕ) → BlocksNoLonger (suc (max_height m r)) r
  length-max_height empty m x cs e = cc (has_index-empty x cs)
  length-max_height (block i n t r) m x cs e = elim (Bool-cases (covers i n x)) [
    | inl inside ↦ omega (
      arith,
      length-height t cs (in_first i n t r x cs inside e),
      max_height_grows r (max m (height t)),
    )
    | inr outside ↦ length-max_height r (max m (height t)) x cs (in_rest i n t r x cs outside e)
  ]

-- A compact tree without indexes longer than `k + 1`, of which one index has that length, has the
-- height k.
pub height_exact :
    (t : IndexTree) (k : ℕ) (cs : List ℕ)
    → IsCompact t
    → NoLonger (suc k) t
    → has_index t cs ≡ true
    → length cs ≡ suc k
    → height t ≡ k
height_exact t k cs u h e l = omega (arith, height_le t k u h, length-height t cs e)
