-- ===== src/IndexTree/Compact/Meaning.antt =====
-- `compact` keeps what a vector of blocks denotes: the subtree at each coordinate.
use legms.Prelude.{
  ℕ, ◌+◌, ◌≤◌, ◌≡◌, refl, ap, inl, inr, arith, leb, if◌then◌else◌, Bool-cases, ok, returned_first,
  sym, ◌∙◌, some, ok-injective,
}
use legms.IndexTree.Tree.{IndexTree, empty, block, IsOrdered, child_at, covers}
use legms.IndexTree.Compact.{
  nonempty_blocks, insert_block, sort_blocks, merge_blocks, merge_sorted, compact,
}
use legms.IndexTree.Compact.Order.{
  merge_blocks_cases, merge_blocks-throws, merge_blocks-joins, merge_blocks-pushes,
  merge_blocks-IsOrdered,
}

child_at-nonempty_blocks : (r : IndexTree) (x : ℕ) → child_at (nonempty_blocks r) x ≡ child_at r x
unfolding child_at nonempty_blocks
child_at-nonempty_blocks empty x = refl
child_at-nonempty_blocks (block i n t r) x = ground (arith, child_at-nonempty_blocks r x)

insert_block-IsOrdered_start :
    (lo i n : ℕ) (t r : IndexTree) → IsOrdered lo (insert_block i n t r) → lo ≤ i
unfolding insert_block
insert_block-IsOrdered_start lo i n t empty o = o.0
insert_block-IsOrdered_start lo i n t (block j m s q) o = elim (Bool-cases (leb i j)) [
  | inl e ↦ ground arith
  | inr e ↦ ground arith
]

insert_block-IsOrdered_rest :
    (lo i n : ℕ) (t r : IndexTree) → IsOrdered lo (insert_block i n t r) → IsOrdered lo r
unfolding insert_block
insert_block-IsOrdered_rest lo i n t empty o = tt
insert_block-IsOrdered_rest lo i n t (block j m s q) o =
    ground (arith, insert_block-IsOrdered_rest (j + m) i n t q)

-- A block that does not overlap the others can be looked up first.
child_at-insert_block :
    (lo i n : ℕ) (t r : IndexTree) (x : ℕ)
    → IsOrdered lo (insert_block i n t r)
    → child_at (insert_block i n t r) x ≡ child_at (block i n t r) x
unfolding child_at insert_block
child_at-insert_block lo i n t empty x o = refl
child_at-insert_block lo i n t (block j m s q) x o =
    ground
      (arith, child_at-insert_block (j + m) i n t q x, insert_block-IsOrdered_start (j + m) i n t q)

pub child_at-block :
    (i n : ℕ) (t a b : IndexTree) (x : ℕ)
    → child_at a x ≡ child_at b x
    → child_at (block i n t a) x ≡ child_at (block i n t b) x
unfolding child_at
child_at-block i n t a b x h = ap (λ o. if covers i n x then some t else o) h

child_at-sort_blocks :
    (r : IndexTree) (lo x : ℕ)
    → IsOrdered lo (sort_blocks r)
    → child_at (sort_blocks r) x ≡ child_at r x
unfolding child_at sort_blocks
child_at-sort_blocks empty lo x o = refl
child_at-sort_blocks (block i n t r) lo x o =
    child_at-insert_block lo i n t (sort_blocks r) x o
    ∙ child_at-block i n t (sort_blocks r) r x
        (child_at-sort_blocks r lo x (insert_block-IsOrdered_rest lo i n t (sort_blocks r) o))

child_at_join :
    (li ln n : ℕ) (t r : IndexTree) (x : ℕ)
    → child_at (block li (ln + n) t r) x ≡ child_at (block li ln t (block (li + ln) n t r)) x
unfolding child_at
child_at_join li ln n t r x = ground arith

pub child_at-merge_blocks :
    (li ln : ℕ) (lt r c : IndexTree) (x : ℕ)
    → merge_blocks li ln lt r ≡ ok c
    → child_at c x ≡ child_at (block li ln lt r) x
unfolding merge_blocks
child_at-merge_blocks li ln lt empty c x h = ap (λ d. child_at d x) (ok-injective (sym h))
child_at-merge_blocks li ln lt (block i n t r) c x h = elim (merge_blocks_cases li ln lt i n t r) [
  | inl k ↦ cc (merge_blocks-throws li ln lt i n t r k)
  | inr (inl k) ↦
      child_at-merge_blocks li (ln + n) lt r c x
        (sym (merge_blocks-joins li ln lt i n t r k.0 k.1) ∙ h)
      ∙ child_at_join li ln n lt r x
      ∙ rw (k.0, k.1)
  | inr (inr k) ↦
      let sub =
        returned_first (merge_blocks i n t r) (λ d. ok (block li ln lt d))
          (sym (merge_blocks-pushes li ln lt i n t r k.0 k.1) ∙ h) in
      rw (← ok-injective sub.2) (
        child_at-block li ln lt sub.0 (block i n t r) x
          (child_at-merge_blocks i n t r sub.0 x sub.1))
]

child_at-merge_sorted :
    (r c : IndexTree) (x : ℕ)
    → merge_sorted r ≡ ok c
    → IsOrdered 0 r × (child_at c x ≡ child_at r x)
unfolding merge_sorted
child_at-merge_sorted empty c x h = (tt, ap (λ d. child_at d x) (ok-injective (sym h)))
child_at-merge_sorted (block i n t r) c x h =
    ((omega arith, merge_blocks-IsOrdered i n t r c h), child_at-merge_blocks i n t r c x h)

-- If compact does not throw, its result denotes at every coordinate the subtree that the given
-- blocks denote there, in whatever order the blocks stand.
pub child_at-compact :
    (seq c : IndexTree) (x : ℕ) → compact seq ≡ ok c → child_at c x ≡ child_at seq x
unfolding compact
child_at-compact seq c x h =
    let kept = nonempty_blocks seq in
    let merged = child_at-merge_sorted (sort_blocks kept) c x h in
    merged.1 ∙ child_at-sort_blocks kept 0 x merged.0 ∙ child_at-nonempty_blocks seq x
