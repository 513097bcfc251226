-- ===== src/IndexTree/Compact/Form.antt =====
-- The form that `compact` gives to a tree: no empty block, blocks in order, none overlapping, and
-- none adjacent to a block with an equal subtree.
use legms.Prelude.{
  ℕ, ◌+◌, ◌≤◌, ◌<◌, ◌≡◌, refl, false, ◌&&◌, inl, inr, arith, ◌==◌, ok, returned_first, sym, subst,
  ◌∙◌, ok-injective,
}
use legms.IndexTree.Tree.{IndexTree, empty, block, eq, IsOrdered}
use legms.IndexTree.Compact.{
  nonempty_blocks, insert_block, sort_blocks, merge_blocks, merge_sorted, compact,
}
use legms.IndexTree.Compact.Order.{
  IsPositive, merge_blocks_cases, merge_blocks-throws, merge_blocks-joins, merge_blocks-pushes,
  nonempty_blocks-IsPositive, nonempty_blocks-IsOrdered, nonempty_blocks_id, sort_blocks_id,
  merge_blocks_total,
}

-- The next block starts at the end of the block (i, n, t) or above, and cannot be joined to it.
abbrev pub Follows : ℕ → ℕ → IndexTree → IndexTree → Type 0
Follows i n t empty = Unit
Follows i n t (block j m s q) = (i + n ≤ j) × (((j == i + n) && eq t s) ≡ false)

abbrev pub IsCompact : IndexTree → Type 0
IsCompact empty = Unit
IsCompact (block i n t r) = (0 < n) × IsCompact t × Follows i n t r × IsCompact r

-- Every subtree of a vector of blocks has the form.
abbrev pub HasCompactChildren : IndexTree → Type 0
HasCompactChildren empty = Unit
HasCompactChildren (block i n t r) = IsCompact t × HasCompactChildren r

pub IsCompact-IsPositive : (r : IndexTree) → IsCompact r → IsPositive r
IsCompact-IsPositive empty h = tt
IsCompact-IsPositive (block i n t r) h = (h.0, IsCompact-IsPositive r h.3)

pub IsCompact-HasCompactChildren : (r : IndexTree) → IsCompact r → HasCompactChildren r
IsCompact-HasCompactChildren empty h = tt
IsCompact-HasCompactChildren (block i n t r) h = (h.1, IsCompact-HasCompactChildren r h.3)

Follows-IsOrdered :
    (i n : ℕ) (t r : IndexTree) → Follows i n t r → IsCompact r → IsOrdered (i + n) r
Follows-IsOrdered i n t empty f h = tt
Follows-IsOrdered i n t (block j m s q) f h = (f.0, Follows-IsOrdered j m s q h.2 h.3)

pub IsCompact-IsOrdered_rest :
    (i n : ℕ) (t r : IndexTree) → IsCompact (block i n t r) → IsOrdered (i + n) r
IsCompact-IsOrdered_rest i n t r h = Follows-IsOrdered i n t r h.2 h.3

pub IsCompact-IsOrdered : (r : IndexTree) → IsCompact r → IsOrdered 0 r
IsCompact-IsOrdered empty h = tt
IsCompact-IsOrdered (block i n t r) h = (omega arith, Follows-IsOrdered i n t r h.2 h.3)

nonempty_blocks-HasCompactChildren :
    (r : IndexTree) → HasCompactChildren r → HasCompactChildren (nonempty_blocks r)
unfolding nonempty_blocks
nonempty_blocks-HasCompactChildren empty h = tt
nonempty_blocks-HasCompactChildren (block i n t r) h =
    ground (arith, nonempty_blocks-HasCompactChildren r)

insert_block-IsPositive :
    (i n : ℕ) (t r : IndexTree) → 0 < n → IsPositive r → IsPositive (insert_block i n t r)
unfolding insert_block
insert_block-IsPositive i n t empty p h = (p, tt)
insert_block-IsPositive i n t (block j m s q) p h = ground (arith, insert_block-IsPositive i n t q)

sort_blocks-IsPositive : (r : IndexTree) → IsPositive r → IsPositive (sort_blocks r)
unfolding sort_blocks
sort_blocks-IsPositive empty h = tt
sort_blocks-IsPositive (block i n t r) h =
    insert_block-IsPositive i n t (sort_blocks r) h.0 (sort_blocks-IsPositive r h.1)

insert_block-HasCompactChildren :
    (i n : ℕ) (t r : IndexTree)
    → IsCompact t
    → HasCompactChildren r
    → HasCompactChildren (insert_block i n t r)
unfolding insert_block
insert_block-HasCompactChildren i n t empty p h = (p, tt)
insert_block-HasCompactChildren i n t (block j m s q) p h =
    ground (arith, insert_block-HasCompactChildren i n t q)

sort_blocks-HasCompactChildren :
    (r : IndexTree) → HasCompactChildren r → HasCompactChildren (sort_blocks r)
unfolding sort_blocks
sort_blocks-HasCompactChildren empty h = tt
sort_blocks-HasCompactChildren (block i n t r) h =
    insert_block-HasCompactChildren i n t (sort_blocks r) h.0 (sort_blocks-HasCompactChildren r h.1)

-- The first block of the result is the open one, at its start and with its subtree.
StartsWith : ℕ → IndexTree → IndexTree → Type 0
StartsWith i t empty = ⊥
StartsWith i t (block j m s q) = (j ≡ i) × (s ≡ t)

merge_blocks-StartsWith :
    (li ln : ℕ) (lt r c : IndexTree) → merge_blocks li ln lt r ≡ ok c → StartsWith li lt c
unfolding merge_blocks StartsWith
merge_blocks-StartsWith li ln lt empty c h = subst (StartsWith li lt) (ok-injective h) (refl, refl)
merge_blocks-StartsWith li ln lt (block i n t r) c h = elim (merge_blocks_cases li ln lt i n t r) [
  | inl k ↦ cc (merge_blocks-throws li ln lt i n t r k)
  | inr (inl k) ↦
      merge_blocks-StartsWith li (ln + n) lt r c
        (sym (merge_blocks-joins li ln lt i n t r k.0 k.1) ∙ h)
  | inr (inr k) ↦
      let sub =
        returned_first (merge_blocks i n t r) (λ d. ok (block li ln lt d))
          (sym (merge_blocks-pushes li ln lt i n t r k.0 k.1) ∙ h) in
      subst (StartsWith li lt) (ok-injective sub.2) (refl, refl)
]

Follows-StartsWith :
    (li ln : ℕ) (lt : IndexTree) (i : ℕ) (t c : IndexTree)
    → li + ln ≤ i
    → ((i == li + ln) && eq lt t) ≡ false
    → StartsWith i t c
    → Follows li ln lt c
unfolding StartsWith
Follows-StartsWith li ln lt i t empty h e s = tt
Follows-StartsWith li ln lt i t (block j m u q) h e s = rw (s.0, s.1) (h, e)

merge_blocks-IsCompact :
    (li ln : ℕ) (lt r c : IndexTree)
    → 0 < ln
    → IsCompact lt
    → IsPositive r
    → HasCompactChildren r
    → merge_blocks li ln lt r ≡ ok c
    → IsCompact c
unfolding merge_blocks
merge_blocks-IsCompact li ln lt empty c p w ps ws h =
    subst IsCompact (ok-injective h) (p, w, tt, tt)
merge_blocks-IsCompact li ln lt (block i n t r) c p w ps ws h =
    elim (merge_blocks_cases li ln lt i n t r) [
      | inl k ↦ cc (merge_blocks-throws li ln lt i n t r k)
      | inr (inl k) ↦
          merge_blocks-IsCompact li (ln + n) lt r c (omega arith) w ps.1 ws.1
            (sym (merge_blocks-joins li ln lt i n t r k.0 k.1) ∙ h)
      | inr (inr k) ↦
          let sub =
            returned_first (merge_blocks i n t r) (λ d. ok (block li ln lt d))
              (sym (merge_blocks-pushes li ln lt i n t r k.0 k.1) ∙ h) in
          let next =
            Follows-StartsWith li ln lt i t sub.0 k.0 k.1
              (merge_blocks-StartsWith i n t r sub.0 sub.1) in
          subst IsCompact (ok-injective sub.2)
            (p, w, next, merge_blocks-IsCompact i n t r sub.0 ps.0 ws.0 ps.1 ws.1 sub.1)
    ]

merge_sorted-IsCompact :
    (r c : IndexTree) → IsPositive r → HasCompactChildren r → merge_sorted r ≡ ok c → IsCompact c
unfolding merge_sorted
merge_sorted-IsCompact empty c ps ws h = subst IsCompact (ok-injective h) tt
merge_sorted-IsCompact (block i n t r) c ps ws h =
    merge_blocks-IsCompact i n t r c ps.0 ws.0 ps.1 ws.1 h

-- If compact does not throw on a vector of blocks whose subtrees are compact, in whatever order
-- the blocks stand, then the result is compact.
pub compact-IsCompact :
    (seq c : IndexTree) → HasCompactChildren seq → compact seq ≡ ok c → IsCompact c
unfolding compact
compact-IsCompact seq c ws h =
    let kept = nonempty_blocks seq in
    merge_sorted-IsCompact (sort_blocks kept) c
      (sort_blocks-IsPositive kept (nonempty_blocks-IsPositive seq))
      (sort_blocks-HasCompactChildren kept (nonempty_blocks-HasCompactChildren seq ws)) h

merge_blocks_id :
    (i n : ℕ) (t r : IndexTree)
    → IsCompact (block i n t r)
    → merge_blocks i n t r ≡ ok (block i n t r)
unfolding merge_blocks
merge_blocks_id i n t empty h = refl
merge_blocks_id i n t (block j m s q) h =
    merge_blocks-pushes i n t j m s q h.2.0 h.2.1 ∙ rw (merge_blocks_id j m s q h.3)

merge_sorted_id : (r : IndexTree) → IsCompact r → merge_sorted r ≡ ok r
unfolding merge_sorted
merge_sorted_id empty h = refl
merge_sorted_id (block i n t r) h = merge_blocks_id i n t r h

-- compact returns a compact tree as it is.
pub compact_id : (t : IndexTree) → IsCompact t → compact t ≡ ok t
unfolding compact
compact_id t h =
    rw
      (
        nonempty_blocks_id t (IsCompact-IsPositive t h),
        sort_blocks_id 0 t (IsCompact-IsOrdered t h),
      )
      (merge_sorted_id t h)

-- compact returns a tree, and does not throw, on blocks that stand in order and do not overlap,
-- with empty ones among them.
pub compact_total :
    (lo : ℕ) (seq : IndexTree) → IsOrdered lo seq → (c : IndexTree) × (compact seq ≡ ok c)
unfolding compact
compact_total lo seq o =
    let kept = nonempty_blocks-IsOrdered lo seq o in
    rw (sort_blocks_id lo (nonempty_blocks seq) kept)
      (merge_sorted_total (nonempty_blocks seq) kept)
  where
    merge_sorted_total :
        (r : IndexTree) → IsOrdered lo r → (c : IndexTree) × (merge_sorted r ≡ ok c)
    merge_sorted_total empty o = (empty, unfold merge_sorted in refl)
    merge_sorted_total (block i n t r) o = unfold merge_sorted in merge_blocks_total i n t r o.1
