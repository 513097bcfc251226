-- ===== src/IndexTree/Compact/Order.antt =====
-- Blocks in order: what sorting and filtering do to them, and when `merge_blocks` throws.
use legms.Prelude.{
  ℕ, ◌+◌, ◌≤◌, ◌<◌, ◌≡◌, refl, Bool, true, false, ◌&&◌, ◌⊎◌, inl, inr, arith, ltb, ◌==◌, Bool-cases,
  ok, throws, ◌>>=◌, ltb→lt, ltb→le, returned_first, sym, subst, ◌∙◌,
}
use legms.IndexTree.Tree.{IndexTree, empty, block, eq, eq_sound, eq_refl, IsOrdered}
use legms.IndexTree.Compact.{nonempty_blocks, insert_block, sort_blocks, merge_blocks}

-- Every block has a positive count.
abbrev pub IsPositive : IndexTree → Type 0
IsPositive empty = Unit
IsPositive (block i n t r) = (0 < n) × IsPositive r

pub IsOrdered-weaken : (lo lo' : ℕ) (r : IndexTree) → lo' ≤ lo → IsOrdered lo r → IsOrdered lo' r
IsOrdered-weaken lo lo' empty h o = tt
IsOrdered-weaken lo lo' (block i n t r) h o = (omega arith, o.1)

pub nonempty_blocks-IsPositive : (r : IndexTree) → IsPositive (nonempty_blocks r)
unfolding nonempty_blocks
nonempty_blocks-IsPositive empty = tt
nonempty_blocks-IsPositive (block i n t r) = ground (arith, nonempty_blocks-IsPositive r)

pub nonempty_blocks-IsOrdered :
    (lo : ℕ) (r : IndexTree) → IsOrdered lo r → IsOrdered lo (nonempty_blocks r)
unfolding nonempty_blocks
nonempty_blocks-IsOrdered lo empty o = tt
nonempty_blocks-IsOrdered lo (block i n t r) o = elim (Bool-cases (ltb 0 n)) [
  | inl e ↦ rw e (o.0, nonempty_blocks-IsOrdered (i + n) r o.1)
  | inr e ↦ rw e (
      IsOrdered-weaken (i + n) lo (nonempty_blocks r) (omega arith)
        (nonempty_blocks-IsOrdered (i + n) r o.1))
]

pub nonempty_blocks_id : (r : IndexTree) → IsPositive r → nonempty_blocks r ≡ r
unfolding nonempty_blocks
nonempty_blocks_id empty h = refl
nonempty_blocks_id (block i n t r) h = ground (arith, nonempty_blocks_id r)

insert_block_first :
    (lo i n : ℕ) (t r : IndexTree) → i ≤ lo → IsOrdered lo r → insert_block i n t r ≡ block i n t r
unfolding insert_block
insert_block_first lo i n t empty h o = refl
insert_block_first lo i n t (block j m s q) h o = ground arith

-- Sorting leaves ordered blocks as they are.
pub sort_blocks_id : (lo : ℕ) (r : IndexTree) → IsOrdered lo r → sort_blocks r ≡ r
unfolding sort_blocks
sort_blocks_id lo empty o = refl
sort_blocks_id lo (block i n t r) o =
    rw (sort_blocks_id (i + n) r o.1) (insert_block_first (i + n) i n t r (omega arith) o.1)

-- The three branches of `merge_blocks`, by the start of the next block.
module _ (li ln : ℕ) (lt : IndexTree) (i n : ℕ) (t r : IndexTree) where
  abbrev pub joins_last : Bool
  joins_last = (i == li + ln) && eq lt t

  pub merge_blocks_cases :
      (i < li + ln) ⊎ (((i ≡ li + ln) × (lt ≡ t)) ⊎ ((li + ln ≤ i) × (joins_last ≡ false)))
  merge_blocks_cases = elim (Bool-cases (ltb i (li + ln))) [
    | inl e ↦ inl (ltb→lt i (li + ln) e)
    | inr e ↦ elim (Bool-cases joins_last) [
      | inl j ↦ inr (inl (ground arith, eq_sound lt t (ground arith)))
      | inr j ↦ inr (inr (ltb→le i (li + ln) e, j))
    ]
  ]

  pub merge_blocks-throws : i < li + ln → merge_blocks li ln lt (block i n t r) ≡ throws
  unfolding merge_blocks
  merge_blocks-throws h = ground arith

  pub merge_blocks-joins :
      i ≡ li + ln → lt ≡ t → merge_blocks li ln lt (block i n t r) ≡ merge_blocks li (ln + n) lt r
  unfolding merge_blocks
  merge_blocks-joins h e = ground (arith, subst (λ u. eq lt u ≡ true) e (eq_refl lt))

  pub merge_blocks-pushes :
      li + ln ≤ i
      → joins_last ≡ false
      → merge_blocks li ln lt (block i n t r)
        ≡ (merge_blocks i n t r >>= λ c. ok (block li ln lt c))
  unfolding merge_blocks
  merge_blocks-pushes h e = ground arith

-- `merge_blocks` returns a result on ordered blocks.
pub merge_blocks_total :
    (li ln : ℕ) (lt r : IndexTree)
    → IsOrdered (li + ln) r
    → (c : IndexTree) × (merge_blocks li ln lt r ≡ ok c)
unfolding merge_blocks
merge_blocks_total li ln lt empty o = (block li ln lt empty, refl)
merge_blocks_total li ln lt (block i n t r) o = elim (merge_blocks_cases li ln lt i n t r) [
  | inl h ↦ absurd (omega arith)
  | inr (inl h) ↦
      let sub =
        merge_blocks_total li (ln + n) lt r
          (IsOrdered-weaken (i + n) (li + (ln + n)) r (omega arith) o.1) in
      (sub.0, merge_blocks-joins li ln lt i n t r h.0 h.1 ∙ sub.1)
  | inr (inr h) ↦
      let sub = merge_blocks_total i n t r o.1 in
      (block li ln lt sub.0, merge_blocks-pushes li ln lt i n t r h.0 h.1 ∙ rw sub.1)
]

-- And on no others.
pub merge_blocks-IsOrdered :
    (li ln : ℕ) (lt r c : IndexTree) → merge_blocks li ln lt r ≡ ok c → IsOrdered (li + ln) r
merge_blocks-IsOrdered li ln lt empty c h = tt
merge_blocks-IsOrdered li ln lt (block i n t r) c h = elim (merge_blocks_cases li ln lt i n t r) [
  | inl k ↦ cc (merge_blocks-throws li ln lt i n t r k)
  | inr (inl k) ↦ (
    omega arith,
    IsOrdered-weaken (li + (ln + n)) (i + n) r (omega arith) (
        merge_blocks-IsOrdered li (ln + n) lt r c
          (sym (merge_blocks-joins li ln lt i n t r k.0 k.1) ∙ h)),
  )
  | inr (inr k) ↦
      let sub =
        returned_first (merge_blocks i n t r) (λ d. ok (block li ln lt d))
          (sym (merge_blocks-pushes li ln lt i n t r k.0 k.1) ∙ h) in
      (k.0, merge_blocks-IsOrdered i n t r sub.0 sub.1)
]
