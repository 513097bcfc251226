-- ===== src/TreeSpace/Ranks.antt =====
-- The blocks of a tree that has a rank: all of them are leaves, or all have subtrees of one rank.
use legms.Prelude.{
  ℕ, zero, suc, ◌≡◌, refl, sym, ◌∙◌, ◌⊎◌, inl, inr, true, false, Option, some, Bool-cases, if_true,
  if_false, arith,
}
use legms.IndexTree.Tree.{IndexTree, empty, block, is_empty}
use legms.IndexTree.Shape.{rank, same_rank, agree, is_leaf}
use legms.IndexTree.Shape.Rank.{agree-some, some_inj, map-suc-some}

-- The subtrees of all blocks have a rank.
abbrev pub AllRank : ℕ → IndexTree → Type 0
AllRank k empty = Unit
AllRank k (block i n t r) = (rank t ≡ some k) × AllRank k r

same_rank-AllRank :
    (r : IndexTree) (result : Option ℕ) (k : ℕ)
    → same_rank result r ≡ some k
    → (result ≡ some k) × AllRank k r
unfolding rank
same_rank-AllRank empty result k h = (h, tt)
same_rank-AllRank (block i n t r) result k h =
    let (both, rest) = same_rank-AllRank r (agree result (rank t)) k h in
    let (first, second) = agree-some result (rank t) k both in (first, (second, rest))

pub rank_zero : (t : IndexTree) → rank t ≡ some 0 → t ≡ empty
unfolding rank
rank_zero empty h = refl
rank_zero (block i n t r) h = elim (Bool-cases (is_leaf (block i n t r))) [
  | inl l ↦
      let one : some 1 ≡ some 0 = sym (if_true (is_leaf (block i n t r)) _ _ l) ∙ h in
      absurd (omega (arith, some_inj one))
  | inr l ↦
      let (j, e, bad) =
        map-suc-some (same_rank (rank t) r) 0
          (sym (if_false (is_leaf (block i n t r)) _ _ l) ∙ h) in
      absurd (omega arith)
]

leaf_of_zero : (r : IndexTree) → AllRank 0 r → is_leaf r ≡ true
unfolding is_leaf is_empty
leaf_of_zero empty h = refl
leaf_of_zero (block i n t r) (h, hs) = rw (rank_zero t h) (leaf_of_zero r hs)

not_leaf :
    (i n : ℕ) (t r : IndexTree) (j k : ℕ)
    → is_leaf (block i n t r) ≡ false
    → k ≡ j
    → AllRank j (block i n t r)
    → (l : ℕ) × (k ≡ suc l) × AllRank (suc l) (block i n t r)
not_leaf i n t r zero k l e all = absurd (cc (leaf_of_zero (block i n t r) all))
not_leaf i n t r (suc j) k l e all = (j, e, all)

pub rank_cases :
    (i n : ℕ) (t r : IndexTree) (k : ℕ)
    → rank (block i n t r) ≡ some (suc k)
    → ((k ≡ 0) × (is_leaf (block i n t r) ≡ true))
      ⊎ ((j : ℕ) × (k ≡ suc j) × AllRank (suc j) (block i n t r))
unfolding rank
rank_cases i n t r k h = elim (Bool-cases (is_leaf (block i n t r))) [
  | inl l ↦
      let one : some 1 ≡ some (suc k) = sym (if_true (is_leaf (block i n t r)) _ _ l) ∙ h in
      inl (omega (arith, some_inj one), l)
  | inr l ↦
      let (j, e, k_eq) =
        map-suc-some (same_rank (rank t) r) (suc k)
          (sym (if_false (is_leaf (block i n t r)) _ _ l) ∙ h) in
      let both = same_rank-AllRank r (rank t) j e in inr (not_leaf i n t r j k l (omega arith) both)
]
