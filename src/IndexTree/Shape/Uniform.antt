-- ===== src/IndexTree/Shape/Uniform.antt =====
-- A compact tree of which all indexes have one length has that rank.
use mathlib.Core.Option
use legms.Prelude.{
  ℕ, zero, suc, ◌+◌, ◌≡◌, refl, ap, sym, ◌∙◌, true, List, [], ◌∷◌, some, arith, Bool-cases, inl,
  inr, if_true, if_false,
}
use legms.IndexTree.Tree.{IndexTree, empty, block, covers}
use legms.IndexTree.Compact.Form.{IsCompact, IsCompact-IsOrdered_rest}
use legms.IndexTree.Compact.Canonical.{child_at_inside, child_at_below}
use legms.IndexTree.Compact.Indexes.{
  has_index, has_index-block, has_index-block_nil, has_index-some, has_index-none, has_index_exists,
}
use legms.IndexTree.Shape.{rank, same_rank, agree, is_leaf}
use legms.IndexTree.Shape.Rank.{AllOfLength, BlocksOfLength}

-- The same for the subtree of the first block and for the blocks after it.
first_child :
    (k i n : ℕ) (t r : IndexTree)
    → IsCompact (block i n t r)
    → BlocksOfLength k (block i n t r)
    → AllOfLength k t
first_child k i n t r u h cs e = h i cs (
    has_index-some (block i n t r) t i cs (child_at_inside i n t r i (omega arith) (omega arith))
    ∙ e)

other_blocks :
    (k i n : ℕ) (t r : IndexTree)
    → IsCompact (block i n t r)
    → BlocksOfLength k (block i n t r)
    → BlocksOfLength k r
other_blocks k i n t r u h x cs e = elim (Bool-cases (covers i n x)) [
  | inl inside ↦ cc (
      has_index-none r x cs
        (child_at_below (i + n) r x (IsCompact-IsOrdered_rest i n t r u) (ground arith)))
  | inr outside ↦ h x cs (
      has_index-block i n t r x cs
      ∙ if_false (covers i n x) (has_index t cs) (has_index r (x ∷ cs)) outside
      ∙ e)
]

leaf_length : (k : ℕ) → AllOfLength k empty → k ≡ 0
unfolding has_index
leaf_length k h = sym (h [] refl)

not_of_length_zero :
    (i n : ℕ) (t r : IndexTree) → IsCompact (block i n t r) → AllOfLength 0 (block i n t r) → ⊥
not_of_length_zero i n t r u h = none_at (has_index_exists (block i n t r) u)
  where
    none_at : (cs : List ℕ) × (has_index (block i n t r) cs ≡ true) → ⊥
    none_at ([], e) = cc (has_index-block_nil i n t r)
    none_at (x ∷ cs, e) = absurd (omega (arith, h (x ∷ cs) e))

suc_inj : {a b : ℕ} → suc a ≡ suc b → a ≡ b
suc_inj h = omega arith

leaf_child :
    (k i n : ℕ) (t r : IndexTree) → is_leaf (block i n t r) ≡ true → AllOfLength k t → k ≡ 0
unfolding is_leaf
leaf_child k i n empty r l h = leaf_length k h
leaf_child k i n (block j m s q) r l h = cc

agree_same : (k : ℕ) → agree (some k) (some k) ≡ some k
unfolding agree
agree_same k = ground arith

mutual
  unfolding rank

  pub AllOfLength-rank : (t : IndexTree) (k : ℕ) → IsCompact t → AllOfLength k t → rank t ≡ some k
  AllOfLength-rank empty k u h = ap some (sym (leaf_length k h))
  AllOfLength-rank (block i n t r) zero u h = absurd (not_of_length_zero i n t r u h)
  AllOfLength-rank (block i n t r) (suc k) u h =
      let sub : rank t ≡ some k =
        AllOfLength-rank t k u.1 (first_child k i n t r u (λ x cs e. suc_inj (h (x ∷ cs) e))) in
      let rest : same_rank (some k) r ≡ some k =
        same_rank-uniform r k u.3 (other_blocks k i n t r u (λ x cs e. suc_inj (h (x ∷ cs) e))) in
      elim (Bool-cases (is_leaf (block i n t r))) [
        | inl l ↦
            if_true (is_leaf (block i n t r)) _ _ l
            ∙ ap (λ (k : ℕ). some (suc k))
                (sym (
                  leaf_child k i n t r l
                    (first_child k i n t r u (λ x cs e. suc_inj (h (x ∷ cs) e)))))
        | inr l ↦
            if_false (is_leaf (block i n t r)) _ _ l
            ∙ ap (λ o. Option.map suc (same_rank o r)) sub
            ∙ ap (Option.map suc) rest
      ]

  same_rank-uniform :
      (r : IndexTree) (k : ℕ) → IsCompact r → BlocksOfLength k r → same_rank (some k) r ≡ some k
  same_rank-uniform empty k u h = refl
  same_rank-uniform (block i n t r) k u h =
      ap (λ o. same_rank (agree (some k) o) r)
        (AllOfLength-rank t k u.1 (first_child k i n t r u h))
      ∙ ap (λ o. same_rank o r) (agree_same k)
      ∙ same_rank-uniform r k u.3 (other_blocks k i n t r u h)
