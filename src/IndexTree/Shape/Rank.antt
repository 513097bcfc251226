-- ===== src/IndexTree/Shape/Rank.antt =====
-- A tree that has a rank has indexes of that length only.
use mathlib.Core.Option
use legms.Prelude.{
  ℕ, suc, ◌≡◌, refl, ap, sym, ◌∙◌, subst, true, List, [], ◌∷◌, Option, none, some, arith, length,
  Bool-cases, inl, inr, if_true, if_false,
}
use legms.IndexTree.Tree.{IndexTree, empty, block}
use legms.IndexTree.Compact.Indexes.{
  has_index, has_index-block, has_index-empty, has_index-block_nil,
}
use legms.IndexTree.Shape.{rank, same_rank, agree, is_leaf}

pub some_inj : {a b : ℕ} → some a ≡ some b → a ≡ b
some_inj h = cc

-- Every index has the given length.
abbrev pub AllOfLength : ℕ → IndexTree → Type 0
AllOfLength k t = (cs : List ℕ) → has_index t cs ≡ true → length cs ≡ k

-- Every index of a vector of blocks is one longer than the given length.
abbrev pub BlocksOfLength : ℕ → IndexTree → Type 0
BlocksOfLength k r = (x : ℕ) (cs : List ℕ) → has_index r (x ∷ cs) ≡ true → length cs ≡ k

empty-AllOfLength : AllOfLength 0 empty
empty-AllOfLength [] h = refl
empty-AllOfLength (x ∷ cs) h = cc (has_index-empty x cs)

block-BlocksOfLength :
    (k i n : ℕ) (t r : IndexTree)
    → AllOfLength k t
    → BlocksOfLength k r
    → BlocksOfLength k (block i n t r)
block-BlocksOfLength k i n t r ht hr x cs h =
    ground (arith, has_index-block i n t r x cs, ht cs, hr x cs)

tree_of_blocks :
    (k i n : ℕ) (t r : IndexTree)
    → BlocksOfLength k (block i n t r)
    → AllOfLength (suc k) (block i n t r)
tree_of_blocks k i n t r h [] e = cc (has_index-block_nil i n t r)
tree_of_blocks k i n t r h (x ∷ cs) e = ap suc (h x cs e)

pub leaf-BlocksOfLength : (r : IndexTree) → is_leaf r ≡ true → BlocksOfLength 0 r
unfolding is_leaf
leaf-BlocksOfLength empty l x cs h = cc (has_index-empty x cs)
leaf-BlocksOfLength (block i n empty r) l x cs h =
    block-BlocksOfLength 0 i n empty r empty-AllOfLength (leaf-BlocksOfLength r l) x cs h
leaf-BlocksOfLength (block i n (block j m s q) r) l x cs h = cc

pub agree-some : (a b : Option ℕ) (k : ℕ) → agree a b ≡ some k → (a ≡ some k) × (b ≡ some k)
unfolding agree
agree-some none b k h = cc
agree-some (some a) none k h = cc
agree-some (some a) (some b) k h = ground arith

pub map-suc-some :
    (o : Option ℕ) (k : ℕ) → Option.map suc o ≡ some k → (j : ℕ) × (o ≡ some j) × (k ≡ suc j)
map-suc-some none k h = cc
map-suc-some (some j) k h = (j, refl, cc)

mutual
  unfolding rank

  rank-AllOfLength : (t : IndexTree) (k : ℕ) → rank t ≡ some k → AllOfLength k t
  rank-AllOfLength empty k h = subst (λ k. AllOfLength k empty) (cc) empty-AllOfLength
  rank-AllOfLength (block i n t r) k h = elim (Bool-cases (is_leaf (block i n t r))) [
    | inl l ↦
        subst (λ k. AllOfLength k (block i n t r))
          (some_inj (sym (if_true (is_leaf (block i n t r)) _ _ l) ∙ h))
          (tree_of_blocks 0 i n t r (leaf-BlocksOfLength (block i n t r) l))
    | inr l ↦
        let (j, e, k_eq) =
          map-suc-some (same_rank (rank t) r) k
            (sym (if_false (is_leaf (block i n t r)) _ _ l) ∙ h) in
        let sub = same_rank-some r (rank t) j e in
        subst (λ k. AllOfLength k (block i n t r)) (sym k_eq)
          (tree_of_blocks j i n t r
            (block-BlocksOfLength j i n t r (rank-AllOfLength t j sub.0) sub.1))
  ]

  same_rank-some :
      (r : IndexTree) (result : Option ℕ) (k : ℕ)
      → same_rank result r ≡ some k
      → (result ≡ some k) × BlocksOfLength k r
  same_rank-some empty result k h = (h, λ x cs e. cc (has_index-empty x cs))
  same_rank-some (block i n t r) result k h =
      let sub = same_rank-some r (agree result (rank t)) k h in
      let both = agree-some result (rank t) k sub.0 in
      (both.0, block-BlocksOfLength k i n t r (rank-AllOfLength t k both.1) sub.1)

-- If rank() of a tree has a value, then every index of the tree has that length.
pub rank-length :
    (t : IndexTree) (k : ℕ) (cs : List ℕ) → rank t ≡ some k → has_index t cs ≡ true → length cs ≡ k
rank-length t k cs h e = rank-AllOfLength t k h cs e
