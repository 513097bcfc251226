-- ===== src/IndexTree/Merge/Apart.antt =====
-- Merging a tree with one block that stands at a coordinate where the tree has none.
use legms.Prelude.{
  ℕ, ◌≡◌, ◌≢◌, refl, Bool, ap, sym, ◌∙◌, true, false, ◌||◌, List, [], ◌∷◌, none, some, arith, ok,
  Option-cases, inl, inr,
}
use legms.IndexTree.Tree.{IndexTree, empty, block, child_at}
use legms.IndexTree.Compact.Form.{IsCompact}
use legms.IndexTree.Compact.Canonical.{child_at-IsCompact, child_at_inside}
use legms.IndexTree.Compact.Paths.{
  has_path, has_path-nil, has_path-some, has_path-none, SamePaths-eq,
}
use legms.IndexTree.Merge.{merge}
use legms.IndexTree.Merge.Union.{merge-Unites}

-- Compact trees with the same paths below a coordinate have the same subtree there.
SamePaths-child_at :
    (a b : IndexTree) (x : ℕ)
    → IsCompact a
    → IsCompact b
    → ((cs : List ℕ) → has_path a (x ∷ cs) ≡ has_path b (x ∷ cs))
    → child_at a x ≡ child_at b x
SamePaths-child_at a b x u v same = elim (Option-cases (child_at a x)) [
  | inl ea ↦ elim (Option-cases (child_at b x)) [
    | inl eb ↦ ea ∙ sym eb
    | inr (s, eb) ↦ cc (same [], has_path-none a x [] ea, has_path-some b s x [] eb, has_path-nil s)
  ]
  | inr (t, ea) ↦ elim (Option-cases (child_at b x)) [
    | inl eb ↦ cc (same [], has_path-none b x [] eb, has_path-some a t x [] ea, has_path-nil t)
    | inr (s, eb) ↦
        ea
        ∙ ap some (
            SamePaths-eq t s (child_at-IsCompact a x t u ea) (child_at-IsCompact b x s v eb)
              (λ cs. sym (has_path-some a t x cs ea) ∙ same cs ∙ has_path-some b s x cs eb))
        ∙ sym eb
  ]
]

one_block-IsCompact : (c : ℕ) (s : IndexTree) → IsCompact s → IsCompact (block c 1 s empty)
one_block-IsCompact c s u = (omega arith, u, tt, tt)

one_block_here : (c : ℕ) (s : IndexTree) → child_at (block c 1 s empty) c ≡ some s
one_block_here c s = child_at_inside c 1 s empty c (omega arith) (omega arith)

one_block_elsewhere :
    (c : ℕ) (s : IndexTree) (x : ℕ) → x ≢ c → child_at (block c 1 s empty) x ≡ none
unfolding child_at
one_block_elsewhere c s x ne = ground arith

or_false : (a b : Bool) → b ≡ false → (a || b) ≡ a
or_false true b h = refl
or_false false b h = h

false_or : (a b : Bool) → a ≡ false → (a || b) ≡ b
false_or a b h = rw h refl

-- The block is put beside the blocks of the tree.
pub merge-block :
    (t : IndexTree) (c : ℕ) (s : IndexTree)
    → IsCompact t
    → IsCompact s
    → child_at t c ≡ none
    → (r : IndexTree) × (merge t (block c 1 s empty) ≡ ok r)
      × IsCompact r
      × (child_at r c ≡ some s)
      × ((x : ℕ) → x ≢ c → child_at r x ≡ child_at t x)
merge-block t c s u w free =
    let (r, merged, v, paths) = merge-Unites t (block c 1 s empty) u (one_block-IsCompact c s w) in
    (
      r,
      merged,
      v,
      SamePaths-child_at r (block c 1 s empty) c v (one_block-IsCompact c s w)
            (λ cs. paths (c ∷ cs) ∙ false_or _ _ (has_path-none t c cs free))
          ∙ one_block_here c s,
      λ x ne. SamePaths-child_at r t x v u (λ cs.
          paths (x ∷ cs)
          ∙ or_false _ _ (has_path-none (block c 1 s empty) x cs (one_block_elsewhere c s x ne))),
    )
