-- ===== src/TreeSpace/Space.antt =====
-- The index space of a tree has the tree's indexes.
use legms.Prelude.{
  ℕ, suc, ◌≤◌, ◌<◌, ltb, ◌≡◌, refl, ap, sym, ◌∙◌, subst, inl, inr, true, false, ◌&&◌, List, [], ◌∷◌,
  map, some, if_true, arith, Result, ok,
}
use legms.IndexTree.Tree.{IndexTree, empty, block, is_empty}
use legms.IndexTree.Compact.Form.{IsCompact}
use legms.IndexTree.Compact.Indexes.{has_index, has_index-empty, has_index-block_nil}
use legms.IndexTree.Shape.{rank, is_leaf}
use legms.TreeSpace.Task.{
  Box, Space, interval, leaf_rects, starts_with_leaf, same_dims, base_rects, base_impl, dispatch,
  run_task, child_spaces, tree_index_space,
}
use legms.TreeSpace.Rects.{
  in_boxes, in_interval-interval, in_boxes-append, in_boxes-map, in_boxes-map_nil,
}
use legms.TreeSpace.Ranks.{AllRank, rank_cases}
use legms.TreeSpace.Leaves.{
  has_index_or, leaf_points, leaf_nil, HasIndexes, Matches, same_dims-Matches,
}

leaf_starts :
    (i n : ℕ) (t r : IndexTree)
    → is_leaf (block i n t r) ≡ true
    → starts_with_leaf (block i n t r) ≡ true
unfolding is_leaf starts_with_leaf
leaf_starts i n t r l = ground arith

module _ (max_dim : ℕ) (rects_of : List Box → List Box)
    (same_points : (boxes : List Box) (v : List ℕ)
      → in_boxes (rects_of boxes) v ≡ in_boxes boxes v) where
  base_points :
      (d : ℕ) (r : IndexTree) (spaces : List Space) (x : ℕ) (cs : List ℕ)
      → IsCompact r
      → Matches d r spaces
      → in_boxes (base_rects max_dim rects_of r spaces) (x ∷ cs) ≡ has_index r (x ∷ cs)
  unfolding base_rects in_boxes
  base_points d empty spaces x cs h m = sym (has_index-empty x cs)
  base_points d (block i n t r) [] x cs h m = absurd m
  base_points d (block i n t r) (s ∷ spaces) x cs h ((dim, points), m) =
      in_boxes-append (map (λ rid. interval i n ∷ rid) (rects_of s.rects)) _ (x ∷ cs)
      ∙ rw
          (
            in_boxes-map (interval i n) (rects_of s.rects) x cs,
            in_interval-interval i n x h.0,
            same_points s.rects cs,
            points cs,
            base_points d r spaces x cs h.3 m,
          )
          (sym (has_index_or i n t r x cs h))

  base_nil :
      (r : IndexTree) (spaces : List Space)
      → in_boxes (base_rects max_dim rects_of r spaces) [] ≡ false
  unfolding base_rects in_boxes
  base_nil empty spaces = refl
  base_nil (block i n t r) [] = refl
  base_nil (block i n t r) (s ∷ spaces) =
      in_boxes-append (map (λ rid. interval i n ∷ rid) (rects_of s.rects)) _ []
      ∙ rw (in_boxes-map_nil (interval i n) (rects_of s.rects), base_nil r spaces) refl

  -- A task returns a space with the indexes of a tree.
  abbrev Builds : ℕ → IndexTree → Result Space → Type 0
  Builds d t result = (s : Space) × (result ≡ ok s) × HasIndexes d t s

  abbrev BuildsAll : ℕ → IndexTree → Result (List Space) → Type 0
  BuildsAll d r result = (spaces : List Space) × (result ≡ ok spaces) × Matches d r spaces

  base-Builds :
      (d i n : ℕ) (t r : IndexTree) (spaces : List Space)
      → IsCompact (block i n t r)
      → 1 ≤ d
      → d < max_dim
      → Matches d (block i n t r) spaces
      → Builds (suc d) (block i n t r) (base_impl max_dim rects_of (block i n t r) spaces)
  unfolding base_impl
  base-Builds d i n t r [] h low high m = absurd m
  base-Builds d i n t r (s ∷ spaces) h low high ((dim, points), m) =
      let same : same_dims s.dim spaces ≡ true =
        subst (λ k. same_dims k spaces ≡ true) (sym dim) (same_dims-Matches d r spaces m) in
      let passes : (ltb 0 s.dim && (ltb s.dim max_dim && same_dims s.dim spaces)) ≡ true =
        ground (arith, same) in
      (
        record {
          dim = suc s.dim;
          rects = base_rects max_dim rects_of (block i n t r) (s ∷ spaces);
        },
        if_true (ltb 0 s.dim && (ltb s.dim max_dim && same_dims s.dim spaces)) _ _ passes,
        (
          ap suc dim,
          λ v.
              elim v
                as (λ v.
                  in_boxes (base_rects max_dim rects_of (block i n t r) (s ∷ spaces)) v
                  ≡ has_index (block i n t r) v) [
                    | [] ↦ base_nil (block i n t r) (s ∷ spaces) ∙ sym (has_index-block_nil i n t r)
                    | x ∷ cs ↦ base_points d (block i n t r) (s ∷ spaces) x cs h ((dim, points), m)
                  ],
        ),
      )

  leaf-HasIndexes :
      (i n : ℕ) (t r : IndexTree)
      → IsCompact (block i n t r)
      → is_leaf (block i n t r) ≡ true
      → HasIndexes 1 (block i n t r) (record { dim = 1; rects = leaf_rects (block i n t r) })
  leaf-HasIndexes i n t r h l = (
    refl,
    λ v. elim v as (λ v. in_boxes (leaf_rects (block i n t r)) v ≡ has_index (block i n t r) v) [
      | [] ↦ leaf_nil (block i n t r) ∙ sym (has_index-block_nil i n t r)
      | x ∷ cs ↦ leaf_points (block i n t r) x cs h l
    ],
  )

  -- A block with a subtree that is not empty gives the first space.
  step-BuildsAll :
      (d i n : ℕ) (t r : IndexTree)
      → is_empty t ≡ false
      → Builds d t (run_task max_dim rects_of t (child_spaces max_dim rects_of t))
      → BuildsAll d r (child_spaces max_dim rects_of r)
      → BuildsAll d (block i n t r) (child_spaces max_dim rects_of (block i n t r))
  unfolding child_spaces
  step-BuildsAll d i n t r full (s, e, has) (spaces, e', m) =
      (s ∷ spaces, rw (child_spaces, full, e, e') refl, (has, m))

  -- The task of a tree whose rank is known, by the spaces below it.
  task-Builds :
      (d i n : ℕ) (t r : IndexTree)
      → IsCompact (block i n t r)
      → rank (block i n t r) ≡ some (suc d)
      → is_empty t ≡ false
      → 1 ≤ d
      → d < max_dim
      → BuildsAll d (block i n t r) (child_spaces max_dim rects_of (block i n t r))
      → Builds (suc d) (block i n t r) (
          run_task max_dim rects_of (block i n t r) (child_spaces max_dim rects_of (block i n t r)))
  unfolding run_task dispatch starts_with_leaf
  task-Builds d i n t r h e full low high (spaces, below, m) =
      let (s, base, has) = base-Builds d i n t r spaces h low high m in
      (s, rw (run_task, e, full, below) (if_true (ltb 0 (suc d)) _ _ (ground arith) ∙ base), has)

  not_empty : (t : IndexTree) (d : ℕ) → rank t ≡ some (suc d) → is_empty t ≡ false
  unfolding rank is_empty
  not_empty empty d e = cc
  not_empty (block i n t r) d e = refl

  leaf-Builds :
      (d i n : ℕ) (t r : IndexTree)
      → IsCompact (block i n t r)
      → rank (block i n t r) ≡ some (suc d)
      → d ≡ 0
      → is_leaf (block i n t r) ≡ true
      → (below : Result (List Space))
      → Builds (suc d) (block i n t r) (run_task max_dim rects_of (block i n t r) below)
  unfolding run_task dispatch
  leaf-Builds d i n t r h e zero_d l below =
      let (dim, points) = leaf-HasIndexes i n t r h l in
      (
        record { dim = 1; rects = leaf_rects (block i n t r) },
        rw (run_task, e)
            (if_true (ltb 0 (suc d)) _ _ (ground arith)
              ∙ if_true (starts_with_leaf (block i n t r)) _ _ (leaf_starts i n t r l)),
        (ap suc (sym zero_d), points),
      )

  mutual
    unfolding child_spaces

    tree-Builds :
        (t : IndexTree) (d : ℕ)
        → IsCompact t
        → rank t ≡ some (suc d)
        → d < max_dim
        → Builds (suc d) t (run_task max_dim rects_of t (child_spaces max_dim rects_of t))
    tree-Builds empty d h e small = absurd (cc (not_empty empty d e))
    tree-Builds (block i n t r) d h e small = elim (rank_cases i n t r d e) [
      | inl (zero_d, l) ↦
          leaf-Builds d i n t r h e zero_d l (child_spaces max_dim rects_of (block i n t r))
      | inr (j, d_eq, (first, rest)) ↦
          let full = not_empty t j first in
          let below =
            step-BuildsAll (suc j) i n t r full (tree-Builds t j h.1 first (omega arith))
              (children-BuildsAll r j h.3 rest (omega arith)) in
          subst
            (λ k. Builds (suc k) (block i n t r) (
              run_task max_dim rects_of (block i n t r)
                (child_spaces max_dim rects_of (block i n t r))))
            (sym d_eq)
            (task-Builds (suc j) i n t r h (e ∙ ap (λ k. some (suc k)) d_eq) full (omega arith)
              (omega arith) below)
    ]

    children-BuildsAll :
        (r : IndexTree) (d : ℕ)
        → IsCompact r
        → AllRank (suc d) r
        → d < max_dim
        → BuildsAll (suc d) r (child_spaces max_dim rects_of r)
    children-BuildsAll empty d h all small = ([], refl, tt)
    children-BuildsAll (block i n t r) d h (first, rest) small =
        step-BuildsAll (suc d) i n t r (not_empty t d first) (tree-Builds t d h.1 first small)
          (children-BuildsAll r d h.3 rest small)

  -- For a compact tree with a positive rank that is at most the greatest dimension of Legion, if
  -- RectInDomainIterator gives rectangles with the points of the index space, then tree_index_space
  -- returns an index space of the dimension of the rank, and its points are the indexes of the tree.
  pub tree_index_space-has_index :
      (t : IndexTree) (d : ℕ) (v : List ℕ)
      → IsCompact t
      → rank t ≡ some (suc d)
      → d < max_dim
      → (space : Space) × (tree_index_space max_dim rects_of t ≡ ok space)
        × (space.dim ≡ suc d)
        × (in_boxes space.rects v ≡ has_index t v)
  unfolding tree_index_space
  tree_index_space-has_index t d v h e small =
      let (space, built, (dim, points)) = tree-Builds t d h e small in (space, built, dim, points v)
