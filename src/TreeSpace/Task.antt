-- ===== src/TreeSpace/Task.antt =====
-- hyperion/tree_index_space.cc: `TreeIndexSpaceTask`. A Legion index space is its dimension with the
-- rectangles that it was made of; `rects_of` is what RectInDomainIterator gives of them, which Legion
-- may split and order as it likes. A task that is launched returns what its body returns.
use legms.Prelude.{
  ℕ, suc, ltb, ◌==◌, Bool, true, ◌&&◌, List, [], ◌∷◌, ◌++◌, map, none, some, if◌then◌else◌, Result,
  ok, throws, ◌>>=◌,
}
use legms.Prelude.Int.{ℤ, pos, ◌+ℤ◌, ◌-ℤ◌}
use legms.IndexTree.Tree.{IndexTree, empty, block, is_empty}
use legms.IndexTree.Shape.{rank}

abbrev pub Box : Type 0
Box = List (ℤ × ℤ)

pub record Space : Type 0 where
  pub dim : ℕ
  pub rects : List Box

-- From o to n + o - 1
unfoldable pub interval : ℕ → ℕ → ℤ × ℤ
unfolding ◌+ℤ◌ ◌-ℤ◌
interval o n = (pos o, pos o +ℤ pos n -ℤ pos 1)

-- The rectangles of a tree with m_trees[0] == IndexTreeL()
unfoldable pub leaf_rects : IndexTree → List Box
unfolding interval
leaf_rects empty = []
leaf_rects (block o n t r) = (interval o n ∷ []) ∷ leaf_rects r

-- m_trees[0] == IndexTreeL()
unfoldable pub starts_with_leaf : IndexTree → Bool
unfolding is_empty
starts_with_leaf empty = true
starts_with_leaf (block o n t r) = is_empty t

unfoldable pub same_dims : ℕ → List Space → Bool
same_dims d [] = true
same_dims d (s ∷ spaces) = (s.dim == d) && same_dims d spaces

module _ (max_dim : ℕ) (rects_of : List Box → List Box) where
  -- The loops over the blocks and the rectangles of the spaces below them.
  unfoldable pub base_rects : IndexTree → List Space → List Box
  unfolding interval
  base_rects empty spaces = []
  base_rects (block o n t r) [] = []
  base_rects (block o n t r) (s ∷ spaces) =
      map (λ rid. interval o n ∷ rid) (rects_of s.rects) ++ base_rects r spaces

  -- base_impl; a child of another dimension fails in Legion, which checks IndexSpaceT<DIM>.
  unfoldable pub base_impl : IndexTree → List Space → Result Space
  unfolding base_rects same_dims
  base_impl tree [] = throws
  base_impl tree (s ∷ spaces) =
      if ltb 0 s.dim && (ltb s.dim max_dim && same_dims s.dim spaces)
      then ok (record { dim = suc s.dim; rects = base_rects tree (s ∷ spaces) })
      else throws

  -- dispatch, on the index spaces of the trees below
  unfoldable pub dispatch : IndexTree → Result (List Space) → Result Space
  unfolding base_impl leaf_rects starts_with_leaf
  dispatch tree below =
      if starts_with_leaf tree
      then ok (record { dim = 1; rects = leaf_rects tree })
      else (below >>= λ spaces. base_impl tree spaces)

  -- The constructor's assertions, and dispatch.
  unfoldable pub run_task : IndexTree → Result (List Space) → Result Space
  unfolding rank dispatch
  run_task tree below = elim (rank tree) [
    | none ↦ throws
    | some d ↦ if ltb 0 d then dispatch tree below else throws
  ]

  -- The index spaces of the trees below that are not IndexTreeL().
  unfoldable pub child_spaces : IndexTree → Result (List Space)
  unfolding run_task is_empty
  child_spaces empty = ok []
  child_spaces (block o n t r) =
      let space = run_task t (child_spaces t) in
      let rest = child_spaces r in
      if is_empty t then rest else (space >>= λ s. rest >>= λ spaces. ok (s ∷ spaces))

  unfoldable pub tree_index_space : IndexTree → Result Space
  unfolding run_task child_spaces
  tree_index_space tree = run_task tree (child_spaces tree)
