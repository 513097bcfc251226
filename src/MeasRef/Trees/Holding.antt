-- ===== src/MeasRef/Trees/Holding.antt =====
-- The steps of `measure_index_trees`, on the sets of indexes of the trees.
use legms.Prelude.{
  ℕ, suc, ◌+◌, ◌≡◌, ◌≢◌, refl, ap, sym, ◌∙◌, true, false, List, [], ◌∷◌, Option, none, some, ◌==◌,
  arith, length, Result, ok, ◌>>=◌, Option-cases, Bool-cases, inl, inr, if_true, if_false,
}
use legms.IndexTree.Tree.{IndexTree, empty, block, child_at}
use legms.IndexTree.Compact.{of_blocks}
use legms.IndexTree.Compact.Form.{IsCompact, compact_id}
use legms.IndexTree.Compact.Indexes.{
  has_index, has_index-some, has_index-block, has_index-block_nil, has_index-empty,
  has_index-child_at, has_index_exists,
}
use legms.IndexTree.Merge.Apart.{merge-block}
use legms.IndexTree.Shape.{rank, height}
use legms.IndexTree.Shape.Rank.{rank-length}
use legms.IndexTree.Shape.Longest.{height_exact}
use legms.IndexTree.Iterator.{iterator}
use legms.MeasRef.Extend.{extend_index_ranks}
use legms.MeasRef.Extend.Ranks.{extend_index_ranks-pad}
use legms.MeasRef.Trees.{add_tree, extend_tree}
use legms.MeasRef.Trees.Sets.{
  Indexes, Holding, Holding-eq, with_component, eq_of_iff, free_child, child-has_index_nil,
  pad_full, Pads, Longest, not_root,
}

one_block-Holding :
    (c : ℕ) (t : IndexTree) (g p : Indexes)
    → Holding (some t) g
    → ((cs : List ℕ) → p cs ≡ false)
    → Holding (some (block c 1 t empty)) (with_component c g p)
unfolding with_component
one_block-Holding c t g p h none_yet = ((omega arith, h.0, tt, tt), at)
  where
    at : (cs : List ℕ) → has_index (block c 1 t empty) cs ≡ with_component c g p cs
    at [] = has_index-block_nil c 1 t empty
    at (x ∷ cs) =
        has_index-block c 1 t empty x cs
        ∙ ground (arith, h.1 cs, has_index-empty x cs, none_yet (x ∷ cs))

merged-Holding :
    (c : ℕ) (t s r : IndexTree) (g p : Indexes)
    → Holding (some t) p
    → Holding (some s) g
    → IsCompact r
    → child_at r c ≡ some s
    → ((x : ℕ) → x ≢ c → child_at r x ≡ child_at t x)
    → Holding (some r) (with_component c g p)
unfolding with_component
merged-Holding c t s r g p h k u here elsewhere = (u, at)
  where
    at : (cs : List ℕ) → has_index r cs ≡ with_component c g p cs
    at [] = child-has_index_nil r s c here
    at (x ∷ cs) = elim (Bool-cases (x == c)) [
      | inl e ↦
          let same : x ≡ c = ground arith in
          ap (λ i. has_index r (i ∷ cs)) same
          ∙ has_index-some r s c cs here
          ∙ k.1 cs
          ∙ sym (if_true (x == c) (g cs) (p (x ∷ cs)) e)
      | inr e ↦
          let other : x ≢ c = λ same. ground arith in
          has_index-child_at r t x cs (elsewhere x other)
          ∙ h.1 (x ∷ cs)
          ∙ sym (if_false (x == c) (g cs) (p (x ∷ cs)) e)
    ]

with_none :
    (c : ℕ) (g p : Indexes)
    → ((cs : List ℕ) → g cs ≡ false)
    → p [] ≡ false
    → ((cs : List ℕ) → p (c ∷ cs) ≡ false)
    → (cs : List ℕ) → p cs ≡ with_component c g p cs
unfolding with_component
with_none c g p h nil free [] = nil
with_none c g p h nil free (x ∷ cs) = elim (Bool-cases (x == c)) [
  | inl e ↦
      let same : x ≡ c = ground arith in
      ap (λ i. p (i ∷ cs)) same
      ∙ free cs
      ∙ sym (h cs)
      ∙ sym (if_true (x == c) (g cs) (p (x ∷ cs)) e)
  | inr e ↦ sym (if_false (x == c) (g cs) (p (x ∷ cs)) e)
]

of_blocks_id : (t : IndexTree) → IsCompact t → of_blocks t ≡ ok t
unfolding of_blocks
of_blocks_id t u = compact_id t u

-- The trees of a component are put below its coordinate.
pub add_tree-Holding :
    (c : ℕ) (ctree result : Option IndexTree) (g p : Indexes)
    → Holding ctree g
    → Holding result p
    → p [] ≡ false
    → ((cs : List ℕ) → p (c ∷ cs) ≡ false)
    → (o : Option IndexTree) × (add_tree c ctree result ≡ ok o) × Holding o (with_component c g p)
unfolding add_tree
add_tree-Holding c none result g p h k nil free = (
  result,
  refl,
  Holding-eq result p (with_component c g p) (λ cs. with_none c g p h nil free cs) k,
)
add_tree-Holding c (some s) none g p h k nil free =
    let made = one_block-Holding c s g p h k in
    (some (block c 1 s empty), rw (of_blocks_id (block c 1 s empty) made.0) refl, made)
add_tree-Holding c (some s) (some t) g p h k nil free =
    let (r, merged, u, here, elsewhere) =
      merge-block t c s k.0 h.0 (free_child t c k.0 (λ cs. k.1 (c ∷ cs) ∙ free cs)) in
    (
      some r,
      rw (of_blocks_id (block c 1 s empty) (omega arith, h.0, tt, tt), merged) refl,
      merged-Holding c t s r g p k h u here elsewhere,
    )

extend_tree_ranked : (t : IndexTree) (k : ℕ) → rank t ≡ some k → extend_tree (some t) ≡ ok (some t)
unfolding extend_tree
extend_tree_ranked t k h =
    ap
      (λ o. elim o as (λ o. Result (Option IndexTree)) [
        | some k ↦ ok (some t)
        | none ↦
            extend_index_ranks (suc (length (iterator t).tree_coords)) t (height t + 1)
            >>= λ extended. ok (some extended)
      ])
      h

extend_tree_unranked :
    (t r : IndexTree)
    → rank t ≡ none
    → extend_index_ranks (suc (length (iterator t).tree_coords)) t (height t + 1) ≡ ok r
    → extend_tree (some t) ≡ ok (some r)
unfolding extend_tree
extend_tree_unranked t r h e =
    ap
      (λ o. elim o as (λ o. Result (Option IndexTree)) [
        | some k ↦ ok (some t)
        | none ↦
            extend_index_ranks (suc (length (iterator t).tree_coords)) t (height t + 1)
            >>= λ extended. ok (some extended)
      ])
      h
    ∙ rw e refl

-- `extend_tree` pads the indexes to the length of the longest ones.
pub extend_tree-Holding :
    (o : Option IndexTree) (k : ℕ) (p q : Indexes)
    → Holding o p
    → Longest (suc k) p
    → Pads (suc k) p q
    → (o' : Option IndexTree) × (extend_tree o ≡ ok o') × Holding o' q
extend_tree-Holding none k p q h long pads = (
  none,
  unfold extend_tree in refl,
  λ cs.
      eq_of_iff (q cs) false (λ e. let (v, there, same) = (pads cs).0 e in sym (h v) ∙ there)
        (λ e. cc),
)
extend_tree-Holding (some t) k p q h long pads =
    let (first, at) = has_index_exists t h.0 in
    let (v, there, full) = long.some_long first (sym (h.1 first) ∙ at) in
    elim (Option-cases (rank t)) [
      | inl e ↦
          let levels : height t + 1 ≡ suc k = omega (
            arith,
            height_exact t k v h.0 (λ cs e. long.no_longer cs (sym (h.1 cs) ∙ e)) (h.1 v ∙ there)
                full,
          ) in
          let (r, ran, u, ranked, padded) =
            extend_index_ranks-pad (suc (length (iterator t).tree_coords)) (suc k) t h.0
              (λ same. not_root t p h long.no_root same)
              (λ cs e. long.no_longer cs (sym (h.1 cs) ∙ e)) (omega arith) in
          (
            some r,
            extend_tree_unranked t r e
                (ap (extend_index_ranks (suc (length (iterator t).tree_coords)) t) levels ∙ ran),
            (
              u,
              λ cs.
                  eq_of_iff (has_index r cs) (q cs)
                    (λ e.
                      let (w, k, same) = (padded cs).0 e in (pads cs).1 (w, sym (h.1 w) ∙ k, same))
                    (λ e. let (w, k, same) = (pads cs).0 e in (padded cs).1 (w, h.1 w ∙ k, same)),
            ),
          )
      | inr (j, e) ↦
          let length_of : (cs : List ℕ) → p cs ≡ true → length cs ≡ suc k = λ cs e'.
            rank-length t j cs e (h.1 cs ∙ e') ∙ sym (rank-length t j v e (h.1 v ∙ there)) ∙ full in
          (
            some t,
            extend_tree_ranked t j e,
            (
              h.0,
              λ cs.
                  h.1 cs
                  ∙ eq_of_iff (p cs) (q cs)
                      (λ e. (pads cs).1 (cs, e, sym (pad_full cs (suc k) (length_of cs e))))
                      (λ e.
                        let (w, there, same) = (pads cs).0 e in
                        ap p (same ∙ pad_full w (suc k) (length_of w there)) ∙ there),
            ),
          )
    ]
