-- ===== src/MeasRef/Extend/Ranks.antt =====
-- `extend_index_ranks` gives a tree of the rank that is asked for, with the padded indexes.
use legms.Prelude.{
  ℕ, ◌≤◌, ◌<◌, ◌≡◌, ◌≢◌, ◌↔◌, refl, ap, sym, ◌∙◌, true, ◌||◌, List, [], ◌∷◌, ◌++◌, map, ◌==◌,
  if◌then◌else◌, none, some, arith, length, Result, ok, throws, append-nil, length-append,
  Bool-cases, inl, inr, if_true, if_false, All,
}
use legms.IndexTree.Tree.{IndexTree, empty}
use legms.IndexTree.Compact.Form.{IsCompact}
use legms.IndexTree.Compact.Indexes.{has_index, has_index_exists}
use legms.IndexTree.Compact.Paths.{has_path, has_path-empty}
use legms.IndexTree.Compact.Ends.{has_index-has_path, has_index_ends, has_path_cases}
use legms.IndexTree.Shape.{rank}
use legms.IndexTree.Shape.Uniform.{AllOfLength-rank}
use legms.IndexTree.Iterator.{iterator}
use legms.IndexTree.Iterator.Coverage.{occurrences-tree_coords}
use legms.MeasRef.Extend.Padded.{pad, length-pad, merge_chains_lem, any_prefix}
use legms.MeasRef.Extend.{check_rank, extend_index_ranks}
use legms.MeasRef.Extend.Prefixes.{
  any_eq, or_right, short_member, All-occurrences, nil-any_prefix, any_prefix-rest,
  any_eq-any_prefix, any_eq-pad, pad-any_eq, any_eq-occurrences, occurrences-any_eq,
}

any_eq-length :
    (depth : ℕ) (cs : List ℕ) (xs : List (List ℕ))
    → All (λ v. length v ≤ depth) xs
    → any_eq cs (map (pad depth) xs) ≡ true
    → length cs ≡ depth
any_eq-length depth cs xs short h =
    let (v, k, same) = any_eq-pad depth cs xs h in
    rw same (length-pad depth v (short_member depth v xs short k))

map_nonempty : (f : List ℕ → List ℕ) (xs : List (List ℕ)) → xs ≢ [] → map f xs ≢ []
map_nonempty f [] h = absurd (h refl)
map_nonempty f (x ∷ xs) h = λ e. cc

module _ (r : IndexTree) (depth : ℕ) (xs : List (List ℕ)) (u : IsCompact r)
    (short : All (λ v. length v ≤ depth) xs) (ne : xs ≢ [])
    (paths : (cs : List ℕ)
      → has_path r cs ≡ (has_path empty cs || any_prefix cs (map (pad depth) xs))) where
  path-any_prefix : (cs : List ℕ) → has_path r cs ≡ true → any_prefix cs (map (pad depth) xs) ≡ true
  path-any_prefix [] h = nil-any_prefix (map (pad depth) xs) (map_nonempty (pad depth) xs ne)
  path-any_prefix (x ∷ cs) h =
      sym (ap (λ b. b || any_prefix (x ∷ cs) (map (pad depth) xs)) (has_path-empty x cs))
      ∙ sym (paths (x ∷ cs))
      ∙ h

  any_prefix-path : (cs : List ℕ) → any_prefix cs (map (pad depth) xs) ≡ true → has_path r cs ≡ true
  any_prefix-path cs h = paths cs ∙ or_right (has_path empty cs) _ h

  -- An index of the result is a padded one.
  index-any_eq : (cs : List ℕ) → has_index r cs ≡ true → any_eq cs (map (pad depth) xs) ≡ true
  index-any_eq cs h =
      ended
        (any_prefix-rest cs (map (pad depth) xs) (path-any_prefix cs (has_index-has_path r cs h)))
    where
      ended :
          (ys : List ℕ) × (any_eq (cs ++ ys) (map (pad depth) xs) ≡ true)
          → any_eq cs (map (pad depth) xs) ≡ true
      ended ([], e) = sym (ap (λ v. any_eq v (map (pad depth) xs)) (append-nil cs)) ∙ e
      ended (x ∷ ys, e) = cc (
        has_index_ends r cs x ys h,
        any_prefix-path (cs ++ x ∷ ys) (any_eq-any_prefix (cs ++ x ∷ ys) (map (pad depth) xs) e),
      )

  -- A padded index is one of the result.
  any_eq-index : (cs : List ℕ) → any_eq cs (map (pad depth) xs) ≡ true → has_index r cs ≡ true
  any_eq-index cs h =
      elim (has_path_cases r cs u
        (any_prefix-path cs (any_eq-any_prefix cs (map (pad depth) xs) h))) [
          | inl e ↦ e
          | inr (x, e) ↦
              let (ys, k) =
                any_prefix-rest (cs ++ x ∷ []) (map (pad depth) xs)
                  (path-any_prefix (cs ++ x ∷ []) e) in
              absurd (
                omega (
                  arith,
                  any_eq-length depth cs xs short h,
                  any_eq-length depth ((cs ++ x ∷ []) ++ ys) xs short k,
                  length-append cs (x ∷ []),
                  length-append (cs ++ x ∷ []) ys,
                ))
        ]

  pub result-rank : rank r ≡ some depth
  result-rank =
      AllOfLength-rank r depth u (λ cs e. any_eq-length depth cs xs short (index-any_eq cs e))

check_rank_lem : (r : IndexTree) (depth : ℕ) → rank r ≡ some depth → check_rank depth r ≡ ok r
unfolding check_rank
check_rank_lem r depth h =
    ap
      (λ o. elim o as (λ o. Result IndexTree) [
        | none ↦ throws
        | some k ↦ if k == depth then ok r else throws
      ])
      h
    ∙ if_true (depth == depth) _ _ (ground arith)

member-has_index :
    (t : IndexTree) (v : List ℕ)
    → IsCompact t
    → t ≢ empty
    → any_eq v (iterator t).tree_coords ≡ true
    → has_index t v ≡ true
member-has_index t v u ne h = elim (Bool-cases (has_index t v)) [
  | inl e ↦ e
  | inr e ↦ absurd (
      any_eq-occurrences v (iterator t).tree_coords h
        (occurrences-tree_coords t v u ne ∙ if_false (has_index t v) 1 0 e))
]

has_index-member :
    (t : IndexTree) (v : List ℕ)
    → IsCompact t
    → t ≢ empty
    → has_index t v ≡ true
    → any_eq v (iterator t).tree_coords ≡ true
has_index-member t v u ne h = occurrences-any_eq v (iterator t).tree_coords (λ k.
    absurd
      (omega (arith, sym k ∙ occurrences-tree_coords t v u ne ∙ if_true (has_index t v) 1 0 h)))

coords_nonempty : (t : IndexTree) → IsCompact t → t ≢ empty → (iterator t).tree_coords ≢ []
coords_nonempty t u ne h =
    let (cs, e) = has_index_exists t u in
    no_member cs (ap (any_eq cs) (sym h) ∙ has_index-member t cs u ne e)
  where
    no_member : (cs : List ℕ) → any_eq cs [] ≡ true → ⊥
    no_member cs e = unfold any_eq in cc

-- `extend_index_ranks` of a compact tree other than IndexTree(), of which no index is longer than
-- the rank, returns with fuel above the number of its indexes: a compact tree that has the rank, and
-- whose indexes are those of the tree, each padded with zeros to the length of the rank.
pub extend_index_ranks-pad :
    (f depth : ℕ) (t : IndexTree)
    → IsCompact t
    → t ≢ empty
    → ((cs : List ℕ) → has_index t cs ≡ true → length cs ≤ depth)
    → length (iterator t).tree_coords < f
    → (r : IndexTree) × (extend_index_ranks f t depth ≡ ok r)
      × IsCompact r
      × (rank r ≡ some depth)
      × ((cs : List ℕ)
          → (has_index r cs ≡ true) ↔ ((v : List ℕ) × (has_index t v ≡ true) × (cs ≡ pad depth v)))
unfolding extend_index_ranks
extend_index_ranks-pad f depth t u ne fits enough =
    let xs : List (List ℕ) = (iterator t).tree_coords in
    let short : All (λ v. length v ≤ depth) xs =
      All-occurrences (λ v. length v ≤ depth) xs (λ v e. fits v (member-has_index t v u ne e)) in
    let some_index : xs ≢ [] = coords_nonempty t u ne in
    let (r, ran, w, paths) =
      merge_chains_lem f depth 0 xs empty tt short (omega arith) (omega arith) in
    let ranked : rank r ≡ some depth = result-rank r depth xs w short some_index paths in
    (
      r,
      rw ran (check_rank_lem r depth ranked),
      w,
      ranked,
      λ cs. (
        λ e.
            let (v, k, same) =
              any_eq-pad depth cs xs (index-any_eq r depth xs w short some_index paths cs e) in
            (v, member-has_index t v u ne k, same),
        λ (v, k, same).
            any_eq-index r depth xs w short some_index paths cs
              (rw same (pad-any_eq depth v xs (has_index-member t v u ne k))),
      ),
    )
