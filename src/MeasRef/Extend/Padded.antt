-- ===== src/MeasRef/Extend/Padded.antt =====
-- The indexes of the result of `extend_index_ranks` are those of the tree, padded with zeros.
use mathlib.Core.List.{reverse, reverse-append, reverse-reverse}
use legms.Prelude.{
  ℕ, zero, suc, ◌+◌, ◌-◌, ◌≤◌, ◌<◌, ◌≡◌, refl, ap, sym, ◌∙◌, subst, Bool, true, false, ◌||◌, ◌&&◌,
  List, [], ◌∷◌, ◌++◌, map, not, ◌==◌, ltb, if◌then◌else◌, none, some, arith, length, get_elem?,
  drop, Result, ok, throws, ◌>>=◌, append_assoc, append-nil, length-append, length-replicate,
  Bool-cases, inl, inr, if_true, if_false, All,
}
use legms.IndexTree.Tree.{IndexTree, empty, block, covers}
use legms.IndexTree.Compact.Form.{IsCompact}
use legms.IndexTree.Compact.Paths.{has_path, has_path-nil, has_path-empty, has_path-block}
use legms.IndexTree.Merge.{merge}
use legms.IndexTree.Merge.Union.{merge-Unites}
use legms.IndexTree.Iterator.{IndexTreeIterator}
use legms.IndexTree.Iterator.Gather.{drop_all}
use legms.MeasRef.Points.{zeros}
use legms.MeasRef.Extend.{chain, merge_chains}

-- A tree with one index.
unfoldable pub one_index : List ℕ → IndexTree → IndexTree
one_index [] ch = ch
one_index (c ∷ cs) ch = block c 1 (one_index cs ch) empty

pub one_index-IsCompact :
    (cs : List ℕ) (ch : IndexTree) → IsCompact ch → IsCompact (one_index cs ch)
unfolding one_index
one_index-IsCompact [] ch u = u
one_index-IsCompact (c ∷ cs) ch u = (omega arith, one_index-IsCompact cs ch u, tt, tt)

one_index-append :
    (xs ys : List ℕ) (ch : IndexTree) → one_index (xs ++ ys) ch ≡ one_index xs (one_index ys ch)
unfolding one_index
one_index-append [] ys ch = refl
one_index-append (x ∷ xs) ys ch = ap (λ t. block x 1 t empty) (one_index-append xs ys ch)

-- An index, padded with zeros.
unfoldable pub pad : ℕ → List ℕ → List ℕ
pad depth cs = cs ++ zeros (depth - length cs)

zeros_snoc : (k : ℕ) → zeros k ++ 0 ∷ [] ≡ zeros (suc k)
zeros_snoc zero = refl
zeros_snoc (suc k) = ap (λ cs. 0 ∷ cs) (zeros_snoc k)

one_index-block :
    (cs : List ℕ) (c : ℕ) (ch : IndexTree)
    → one_index cs (block c 1 ch empty) ≡ one_index (cs ++ c ∷ []) ch
unfolding one_index
one_index-block [] c ch = refl
one_index-block (x ∷ cs) c ch = ap (λ t. block x 1 t empty) (one_index-block cs c ch)

chain_pads :
    (i back : ℕ) (coords : List ℕ) (ch : IndexTree)
    → IsCompact ch
    → length (back ∷ coords) < suc i
    → chain (suc i) (back ∷ coords) ch ≡ chain i (back ∷ coords) (block 0 1 ch empty)
unfolding chain
chain_pads i back coords ch u h = if_true (ltb (length (back ∷ coords)) (suc i)) _ _ (ground arith)

chain_takes :
    (i back : ℕ) (coords : List ℕ) (ch : IndexTree)
    → IsCompact ch
    → suc i ≤ length (back ∷ coords)
    → chain (suc i) (back ∷ coords) ch ≡ chain i coords (block back 1 ch empty)
unfolding chain
chain_takes i back coords ch u h =
    if_false (ltb (length (back ∷ coords)) (suc i)) _ _ (ground arith)

chain_none :
    (i : ℕ) (ch : IndexTree) → IsCompact ch → chain (suc i) [] ch ≡ chain i [] (block 0 1 ch empty)
unfolding chain
chain_none i ch u = refl

zeros_then :
    (cs : List ℕ) (k : ℕ) (ch : IndexTree)
    → one_index (cs ++ zeros k) (block 0 1 ch empty) ≡ one_index (cs ++ zeros (suc k)) ch
zeros_then cs k ch =
    one_index-block (cs ++ zeros k) 0 ch
    ∙ ap (λ cs. one_index cs ch)
        (append_assoc cs (zeros k) (0 ∷ []) ∙ ap (λ z. cs ++ z) (zeros_snoc k))

chain_lem :
    (depth k : ℕ) (coords : List ℕ) (ch : IndexTree)
    → IsCompact ch
    → depth ≡ k + length coords
    → chain depth coords ch ≡ ok (one_index (reverse coords ++ zeros k) ch)
chain_lem zero zero [] ch u h = unfold chain one_index in refl
chain_lem zero (suc k) [] ch u h = absurd (omega arith)
chain_lem zero k (back ∷ coords) ch u h = absurd (omega arith)
chain_lem (suc i) zero [] ch u h = absurd (omega arith)
chain_lem (suc i) (suc k) [] ch u h =
    chain_none i ch u
    ∙ chain_lem i k [] (block 0 1 ch empty) (omega arith, u, tt, tt) (omega arith)
    ∙ ap ok (zeros_then [] k ch)
chain_lem (suc i) (suc k) (back ∷ coords) ch u h =
    chain_pads i back coords ch u (omega arith)
    ∙ chain_lem i k (back ∷ coords) (block 0 1 ch empty) (omega arith, u, tt, tt) (omega arith)
    ∙ ap ok (zeros_then (reverse (back ∷ coords)) k ch)
chain_lem (suc i) zero (back ∷ coords) ch u h =
    chain_takes i back coords ch u (omega arith)
    ∙ chain_lem i zero coords (block back 1 ch empty) (omega arith, u, tt, tt) (omega arith)
    ∙ ap ok (
        ap (λ cs. one_index cs (block back 1 ch empty)) (append-nil (reverse coords))
        ∙ one_index-block (reverse coords) back ch
        ∙ ap (λ cs. one_index cs ch)
            (sym (append-nil (reverse (back ∷ coords)) ∙ reverse-append (back ∷ []) coords)))

length-reverse : (cs : List ℕ) → length (reverse cs) ≡ length cs
length-reverse [] = refl
length-reverse (c ∷ cs) =
    ap length (reverse-append (c ∷ []) cs)
    ∙ length-append (reverse cs) (c ∷ [])
    ∙ omega (arith, length-reverse cs)

-- The chain of an index of a tree.
chain-pad :
    (depth : ℕ) (cs : List ℕ)
    → length cs ≤ depth
    → chain depth (reverse cs) empty ≡ ok (one_index (pad depth cs) empty)
unfolding pad
chain-pad depth cs h =
    chain_lem depth (depth - length cs) (reverse cs) empty tt (omega (arith, length-reverse cs))
    ∙ ap (λ ds. ok (one_index (ds ++ zeros (depth - length cs)) empty)) (reverse-reverse cs)

pub length-pad : (depth : ℕ) (cs : List ℕ) → length cs ≤ depth → length (pad depth cs) ≡ depth
unfolding pad
length-pad depth cs h =
    length-append cs (zeros (depth - length cs))
    ∙ omega (arith, length-replicate {A = ℕ} (depth - length cs) 0)

-- The paths of a tree with one index are the prefixes of that index.
unfoldable pub is_prefix : List ℕ → List ℕ → Bool
is_prefix [] p = true
is_prefix (x ∷ cs) [] = false
is_prefix (x ∷ cs) (y ∷ p) = (y == x) && is_prefix cs p

one_step : (y x : ℕ) (b : Bool) → (if covers y 1 x then b else false) ≡ ((y == x) && b)
one_step y x b = ground arith

one_index-has_path : (p cs : List ℕ) → has_path (one_index p empty) cs ≡ is_prefix cs p
unfolding one_index is_prefix
one_index-has_path p [] = has_path-nil (one_index p empty) ∙ (unfold is_prefix in refl)
one_index-has_path [] (x ∷ cs) = has_path-empty x cs
one_index-has_path (y ∷ p) (x ∷ cs) =
    has_path-block y 1 (one_index p empty) empty x cs
    ∙ rw (has_path-empty x cs, one_index-has_path p cs) (one_step y x (is_prefix cs p))

unfoldable pub any_prefix : List ℕ → List (List ℕ) → Bool
unfolding is_prefix
any_prefix cs [] = false
any_prefix cs (p ∷ ps) = is_prefix cs p || any_prefix cs ps

or_assoc : (a b c : Bool) → ((a || b) || c) ≡ (a || (b || c))
or_assoc true b c = refl
or_assoc false b c = refl

drop_next :
    (xs : List (List ℕ)) (k : ℕ)
    → k < length xs
    → (cs : List ℕ) × (get_elem? xs k ≡ some cs) × (drop k xs ≡ cs ∷ drop (suc k) xs)
drop_next [] k h = absurd (omega arith)
drop_next (x ∷ xs) zero h = (x, refl, refl)
drop_next (x ∷ xs) (suc k) h = drop_next xs k (omega arith)

All-get_elem? :
    (P : List ℕ → Type 0) (xs : List (List ℕ)) (k : ℕ) (cs : List ℕ)
    → All P xs
    → get_elem? xs k ≡ some cs
    → P cs
All-get_elem? P [] k cs all h = cc
All-get_elem? P (x ∷ xs) zero cs all h = subst P (some-injective h) all.0
  where
    some-injective : {a b : List ℕ} → some a ≡ some b → a ≡ b
    some-injective e = cc
All-get_elem? P (x ∷ xs) (suc k) cs all h = All-get_elem? P xs k cs all.1 h

abbrev pub at_index : List (List ℕ) → ℕ → IndexTreeIterator
at_index xs k = record { tree_coords = xs; current = k }

merge_chains_stops :
    (f depth k : ℕ) (xs : List (List ℕ)) (result : IndexTree)
    → (k == length xs) ≡ true
    → merge_chains (suc f) depth (at_index xs k) result ≡ ok result
unfolding merge_chains
merge_chains_stops f depth k xs result h = if_false (not (k == length xs)) _ _ (rw h)

merge_chains_next :
    (f depth k : ℕ) (xs : List (List ℕ)) (result ch r : IndexTree) (cs : List ℕ)
    → (k == length xs) ≡ false
    → get_elem? xs k ≡ some cs
    → chain depth (reverse cs) empty ≡ ok ch
    → merge result ch ≡ ok r
    → merge_chains (suc f) depth (at_index xs k) result
      ≡ merge_chains f depth (at_index xs (suc k)) r
unfolding merge_chains
merge_chains_next f depth k xs result ch r cs h at chained merged =
    if_true (not (k == length xs)) _ _ (rw h)
    ∙ ap
        (λ o. elim o as (λ o. Result IndexTree) [
          | none ↦ throws
          | some coords ↦ chain depth (reverse coords) empty >>= λ ch.
              merge result ch >>= merge_chains f depth (at_index xs (suc k))
        ])
        at
    ∙ rw (chained, merged) refl

pub or_false : (b : Bool) → (b || false) ≡ b
or_false true = refl
or_false false = refl

-- The loop merges the padded indexes into the result.
pub merge_chains_lem :
    (f depth k : ℕ) (xs : List (List ℕ)) (result : IndexTree)
    → IsCompact result
    → All (λ cs. length cs ≤ depth) xs
    → k ≤ length xs
    → length xs < k + f
    → (r : IndexTree) × (merge_chains f depth (at_index xs k) result ≡ ok r)
      × IsCompact r
      × ((cs : List ℕ)
          → has_path r cs ≡ (has_path result cs || any_prefix cs (map (pad depth) (drop k xs))))
merge_chains_lem zero depth k xs result u short le enough = absurd (omega arith)
merge_chains_lem (suc f) depth k xs result u short le enough = elim (Bool-cases (k == length xs)) [
  | inl e ↦ (
    result,
    merge_chains_stops f depth k xs result e,
    u,
    λ cs. sym (
        ap (λ ps. has_path result cs || any_prefix cs (map (pad depth) ps))
          (drop_all xs k (ground arith))
        ∙ (unfold any_prefix in or_false (has_path result cs))),
  )
  | inr e ↦
      let (cs, at, dropped) = drop_next xs k (ground arith) in
      let fits : length cs ≤ depth = All-get_elem? (λ cs. length cs ≤ depth) xs k cs short at in
      let (r, merged, v, paths) =
        merge-Unites result (one_index (pad depth cs) empty) u
          (one_index-IsCompact (pad depth cs) empty tt) in
      let (r', ran, v', later) =
        merge_chains_lem f depth (suc k) xs r v short (ground arith) (omega arith) in
      (
        r',
        merge_chains_next f depth k xs result (one_index (pad depth cs) empty) r cs e at
              (chain-pad depth cs fits) merged
            ∙ ran,
        v',
        λ ds.
            later ds
            ∙ ap (λ b. b || any_prefix ds (map (pad depth) (drop (suc k) xs)))
                (paths ds
                  ∙ ap (λ b. has_path result ds || b) (one_index-has_path (pad depth cs) ds))
            ∙ or_assoc (has_path result ds) (is_prefix ds (pad depth cs)) _
            ∙ sym (
                ap (λ ps. has_path result ds || any_prefix ds (map (pad depth) ps)) dropped
                ∙ (unfold any_prefix in refl)),
      )
]
