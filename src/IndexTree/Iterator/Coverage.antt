-- ===== src/IndexTree/Iterator/Coverage.antt =====
-- The indexes that an iterator visits are those of the tree, each once, and size() counts them.
use legms.Prelude.{
  ℕ, zero, suc, ◌+◌, ◌*◌, ◌%◌, ◌^◌, ◌≡◌, ◌≢◌, refl, ap, sym, ◌∙◌, Bool, true, false, ◌&&◌, List, [],
  ◌∷◌, ◌++◌, map, ◌==◌, if◌then◌else◌, none, length, arith, length-append, Bool-cases, inl, inr,
  ◌⊎◌, if_false,
}
use legms.IndexTree.Tree.{IndexTree, empty, block, is_empty, covers, child_at}
use legms.IndexTree.Compact.Form.{IsCompact, IsCompact-IsOrdered_rest}
use legms.IndexTree.Compact.Canonical.{child_at_below, child_at_inside}
use legms.IndexTree.Compact.Indexes.{has_index, has_index-some, has_index-none, has_index-child_at}
use legms.IndexTree.Shape.{size, add_sizes, wrap}
use legms.IndexTree.Iterator.{iterator}
use legms.IndexTree.Iterator.Gather.{indexes, unrolled, tree_coords-iterator}

unfoldable pub list_eq : List ℕ → List ℕ → Bool
list_eq [] [] = true
list_eq [] (b ∷ bs) = false
list_eq (a ∷ as') [] = false
list_eq (a ∷ as') (b ∷ bs) = (a == b) && list_eq as' bs

-- How often an index stands in a list.
unfoldable pub occurrences : List ℕ → List (List ℕ) → ℕ
unfolding list_eq
occurrences v [] = 0
occurrences v (w ∷ ws) = (if list_eq w v then 1 else 0) + occurrences v ws

occurrences-append :
    (v : List ℕ) (xs ys : List (List ℕ))
    → occurrences v (xs ++ ys) ≡ occurrences v xs + occurrences v ys
unfolding occurrences
occurrences-append v [] ys = omega arith
occurrences-append v (x ∷ xs) ys = omega (arith, occurrences-append v xs ys)

occurrences-map :
    (x j : ℕ) (cs : List ℕ) (vs : List (List ℕ))
    → occurrences (x ∷ cs) (map (λ v. j ∷ v) vs) ≡ (if j == x then occurrences cs vs else 0)
unfolding occurrences
occurrences-map x j cs [] = ground arith
occurrences-map x j cs (v ∷ vs) = ground (arith, occurrences-map x j cs vs)

occurrences-unrolled :
    (n j x : ℕ) (cs : List ℕ) (vs : List (List ℕ))
    → occurrences (x ∷ cs) (unrolled j n vs) ≡ (if covers j n x then occurrences cs vs else 0)
unfolding occurrences unrolled
occurrences-unrolled zero j x cs vs = ground arith
occurrences-unrolled (suc n) j x cs vs =
    occurrences-append (x ∷ cs) (map (λ v. j ∷ v) vs) (unrolled (suc j) n vs)
    ∙ ground (arith, occurrences-map x j cs vs, occurrences-unrolled n (suc j) x cs vs)

occurrences_nil-map : (j : ℕ) (vs : List (List ℕ)) → occurrences [] (map (λ v. j ∷ v) vs) ≡ 0
unfolding occurrences
occurrences_nil-map j [] = refl
occurrences_nil-map j (v ∷ vs) = omega (arith, occurrences_nil-map j vs)

occurrences_nil-unrolled : (n j : ℕ) (vs : List (List ℕ)) → occurrences [] (unrolled j n vs) ≡ 0
unfolding unrolled occurrences
occurrences_nil-unrolled zero j vs = refl
occurrences_nil-unrolled (suc n) j vs = omega (
  arith,
  occurrences-append [] (map (λ v. j ∷ v) vs) (unrolled (suc j) n vs),
  occurrences_nil-map j vs,
  occurrences_nil-unrolled n (suc j) vs,
)

occurrences_nil-indexes : (t : IndexTree) → occurrences [] (indexes t) ≡ 0
unfolding indexes occurrences
occurrences_nil-indexes empty = refl
occurrences_nil-indexes (block i n t r) = omega (
  arith,
  occurrences-append [] (unrolled i n (if is_empty t then [] ∷ [] else indexes t)) (indexes r),
  occurrences_nil-unrolled n i (if is_empty t then [] ∷ [] else indexes t),
  occurrences_nil-indexes r,
)

abbrev one_if : Bool → ℕ
one_if b = if b then 1 else 0

-- The indexes that stand below one coordinate of a block.
below : IndexTree → List (List ℕ)
unfolding is_empty
below t = if is_empty t then [] ∷ [] else indexes t

occurrences-below :
    (t : IndexTree)
    → ((y : ℕ) (ys : List ℕ) → occurrences (y ∷ ys) (indexes t) ≡ one_if (has_index t (y ∷ ys)))
    → (cs : List ℕ) → occurrences cs (below t) ≡ one_if (has_index t cs)
unfolding occurrences below has_index
occurrences-below empty h [] = refl
occurrences-below empty h (y ∷ ys) = unfold child_at in refl
occurrences-below (block i n t r) h [] = occurrences_nil-indexes (block i n t r)
occurrences-below (block i n t r) h (y ∷ ys) = h y ys

abbrev CountsOnce : IndexTree → Type 0
CountsOnce t =
    (x : ℕ) (cs : List ℕ) → occurrences (x ∷ cs) (indexes t) ≡ one_if (has_index t (x ∷ cs))

indexes-CountsOnce : (t : IndexTree) → IsCompact t → CountsOnce t
unfolding indexes below
indexes-CountsOnce empty u x cs = unfold occurrences has_index child_at in refl
indexes-CountsOnce (block i n t r) u x cs =
    occurrences-append (x ∷ cs) (unrolled i n (below t)) (indexes r)
    ∙ counted (Bool-cases (covers i n x)) (occurrences-below t (indexes-CountsOnce t u.1) cs)
        (indexes-CountsOnce r u.3 x cs)
  where
    counted :
        (covers i n x ≡ true) ⊎ (covers i n x ≡ false)
        → occurrences cs (below t) ≡ one_if (has_index t cs)
        → occurrences (x ∷ cs) (indexes r) ≡ one_if (has_index r (x ∷ cs))
        → occurrences (x ∷ cs) (unrolled i n (below t)) + occurrences (x ∷ cs) (indexes r)
          ≡ one_if (has_index (block i n t r) (x ∷ cs))
    counted (inl k) ht hr =
        let outside : child_at r x ≡ none =
          child_at_below (i + n) r x (IsCompact-IsOrdered_rest i n t r u) (ground arith) in
        let inside : has_index (block i n t r) (x ∷ cs) ≡ has_index t cs =
          has_index-some (block i n t r) t x cs
            (child_at_inside i n t r x (ground arith) (ground arith)) in
        ground (
          arith,
          k,
          ht,
          hr,
          inside,
          has_index-none r x cs outside,
          occurrences-unrolled n i x cs (below t),
        )
    counted (inr k) ht hr =
        let same : child_at (block i n t r) x ≡ child_at r x = unfold child_at in ground arith in
        ground (
          arith,
          k,
          hr,
          occurrences-unrolled n i x cs (below t),
          has_index-child_at (block i n t r) r x cs same,
        )

occurrences-indexes :
    (t : IndexTree) (cs : List ℕ)
    → IsCompact t
    → t ≢ empty
    → occurrences cs (indexes t) ≡ (if has_index t cs then 1 else 0)
occurrences-indexes empty cs u ne = absurd (ne refl)
occurrences-indexes (block i n t r) [] u ne =
    occurrences_nil-indexes (block i n t r) ∙ (unfold has_index in refl)
occurrences-indexes (block i n t r) (x ∷ cs) u ne = indexes-CountsOnce (block i n t r) u x cs

length-map_cons : (j : ℕ) (vs : List (List ℕ)) → length (map (λ v. j ∷ v) vs) ≡ length vs
length-map_cons j [] = refl
length-map_cons j (v ∷ vs) = ap suc (length-map_cons j vs)

length-unrolled : (n j : ℕ) (vs : List (List ℕ)) → length (unrolled j n vs) ≡ n * length vs
unfolding unrolled
length-unrolled zero j vs = omega arith
length-unrolled (suc n) j vs = omega (
  arith,
  length-append (map (λ v. j ∷ v) vs) (unrolled (suc j) n vs),
  length-map_cons j vs,
  length-unrolled n (suc j) vs,
)

wrap-add : (a b : ℕ) → wrap (wrap a + wrap b) ≡ wrap (a + b)
unfolding wrap
wrap-add a b = omega arith

wrap-mul : (n x : ℕ) → wrap (n * wrap x) ≡ wrap (n * x)
unfolding wrap
wrap-mul zero x = ap wrap (omega arith)
wrap-mul (suc n) x = let sub : wrap (n * wrap x) ≡ wrap (n * x) = wrap-mul n x in unfold_mul sub
  where
    unfold_mul : wrap (n * wrap x) ≡ wrap (n * x) → wrap (suc n * wrap x) ≡ wrap (suc n * x)
    unfold_mul e = omega arith

wrap_zero : 0 ≡ wrap 0
unfolding wrap
wrap_zero = refl

accumulated :
    (a n s len : ℕ)
    → s ≡ wrap len
    → (if n == 0 then wrap a else wrap (wrap a + wrap (n * s))) ≡ wrap (a + n * len)
accumulated a zero s len h = ap wrap (omega arith)
accumulated a (suc n) s len h = rw h (
    if_false (suc n == 0) _ _ (ground arith) ∙ rw (wrap-mul (suc n) len) (wrap-add a (suc n * len)))

first_size :
    (n s len : ℕ)
    → s ≡ wrap len
    → (if n == 0 then 0 else wrap (0 + wrap (n * s))) ≡ wrap (0 + n * len)
first_size n s len h = unfold_zero (accumulated 0 n s len h)
  where
    unfold_zero :
        (if n == 0 then wrap 0 else wrap (wrap 0 + wrap (n * s))) ≡ wrap (0 + n * len)
        → (if n == 0 then 0 else wrap (0 + wrap (n * s))) ≡ wrap (0 + n * len)
    unfold_zero e = ap (λ z. if n == 0 then z else wrap (z + wrap (n * s))) wrap_zero ∙ e

length-indexes :
    (i n : ℕ) (t r : IndexTree)
    → length (indexes (block i n t r)) ≡ n * length (below t) + length (indexes r)
unfolding indexes below
length-indexes i n t r =
    length-append (unrolled i n (below t)) (indexes r)
    ∙ ap (λ (k : ℕ). k + length (indexes r)) (length-unrolled n i (below t))

length-indexes_empty : (a : ℕ) → wrap a ≡ wrap (a + length (indexes empty))
unfolding indexes
length-indexes_empty a = ap wrap (omega arith)

length-below_block :
    (i n : ℕ) (t r : IndexTree)
    → wrap (0 + n * length (below t) + length (indexes r)) ≡ wrap (length (below (block i n t r)))
unfolding below
length-below_block i n t r = ap wrap (omega (arith, length-indexes i n t r))

length-below_empty : 1 ≡ wrap (length (below empty))
unfolding below wrap
length-below_empty = refl

mutual
  unfolding size

  size-below : (t : IndexTree) → size t ≡ wrap (length (below t))
  size-below empty = length-below_empty
  size-below (block i n t r) =
      ap (λ acc. add_sizes acc r) (first_size n (size t) (length (below t)) (size-below t))
      ∙ add_sizes_lem r (0 + n * length (below t))
      ∙ length-below_block i n t r

  add_sizes_lem : (r : IndexTree) (a : ℕ) → add_sizes (wrap a) r ≡ wrap (a + length (indexes r))
  add_sizes_lem empty a = length-indexes_empty a
  add_sizes_lem (block i n t r) a =
      ap (λ acc. add_sizes acc r) (accumulated a n (size t) (length (below t)) (size-below t))
      ∙ add_sizes_lem r (a + n * length (below t))
      ∙ ap wrap (omega (arith, length-indexes i n t r))

size-length-indexes : (t : IndexTree) → t ≢ empty → size t ≡ length (indexes t) % 2 ^ 64
size-length-indexes empty ne = absurd (ne refl)
size-length-indexes (block i n t r) ne =
    size-below (block i n t r) ∙ (unfold wrap below indexes in refl)

-- The iterator of a compact tree other than IndexTree() visits each index of the tree once, and
-- visits nothing else.
pub occurrences-tree_coords :
    (t : IndexTree) (cs : List ℕ)
    → IsCompact t
    → t ≢ empty
    → occurrences cs (iterator t).tree_coords ≡ (if has_index t cs then 1 else 0)
occurrences-tree_coords t cs u ne =
    ap (occurrences cs) (tree_coords-iterator t) ∙ occurrences-indexes t cs u ne

-- size() of a tree other than IndexTree() is the number of indexes that its iterator visits, as a
-- 64 bit number.
pub size-length-tree_coords :
    (t : IndexTree) → t ≢ empty → size t ≡ length (iterator t).tree_coords % 2 ^ 64
size-length-tree_coords t ne =
    size-length-indexes t ne ∙ ap (λ vs. length vs % 2 ^ 64) (sym (tree_coords-iterator t))
