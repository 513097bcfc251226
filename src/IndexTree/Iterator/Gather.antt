-- ===== src/IndexTree/Iterator/Gather.antt =====
-- The vectors that `gather_coords` changes in place end up holding the indexes of the tree, in order.
use mathlib.Core.List.{reverse, reverse_aux, reverse-append, reverse-reverse}
use legms.Prelude.{
  ℕ, zero, suc, ◌+◌, ◌≤◌, ◌<◌, ◌≡◌, refl, ap, sym, ◌∙◌, List, [], ◌∷◌, ◌++◌, map, not, ◌==◌,
  if◌then◌else◌, some, length, get_elem?, arith, append_assoc, append-nil, Bool-cases, inl, inr,
  if_true, if_false, drop,
}
use legms.IndexTree.Tree.{IndexTree, empty, block, is_empty}
use legms.IndexTree.Iterator.{
  bump, pop_back, at_back, push_run, repeat, gather_coords, iterator, visit_all,
}

-- The indexes j, j + 1, … (n of them), each before every index of `below`.
unfoldable pub unrolled : ℕ → ℕ → List (List ℕ) → List (List ℕ)
unrolled j zero below = []
unrolled j (suc n) below = map (λ v. j ∷ v) below ++ unrolled (suc j) n below

-- The indexes of a vector of blocks, first to last.
unfoldable pub indexes : IndexTree → List (List ℕ)
unfolding is_empty unrolled
indexes empty = []
indexes (block i n t r) = unrolled i n (if is_empty t then [] ∷ [] else indexes t) ++ indexes r

rev_onto : List ℕ → List ℕ → List ℕ
rev_onto [] cur = cur
rev_onto (x ∷ v) cur = rev_onto v (x ∷ cur)

-- Indexes below the index `cur`, pushed one by one.
push_all : List ℕ → List (List ℕ) → List (List ℕ) → List (List ℕ)
unfolding rev_onto
push_all cur [] acc = acc
push_all cur (v ∷ vs) acc = push_all cur vs (rev_onto v cur ∷ acc)

push_all-append :
    (cur : List ℕ) (vs ws acc : List (List ℕ))
    → push_all cur (vs ++ ws) acc ≡ push_all cur ws (push_all cur vs acc)
unfolding push_all
push_all-append cur [] ws acc = refl
push_all-append cur (v ∷ vs) ws acc = push_all-append cur vs ws (rev_onto v cur ∷ acc)

push_all-map :
    (j : ℕ) (cur : List ℕ) (vs acc : List (List ℕ))
    → push_all cur (map (λ v. j ∷ v) vs) acc ≡ push_all (j ∷ cur) vs acc
unfolding push_all
push_all-map j cur [] acc = refl
push_all-map j cur (v ∷ vs) acc = push_all-map j cur vs (rev_onto v (j ∷ cur) ∷ acc)

push_run_lem :
    (n j : ℕ) (cur : List ℕ) (acc : List (List ℕ))
    → push_run n (j ∷ cur) acc ≡ cur ∷ push_all cur (unrolled j n ([] ∷ [])) acc
unfolding push_run push_all unrolled
push_run_lem zero j cur acc = refl
push_run_lem (suc n) j cur acc = push_run_lem n (suc j) cur ((j ∷ cur) ∷ acc)

abbrev Gathers : IndexTree → Type 0
Gathers t =
    (cur : List ℕ) (acc : List (List ℕ))
    → gather_coords t (cur ∷ acc) ≡ cur ∷ push_all cur (indexes t) acc

at_back-bump :
    (j : ℕ) (cur : List ℕ) (acc : List (List ℕ))
    → at_back bump ((j ∷ cur) ∷ acc) ≡ (suc j ∷ cur) ∷ acc
unfolding at_back bump
at_back-bump j cur acc = refl

repeat_lem :
    (t : IndexTree) (n j : ℕ) (cur : List ℕ) (acc : List (List ℕ))
    → Gathers t
    → at_back pop_back (repeat n (λ c. at_back bump (gather_coords t c)) ((j ∷ cur) ∷ acc))
      ≡ cur ∷ push_all cur (unrolled j n (indexes t)) acc
unfolding repeat unrolled
repeat_lem t zero j cur acc h = unfold push_all at_back pop_back in refl
repeat_lem t (suc n) j cur acc h =
    ap (λ c. at_back pop_back (repeat n (λ c. at_back bump (gather_coords t c)) c))
      (ap (at_back bump) (h (j ∷ cur) acc)
        ∙ at_back-bump j cur (push_all (j ∷ cur) (indexes t) acc))
    ∙ repeat_lem t n (suc j) cur (push_all (j ∷ cur) (indexes t) acc) h
    ∙ ap (λ c. cur ∷ c)
        (sym (
          push_all-append cur (map (λ v. j ∷ v) (indexes t)) (unrolled (suc j) n (indexes t)) acc
          ∙ ap (push_all cur (unrolled (suc j) n (indexes t)))
              (push_all-map j cur (indexes t) acc)))

-- gather_coords leaves the index on top of the vector as it was, and pushes under it the indexes of
-- the tree below that index.
gather_coords-Gathers : (t : IndexTree) → Gathers t
unfolding gather_coords indexes
gather_coords-Gathers empty cur acc = unfold push_all in refl
gather_coords-Gathers (block i n empty r) cur acc =
    ap (gather_coords r) (push_run_lem n i cur acc)
    ∙ gather_coords-Gathers r cur (push_all cur (unrolled i n ([] ∷ [])) acc)
    ∙ ap (λ c. cur ∷ c) (sym (push_all-append cur (unrolled i n ([] ∷ [])) (indexes r) acc))
gather_coords-Gathers (block i n (block j m s q) r) cur acc =
    let t : IndexTree = block j m s q in
    ap (gather_coords r) (repeat_lem t n i cur acc (gather_coords-Gathers (block j m s q)))
    ∙ gather_coords-Gathers r cur (push_all cur (unrolled i n (indexes t)) acc)
    ∙ ap (λ c. cur ∷ c) (sym (push_all-append cur (unrolled i n (indexes t)) (indexes r) acc))

rev_onto_lem : (v cur : List ℕ) → rev_onto v cur ≡ reverse v ++ cur
unfolding rev_onto
rev_onto_lem [] cur = refl
rev_onto_lem (x ∷ v) cur =
    rev_onto_lem v (x ∷ cur) ∙ sym (simp (reverse-append (x ∷ []) v, append_assoc))

push_all_lem : (vs acc : List (List ℕ)) → push_all [] vs acc ≡ reverse (map reverse vs) ++ acc
unfolding push_all
push_all_lem [] acc = refl
push_all_lem (v ∷ vs) acc =
    push_all_lem vs (rev_onto v [] ∷ acc)
    ∙ rw (rev_onto_lem v [], append-nil)
        (sym (simp (reverse-append (reverse v ∷ []) (map reverse vs), append_assoc)))

map-reverse-reverse : (vs : List (List ℕ)) → map reverse (map reverse vs) ≡ vs
map-reverse-reverse [] = refl
map-reverse-reverse (v ∷ vs) = rw (reverse-reverse, map-reverse-reverse vs)

map-reverse_aux :
    (vs ws : List (List ℕ))
    → map reverse (reverse_aux vs ws) ≡ reverse_aux (map reverse vs) (map reverse ws)
map-reverse_aux [] ws = refl
map-reverse_aux (v ∷ vs) ws = map-reverse_aux vs (v ∷ ws)

-- The iterator holds the indexes of the tree, in order.
pub tree_coords-iterator : (t : IndexTree) → (iterator t).tree_coords ≡ indexes t
unfolding iterator pop_back
tree_coords-iterator t =
    ap (λ c. reverse (map reverse (pop_back c))) (gather_coords-Gathers t [] [])
    ∙ ap (λ c. reverse (map reverse c)) (push_all_lem (indexes t) [] ∙ append-nil _)
    ∙ ap reverse (map-reverse_aux (map reverse (indexes t)) [])
    ∙ reverse-reverse _
    ∙ map-reverse-reverse (indexes t)

pub drop_step :
    (xs : List (List ℕ)) (k : ℕ)
    → k < length xs
    → map some (drop k xs) ≡ get_elem? xs k ∷ map some (drop (suc k) xs)
drop_step [] k h = absurd (omega arith)
drop_step (x ∷ xs) zero h = unfold_drop xs
  where
    unfold_drop :
        (xs : List (List ℕ)) → map some (drop 0 (x ∷ xs)) ≡ some x ∷ map some (drop 1 (x ∷ xs))
    unfold_drop xs = refl
drop_step (x ∷ xs) (suc k) h = drop_step xs k (omega arith)

pub drop_all : (xs : List (List ℕ)) (k : ℕ) → k ≡ length xs → drop k xs ≡ []
drop_all [] k h = rw h
drop_all (x ∷ xs) zero h = absurd (omega arith)
drop_all (x ∷ xs) (suc k) h = drop_all xs k (omega arith)

visit_from :
    (f : ℕ) (xs : List (List ℕ)) (k : ℕ)
    → k ≤ length xs
    → length xs < k + f
    → visit_all f (record { tree_coords = xs; current = k }) ≡ map some (drop k xs)
unfolding visit_all
visit_from zero xs k le enough = absurd (omega arith)
visit_from (suc f) xs k le enough = elim (Bool-cases (k == length xs)) [
  | inl e ↦ if_false (not (k == length xs)) _ _ (rw e) ∙ rw (drop_all xs k (ground arith))
  | inr e ↦
      let more : k < length xs = ground arith in
      if_true (not (k == length xs)) _ _ (rw e)
      ∙ ap (λ rest. get_elem? xs k ∷ rest) (visit_from f xs (suc k) more (omega arith))
      ∙ sym (drop_step xs k more)
]

-- The loop `while (it) { … *it …; ++it; }`, with fuel above the number of indexes, visits the
-- indexes of the tree in order, and ends.
pub visit_all-iterator :
    (t : IndexTree) (f : ℕ)
    → length (indexes t) < f
    → visit_all f (iterator t) ≡ map some (indexes t)
unfolding iterator
visit_all-iterator t f h =
    ap (λ coords. visit_all f (record { tree_coords = coords; current = 0 }))
      (tree_coords-iterator t)
    ∙ visit_from f (indexes t) 0 (omega arith) (omega arith)
