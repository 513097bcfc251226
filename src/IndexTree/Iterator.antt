-- ===== src/IndexTree/Iterator.antt =====
-- hyperion/IndexTree.h: `IndexTreeIterator`, which gathers the indexes of a tree.
-- While they are gathered, a vector is a list with its last element (`back()`) first: both the vector
-- of indexes and each index in it.
pub mod Gather
pub mod Coverage
use mathlib.Core.List.{reverse}
use legms.Prelude.{
  ℕ, zero, suc, ◌+◌, Bool, List, [], ◌∷◌, ◌++◌, map, ltb, not, ◌==◌, if◌then◌else◌, Option, none,
  some, length, get_elem?,
}
use legms.IndexTree.Tree.{IndexTree, empty, block, is_empty}

-- ++v.back()
unfoldable pub bump : List ℕ → List ℕ
bump [] = []
bump (b ∷ v) = suc b ∷ v

-- v.pop_back()
unfoldable pub pop_back {ℓ} : {A : Type ℓ} → List A → List A
pop_back [] = []
pop_back (b ∷ v) = v

-- A change of coords.back().
unfoldable pub at_back : (List ℕ → List ℕ) → List (List ℕ) → List (List ℕ)
at_back f [] = []
at_back f (last ∷ coords) = f last ∷ coords

-- for (j = 0; j < n; ++j) { coords.push_back(last); ++b; }, then `last` goes back on `coords`
unfoldable pub push_run : ℕ → List ℕ → List (List ℕ) → List (List ℕ)
unfolding bump pop_back
push_run zero last coords = pop_back last ∷ coords
push_run (suc n) last coords = push_run n (bump last) (last ∷ coords)

unfoldable pub gather_leaf : ℕ → ℕ → List (List ℕ) → List (List ℕ)
unfolding push_run
gather_leaf i n [] = []
gather_leaf i n (last ∷ coords) = push_run n (i ∷ last) coords

unfoldable pub repeat {ℓ} : {A : Type ℓ} → ℕ → (A → A) → A → A
repeat zero f a = a
repeat (suc n) f a = repeat n f (f a)

-- gather_coords(tree, coords)
unfoldable pub gather_coords : IndexTree → List (List ℕ) → List (List ℕ)
unfolding is_empty gather_leaf bump pop_back at_back repeat
gather_coords empty coords = coords
gather_coords (block i n t r) coords = gather_coords r (
    if is_empty t
    then gather_leaf i n coords
    else at_back pop_back
        (repeat n (λ c. at_back bump (gather_coords t c)) (at_back (λ last. i ∷ last) coords)))

pub record IndexTreeIterator : Type 0 where
  pub tree_coords : List (List ℕ)
  pub current : ℕ

-- IndexTreeIterator(tree): an empty index stands on the vector while the others are gathered. The
-- vectors are turned round to stand in their order from here on.
unfoldable pub iterator : IndexTree → IndexTreeIterator
unfolding gather_coords
iterator tree = record {
  tree_coords = reverse (map reverse (pop_back (gather_coords tree ([] ∷ []))));
  current = 0;
}

-- operator bool
unfoldable pub is_valid : IndexTreeIterator → Bool
is_valid it = not (it.current == length it.tree_coords)

-- operator++
unfoldable pub advance : IndexTreeIterator → IndexTreeIterator
advance it = record it { current = suc it.current }

-- operator*; `none` is a read past the end.
unfoldable pub deref : IndexTreeIterator → Option (List ℕ)
deref it = get_elem? it.tree_coords it.current

-- while (it) { visit(*it); ++it; }, with fuel: what is visited.
unfoldable pub visit_all : ℕ → IndexTreeIterator → List (Option (List ℕ))
unfolding is_valid advance deref
visit_all zero it = []
visit_all (suc f) it =
    let rest = visit_all f (advance it) in if is_valid it then deref it ∷ rest else []
