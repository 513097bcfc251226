-- ===== src/Utility/Dimensions.antt =====
-- hyperion/utility.h: `has_unique_values` and `dimensions_map`, on vectors of axes.
pub mod First
use legms.Prelude.{
  ℕ, zero, suc, ◌+◌, Bool, List, [], ◌∷◌, ◌++◌, Option, none, some, leb, ◌==◌, if◌then◌else◌,
  length, drop, map,
}

-- std::sort
unfoldable pub insert_axis : ℕ → List ℕ → List ℕ
insert_axis d [] = d ∷ []
insert_axis d (x ∷ ax) = if leb d x then d ∷ x ∷ ax else x ∷ insert_axis d ax

unfoldable pub sort_axes : List ℕ → List ℕ
unfolding insert_axis
sort_axes [] = []
sort_axes (d ∷ ax) = insert_axis d (sort_axes ax)

-- The elements that std::unique keeps: the first one of each run of equal ones.
unfoldable pub heads_of_runs : List ℕ → List ℕ
heads_of_runs [] = []
heads_of_runs (x ∷ []) = x ∷ []
heads_of_runs (x ∷ y ∷ ax) = let rest = heads_of_runs (y ∷ ax) in if x == y then rest else x ∷ rest

-- std::unique moves them to the front of the vector. The vector keeps its size: what stands behind
-- them stays there.
unfoldable pub unique : List ℕ → List ℕ
unfolding heads_of_runs
unique ax = heads_of_runs ax ++ drop (length (heads_of_runs ax)) ax

unfoldable pub has_unique_values : List ℕ → Bool
unfolding sort_axes unique
has_unique_values axes = length (unique (sort_axes axes)) == length axes

-- The inner loop: the first j with from[i] == to[j]. A result of -1 is `none`.
unfoldable pub find_dimension : ℕ → ℕ → List ℕ → Option ℕ
find_dimension d j [] = none
find_dimension d j (t ∷ to) = if d == t then some j else find_dimension d (suc j) to

unfoldable pub dimensions_map : List ℕ → List ℕ → List (Option ℕ)
unfolding find_dimension
dimensions_map from to = map (λ d. find_dimension d 0 to) from
