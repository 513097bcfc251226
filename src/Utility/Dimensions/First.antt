-- ===== src/Utility/Dimensions/First.antt =====
-- What has_unique_values and dimensions_map return.
use mathlib.Core.Option
use legms.Prelude.{
  subst, sym, ℕ, zero, suc, ◌+◌, ◌≤◌, ◌<◌, ◌≡◌, ◌≢◌, refl, ap, ◌∙◌, true, List, [], ◌∷◌, Option,
  none, some, ◌==◌, length, drop, get_elem?, arith, Bool-cases, inl, inr, length-append, ==_refl,
  if_false,
}
use legms.Utility.Dimensions.{
  insert_axis, sort_axes, heads_of_runs, unique, has_unique_values, find_dimension, dimensions_map,
}

length-insert_axis : (d : ℕ) (ax : List ℕ) → length (insert_axis d ax) ≡ suc (length ax)
unfolding insert_axis
length-insert_axis d [] = refl
length-insert_axis d (x ∷ ax) = ground (arith, length-insert_axis d ax)

length-sort_axes : (ax : List ℕ) → length (sort_axes ax) ≡ length ax
unfolding sort_axes
length-sort_axes [] = refl
length-sort_axes (d ∷ ax) = length-insert_axis d (sort_axes ax) ∙ ap suc (length-sort_axes ax)

heads_of_runs-shorter : (ax : List ℕ) → length (heads_of_runs ax) ≤ length ax
unfolding heads_of_runs
heads_of_runs-shorter [] = omega arith
heads_of_runs-shorter (x ∷ []) = omega arith
heads_of_runs-shorter (x ∷ y ∷ ax) = ground (arith, heads_of_runs-shorter (y ∷ ax))

length-drop : (n : ℕ) (ax : List ℕ) → n ≤ length ax → n + length (drop n ax) ≡ length ax
length-drop zero ax h = omega arith
length-drop (suc n) [] h = omega arith
length-drop (suc n) (x ∷ ax) h = omega (arith, length-drop n ax (omega arith))

length-unique : (ax : List ℕ) → length (unique ax) ≡ length ax
unfolding unique
length-unique ax = omega (
  arith,
  length-append (heads_of_runs ax) (drop (length (heads_of_runs ax)) ax),
  length-drop (length (heads_of_runs ax)) ax (heads_of_runs-shorter ax),
)

-- has_unique_values returns true for every vector, also for one with equal values.
pub has_unique_values-true : (axes : List ℕ) → has_unique_values axes ≡ true
unfolding has_unique_values
has_unique_values-true axes =
    let same : length (unique (sort_axes axes)) ≡ length axes =
      length-unique (sort_axes axes) ∙ length-sort_axes axes in
    rw same (==_refl (length axes))

-- `k` is the first place of `d` in `to`; `none` says that there is no such place.
abbrev pub IsFirst : ℕ → List ℕ → Option ℕ → Type 0
IsFirst d to none = (j : ℕ) → get_elem? to j ≢ some d
IsFirst d to (some k) = (get_elem? to k ≡ some d) × ((j : ℕ) → j < k → get_elem? to j ≢ some d)

earlier_misses :
    (d t : ℕ) (to : List ℕ) (k : ℕ)
    → d ≢ t
    → ((j : ℕ) → j < k → get_elem? to j ≢ some d)
    → (j : ℕ) → j < suc k
    → get_elem? (t ∷ to) j ≢ some d
earlier_misses d t to k ne h zero lt e = ground arith
earlier_misses d t to k ne h (suc j) lt e = h j (omega arith) e

no_place :
    (d t : ℕ) (to : List ℕ)
    → d ≢ t
    → ((j : ℕ) → get_elem? to j ≢ some d)
    → (j : ℕ) → get_elem? (t ∷ to) j ≢ some d
no_place d t to ne h zero e = ground arith
no_place d t to ne h (suc j) e = h j e

miss-IsFirst :
    (d t : ℕ) (to : List ℕ) (o : Option ℕ)
    → d ≢ t
    → IsFirst d to o
    → IsFirst d (t ∷ to) (Option.map suc o)
miss-IsFirst d t to none ne first = no_place d t to ne first
miss-IsFirst d t to (some k) ne first = (first.0, earlier_misses d t to k ne first.1)

-- The place in `to`, and the value that the loop gives for it when it counts from `start`.
abbrev FoundFrom : ℕ → ℕ → List ℕ → Type 0
FoundFrom d start to =
    (o : Option ℕ) × (find_dimension d start to ≡ Option.map (λ k. k + start) o) × IsFirst d to o

found_here : (d start t : ℕ) (to : List ℕ) → d ≡ t → FoundFrom d start (t ∷ to)
unfolding find_dimension
found_here d start t to e = (some 0, ground arith, (ground arith, λ j j_neg. absurd (omega arith)))

count_on :
    (o : Option ℕ) (start : ℕ)
    → Option.map (λ k. k + suc start) o ≡ Option.map (λ k. k + start) (Option.map suc o)
count_on none start = refl
count_on (some k) start = ap some (omega arith)

found_later :
    (d start t : ℕ) (to : List ℕ) → d ≢ t → FoundFrom d (suc start) to → FoundFrom d start (t ∷ to)
unfolding find_dimension
found_later d start t to ne (o, e, first) = (
  Option.map suc o,
  if_false (d == t) _ _ (ground arith) ∙ e ∙ count_on o start,
  miss-IsFirst d t to o ne first,
)

find_dimension-FoundFrom : (d start : ℕ) (to : List ℕ) → FoundFrom d start to
unfolding find_dimension
find_dimension-FoundFrom d start [] = (none, refl, λ j e. cc)
find_dimension-FoundFrom d start (t ∷ to) = elim (Bool-cases (d == t)) [
  | inl e ↦ found_here d start t to (ground arith)
  | inr e ↦ found_later d start t to (ground arith) (find_dimension-FoundFrom d (suc start) to)
]

from_zero : (o : Option ℕ) → Option.map (λ k. k + 0) o ≡ o
from_zero none = refl
from_zero (some k) = ap some (omega arith)

find_dimension-IsFirst : (d : ℕ) (to : List ℕ) → IsFirst d to (find_dimension d 0 to)
find_dimension-IsFirst d to =
    let (o, e, first) = find_dimension-FoundFrom d 0 to in
    subst (IsFirst d to) (sym (e ∙ from_zero o)) first

-- dimensions_map gives for each axis of `from` the first place where it stands in `to`, or -1 if it
-- stands nowhere in `to`.
pub dimensions_map-IsFirst :
    (from to : List ℕ) (i d : ℕ)
    → get_elem? from i ≡ some d
    → (o : Option ℕ) × (get_elem? (dimensions_map from to) i ≡ some o) × IsFirst d to o
unfolding dimensions_map
dimensions_map-IsFirst [] to i d e = cc
dimensions_map-IsFirst (x ∷ from) to zero d e =
    (find_dimension d 0 to, cc, find_dimension-IsFirst d to)
dimensions_map-IsFirst (x ∷ from) to (suc i) d e = dimensions_map-IsFirst from to i d e
