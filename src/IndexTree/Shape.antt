-- ===== src/IndexTree/Shape.antt =====
-- hyperion/IndexTree.h: the queries that read off a tree's shape.
pub mod Rank
pub mod Uniform
pub mod Longest
pub mod Range
use legms.Prelude.{
  ℕ, suc, ◌+◌, ◌-◌, ◌*◌, ◌%◌, ◌^◌, min, max, Bool, true, false, ◌&&◌, ◌||◌, List, [], ◌∷◌, ltb,
  ◌==◌, if◌then◌else◌, Option, none, some,
}
use mathlib.Core.Option
use legms.IndexTree.Tree.{IndexTree, empty, block, eq, is_empty}

-- std::numeric_limits<COORD_T>, COORD_T unsigned of 64 bits
abbrev pub coord_min : ℕ
coord_min = 0

abbrev pub coord_max : ℕ
coord_max = 2 ^ 64 - 1

-- size_t arithmetic
unfoldable pub wrap : ℕ → ℕ
wrap x = x % 2 ^ 64

-- The loop of is_array(): `lo != prev_end || t != t0` returns false.
unfoldable pub is_run : ℕ → IndexTree → IndexTree → Bool
is_run prev_end t0 empty = true
is_run prev_end t0 (block lo n t r) = (lo == prev_end) && (eq t t0 && is_run (lo + n) t0 r)

unfoldable pub is_array : IndexTree → Bool
unfolding is_empty is_run
is_array empty = false
is_array (block i n t r) = (is_empty t || is_array t) && is_run i t (block i n t r)

unfoldable pub is_leaf : IndexTree → Bool
unfolding is_empty
is_leaf empty = true
is_leaf (block i n t r) = is_empty t && is_leaf r

-- `add_sizes` is the std::accumulate of size(), over the blocks after the first.
unfoldable mutual
  unfolding wrap

  pub size : IndexTree → ℕ
  size empty = 1
  size (block i n t r) = add_sizes (if n == 0 then 0 else wrap (0 + wrap (n * size t))) r

  pub add_sizes : ℕ → IndexTree → ℕ
  add_sizes acc empty = acc
  add_sizes acc (block i n t r) =
      add_sizes (if n == 0 then acc else wrap (acc + wrap (n * size t))) r

-- index_range(), inclusive
unfoldable pub range_from : ℕ × ℕ → IndexTree → ℕ × ℕ
range_from (lo_min, hi_max) empty = (lo_min, hi_max)
range_from (lo_min, hi_max) (block lo n t r) =
    let hi = lo + n - 1 in
    range_from ((if ltb lo lo_min then lo else lo_min), (if ltb hi_max hi then hi else hi_max)) r

unfoldable pub index_range : IndexTree → ℕ × ℕ
unfolding range_from
index_range t = range_from (coord_max, coord_min) t

unfoldable mutual
  unfolding is_leaf

  pub height : IndexTree → ℕ
  height empty = 0
  height (block i n t r) =
      if is_leaf (block i n t r) then 0 else 1 + max_height (max 0 (height t)) r

  pub max_height : ℕ → IndexTree → ℕ
  max_height hmax empty = hmax
  max_height hmax (block i n t r) = max_height (max hmax (height t)) r

-- `result != t.rank()` clears the result, and a cleared result ends the loop of rank().
unfoldable pub agree : Option ℕ → Option ℕ → Option ℕ
agree none o = none
agree (some k) none = none
agree (some k) (some j) = if k == j then some k else none

unfoldable mutual
  unfolding is_leaf agree

  pub rank : IndexTree → Option ℕ
  rank empty = some 0
  rank (block i n t r) =
      if is_leaf (block i n t r) then some 1 else Option.map suc (same_rank (rank t) r)

  pub same_rank : Option ℕ → IndexTree → Option ℕ
  same_rank result empty = result
  same_rank result (block i n t r) = same_rank (agree result (rank t)) r

-- array_dims, array_shape
unfoldable pub array_shape : IndexTree → List (ℕ × ℕ)
array_shape empty = []
array_shape (block i n t r) = (i, i + n - 1) ∷ array_shape t

-- The loops of extend_envelope, on the ranges below the first.
unfoldable pub widen : List (ℕ × ℕ) → List (ℕ × ℕ) → List (ℕ × ℕ)
widen [] te = te
widen (r ∷ rs) [] = r ∷ rs
widen ((rlo, rhi) ∷ rs) ((telo, tehi) ∷ te) = (min rlo telo, max rhi tehi) ∷ widen rs te

-- envelope(); `extend` is its loop over the children, from the first range and those below it.
unfoldable mutual
  unfolding is_array array_shape widen

  pub envelope : IndexTree → List (ℕ × ℕ)
  envelope empty = []
  envelope (block lo n t r) =
      if is_array (block lo n t r)
      then array_shape (block lo n t r)
      else extend (min coord_max lo) (max coord_min (lo + n - 1)) (widen [] (envelope t)) r

  pub extend : ℕ → ℕ → List (ℕ × ℕ) → IndexTree → List (ℕ × ℕ)
  extend rlo rhi env empty = (rlo, rhi) ∷ env
  extend rlo rhi env (block lo n t r) =
      extend (min rlo lo) (max rhi (lo + n - 1)) (widen env (envelope t)) r
