-- ===== src/IndexTree/Compact.antt =====
-- hyperion/IndexTree.h: `compact`, which puts a vector of blocks into the form that every tree has,
-- and the constructors of a tree that call it.
pub mod Order
pub mod Meaning
pub mod Form
pub mod Canonical
pub mod Indexes
pub mod Paths
pub mod Ends
use legms.Prelude.{
  ℕ, zero, suc, ◌+◌, ◌-◌, ◌*◌, ◌≤◌, ◌<◌, ◌≡◌, refl, Bool, true, false, ◌&&◌, List, [], ◌∷◌, ltb,
  leb, ◌==◌, if◌then◌else◌, Result, ok, throws, ◌>>=◌,
}
use legms.IndexTree.Tree.{IndexTree, empty, block, eq}

-- std::copy_if with the test `std::get<1>(ch) > 0`
unfoldable pub nonempty_blocks : IndexTree → IndexTree
nonempty_blocks empty = empty
nonempty_blocks (block i n t r) =
    if ltb 0 n then block i n t (nonempty_blocks r) else nonempty_blocks r

-- std::sort by the start of a block. The order that it gives to blocks with one start is not
-- specified; `merge_blocks` throws on such blocks, whichever comes first.
unfoldable pub insert_block : ℕ → ℕ → IndexTree → IndexTree → IndexTree
insert_block i n t empty = block i n t empty
insert_block i n t (block j m s q) =
    if leb i j then block i n t (block j m s q) else block j m s (insert_block i n t q)

unfoldable pub sort_blocks : IndexTree → IndexTree
unfolding insert_block
sort_blocks empty = empty
sort_blocks (block i n t r) = insert_block i n t (sort_blocks r)

-- std::accumulate over the sorted blocks. The first three arguments are `compacted.back()`, which is
-- still open to growth; the blocks before it are final.
unfoldable pub merge_blocks : ℕ → ℕ → IndexTree → IndexTree → Result IndexTree
merge_blocks last_i last_n last_t empty = ok (block last_i last_n last_t empty)
merge_blocks last_i last_n last_t (block i n t r) = elim (ltb i (last_i + last_n)) [
  | true ↦ throws
  | false ↦ elim ((i == last_i + last_n) && eq last_t t) [
    | true ↦ merge_blocks last_i (last_n + n) last_t r
    | false ↦ merge_blocks i n t r >>= λ c. ok (block last_i last_n last_t c)
  ]
]

unfoldable pub merge_sorted : IndexTree → Result IndexTree
unfolding merge_blocks
merge_sorted empty = ok empty
merge_sorted (block i n t r) = merge_blocks i n t r

-- compact(seq)
unfoldable pub compact : IndexTree → Result IndexTree
unfolding nonempty_blocks sort_blocks merge_sorted
compact seq = merge_sorted (sort_blocks (nonempty_blocks seq))

-- IndexTree(COORD_T n)
unfoldable pub of_extent : ℕ → Result IndexTree
unfolding compact
of_extent n = compact (block 0 n empty empty)

-- IndexTree(const std::vector<std::tuple<COORD_T, IndexTree>>& ch): consecutive blocks
unfoldable pub place_blocks : ℕ → List (ℕ × IndexTree) → IndexTree
place_blocks end [] = empty
place_blocks end ((n, t) ∷ ch) = block end n t (place_blocks (end + n) ch)

unfoldable pub of_counts : List (ℕ × IndexTree) → Result IndexTree
unfolding compact place_blocks
of_counts ch = compact (place_blocks 0 ch)

-- IndexTree(const std::vector<std::tuple<COORD_T, COORD_T, IndexTree>>& ch)
unfoldable pub of_blocks : IndexTree → Result IndexTree
unfolding compact
of_blocks ch = compact ch
