-- ===== src/IndexTree/Pattern.antt =====
-- hyperion/IndexTree.h: the constructor that repeats a pattern until the tree has a given size.
pub mod Repeats
use legms.Prelude.{
  ℕ, zero, suc, ◌+◌, ◌-◌, ◌*◌, ◌/◌, ◌%◌, min, leb, ◌==◌, if◌then◌else◌, not, Result, ok, throws,
  out_of_fuel, ◌>>=◌, ◌>>◌,
}
use legms.IndexTree.Tree.{IndexTree, empty, block, append, count, nodes}
use legms.IndexTree.Compact.{of_blocks}
use legms.IndexTree.Shape.{size, index_range}

-- The children of the pattern, `offset` further on.
unfoldable pub shifted : ℕ → IndexTree → IndexTree
shifted offset empty = empty
shifted offset (block i n t r) = block (i + offset) n t (shifted offset r)

-- for (r = 0; r < pattern_rep; ++r) { …; offset += stride; }
unfoldable pub shifted_copies : ℕ → ℕ → ℕ → IndexTree → IndexTree
unfolding shifted append
shifted_copies offset stride zero children = empty
shifted_copies offset stride (suc pattern_rep) children =
    append (shifted offset children) (shifted_copies (offset + stride) stride pattern_rep children)

-- The whole repetitions of the pattern; one block is made longer in place of being copied.
unfoldable pub whole_copies : ℕ → ℕ → IndexTree → IndexTree
unfolding shifted_copies
whole_copies pattern_rep stride (block i n t empty) = block i (pattern_rep * stride) t empty
whole_copies pattern_rep stride children = shifted_copies 0 stride pattern_rep children

-- IndexTree(pattern, num); `remainder` is the loop `while (pattern_rem > 0 && rch != rch_end)`. The
-- division by the size of the pattern and the assertion on its start come first.
unfoldable mutual
  unfolding size index_range whole_copies append of_blocks

  pub of_pattern : ℕ → IndexTree → ℕ → Result IndexTree
  of_pattern zero pattern num = out_of_fuel
  of_pattern (suc f) pattern num =
      let pattern_n = size pattern in
      let pattern_rep = num / pattern_n in
      let stride = (index_range pattern).1 + 1 in
      let built = do
        rest ← remainder f (num % pattern_n) (pattern_rep * stride) pattern
        of_blocks (append (whole_copies pattern_rep stride pattern) rest)
      in if pattern_n == 0
        then throws
        else if not ((index_range pattern).0 == 0)
        then throws
        else built

  pub remainder : ℕ → ℕ → ℕ → IndexTree → Result IndexTree
  remainder zero pattern_rem offset rch = out_of_fuel
  remainder (suc f) pattern_rem offset empty = ok empty
  remainder (suc f) pattern_rem offset (block i n t rch) =
      let nt = min (pattern_rem / size t) n in
      let whole = do
        rest ←
            remainder f (pattern_rem - nt * size t) offset
              (if nt == n then rch else block i n t rch)
        ok (block (i + offset) nt t rest)
      in let part = do
        pt ← of_pattern f t pattern_rem
        rest ← remainder f 0 offset (block i n t rch)
        ok (block (i + offset) 1 pt rest)
        in if pattern_rem == 0 then ok empty else if leb (size t) pattern_rem then whole else part
