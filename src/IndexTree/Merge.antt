-- ===== src/IndexTree/Merge.antt =====
-- hyperion/IndexTree.h: `less_than` and `merged_with`.
pub mod Overlay
pub mod Union
pub mod Apart
pub mod Laws
use legms.Prelude.{
  ℕ, zero, suc, ◌+◌, ◌-◌, ◌*◌, ◌≤◌, ◌<◌, min, ◌≡◌, refl, Bool, true, false, ◌&&◌, ◌||◌, ltb, leb,
  ◌==◌, if◌then◌else◌, Result, ok, throws, out_of_fuel, ◌>>=◌,
}
use legms.IndexTree.Tree.{IndexTree, empty, block, eq, is_empty, append, nodes}
use legms.IndexTree.Compact.{of_blocks}

-- std::get<0>(m_children.front()); the code calls it on trees with children only.
unfoldable pub front_start : IndexTree → ℕ
front_start empty = 0
front_start (block j m s q) = j

-- The end i + n of m_children.back().
unfoldable pub back_end : IndexTree → ℕ
back_end empty = 0
back_end (block i n t empty) = i + n
back_end (block i n t (block j m s q)) = back_end (block j m s q)

unfoldable pub less_than : IndexTree → IndexTree → Bool
less_than empty empty = false
less_than empty (block j m s q) = true
less_than (block i n t r) empty = false
less_than (block i n t empty) (block j m s q) =
    if leb (i + n) j
    then true
    else if (m == 1) && (is_empty q && (i + n - 1 == j))
    then less_than t s
    else false
less_than (block i n t (block k l u r)) other = less_than (block k l u r) other

-- The loop of merged_with over the two vectors. `*ch` and `*tch`, which the loop copies to (i, n, t)
-- and (it, nt, tt) and trims there, are the first blocks of its two arguments. A call of merged_with
-- on subtrees stands in the loop, so that one amount of fuel serves both.
unfoldable mutual
  unfolding is_empty less_than front_start back_end append of_blocks

  pub merged_with : ℕ → IndexTree → IndexTree → Result IndexTree
  merged_with zero this tree = out_of_fuel
  merged_with (suc f) this tree =
      let looped = merge_loop f this tree >>= of_blocks in
      if is_empty tree || eq this tree
      then ok this
      else if is_empty this
      then ok tree
      else if less_than this tree && ltb (back_end this) (front_start tree)
      then of_blocks (append this tree)
      else looped

  pub merge_loop : ℕ → IndexTree → IndexTree → Result IndexTree
  merge_loop zero ch tch = out_of_fuel
  merge_loop (suc f) empty empty = ok empty
  merge_loop (suc f) empty (block it nt tt tch) =
      merge_loop f empty tch >>= λ newch. ok (block it nt tt newch)
  merge_loop (suc f) (block i n t ch) empty =
      merge_loop f ch empty >>= λ newch. ok (block i n t newch)
  merge_loop (suc f) (block i n t ch) (block it nt tt tch) =
      let t_first = merge_loop f (block i n t ch) tch >>= λ newch. ok (block it nt tt newch) in
      let first = merge_loop f ch (block it nt tt tch) >>= λ newch. ok (block i n t newch) in
      let overlap =
        (let bi = if ltb i it then it else i in
          let n' = n - (bi - i) in
          let nt' = nt - (bi - it) in
          let bn = min n' nt' in
          let ended = n' - bn == 0 in
          let next =
            merge_loop f (if ended then ch else block (bi + bn) (n' - bn) t ch)
              (if ended then block (bi + bn) (nt' - bn) tt tch else tch) in
          merged_with f t tt >>= λ both. next >>= λ newch.
          let common = block bi bn both newch in
          ok (
            if ltb i it
            then block i (it - i) t common
            else if ltb it i
            then block it (i - it) tt common
            else common)) in
      if leb (it + nt) i then t_first else if leb (i + n) it then first else overlap

-- this->merged_with(tree), with fuel for every block of the two trees.
unfoldable pub merge : IndexTree → IndexTree → Result IndexTree
unfolding merged_with
merge this tree = merged_with (suc (suc (nodes this + nodes tree))) this tree
