-- ===== src/IndexTree/Serial.antt =====
-- hyperion/IndexTree.h: serialize and deserialize, and `index_tree_serdez` of hyperion/utility.h and
-- hyperion/utility.cc, on a machine with little-endian words of 8 bytes (size_t and coord_t).
pub mod RoundTrip
use legms.Prelude.{
  ℕ, zero, suc, ◌+◌, ◌-◌, ◌*◌, ◌^◌, ◌≤◌, ◌<◌, ◌≡◌, refl, Bool, true, false, List, [], ◌∷◌, ◌++◌,
  ltb, ◌==◌, if◌then◌else◌, Result, ok, throws, out_of_fuel, ◌>>=◌, ◌>>◌, length, take, drop,
}
use legms.Prelude.Bytes.{le_bytes, from_le}
use legms.IndexTree.Tree.{IndexTree, empty, block}
use legms.IndexTree.Compact.{of_blocks}

abbrev pub sizeof_size_t : ℕ
sizeof_size_t = 8

abbrev pub sizeof_coord : ℕ
sizeof_coord = 8

-- The loop of serialized_size(), from the running result.
unfoldable pub add_child_sizes : ℕ → IndexTree → ℕ
add_child_sizes result empty = result
add_child_sizes result (block i n t r) =
    add_child_sizes (result + 2 * sizeof_coord + add_child_sizes sizeof_size_t t) r

unfoldable pub serialized_size : IndexTree → ℕ
unfolding add_child_sizes
serialized_size t = add_child_sizes sizeof_size_t t

-- The bytes that the loop of serialize() writes behind the word for the size. That word is written
-- last, when the size is known.
unfoldable pub serialize_children : IndexTree → List ℕ
serialize_children empty = []
serialize_children (block i n t r) =
    let child = serialize_children t in
    le_bytes sizeof_coord i
    ++ (le_bytes sizeof_coord n
        ++ ((le_bytes sizeof_size_t (sizeof_size_t + length child) ++ child)
            ++ serialize_children r))

-- serialize(buff): the bytes from `start` on, and the result.
unfoldable pub serialize : IndexTree → List ℕ
unfolding serialize_children
serialize t =
    let body = serialize_children t in le_bytes sizeof_size_t (sizeof_size_t + length body) ++ body

-- A read through a pointer. Past the end of the buffer the program's behaviour is undefined, and the
-- model stops.
unfoldable pub read_word : ℕ → List ℕ → Result ℕ
read_word w buff = if length (take w buff) == w then ok (from_le (take w buff)) else throws

-- `remaining` is `end - buff`. A loop that steps over `end` runs on past the buffer.
unfoldable mutual
  unfolding read_word of_blocks

  pub deserialize_from : ℕ → List ℕ → Result IndexTree
  deserialize_from zero buff = out_of_fuel
  deserialize_from (suc f) buff = do
    sz ← read_word sizeof_size_t buff
    if ltb sz sizeof_size_t then throws else ok sz
    ch ← read_children f (sz - sizeof_size_t) (drop sizeof_size_t buff)
    of_blocks ch

  pub read_children : ℕ → ℕ → List ℕ → Result IndexTree
  read_children zero remaining buff = out_of_fuel
  read_children (suc f) remaining buff =
      let more = do
        i ← read_word sizeof_coord buff
        let buff1 = drop sizeof_coord buff
        n ← read_word sizeof_coord buff1
        let buff2 = drop sizeof_coord buff1
        sz ← read_word sizeof_size_t buff2
        t ← deserialize_from f buff2
        let step = 2 * sizeof_coord + sz
        if ltb remaining step then throws else ok step
        ch ← read_children f (remaining - step) (drop sz buff2)
        ok (block i n t ch)
      in if remaining == 0 then ok empty else more

-- deserialize(buff); every call reads a word of its own.
unfoldable pub deserialize : List ℕ → Result IndexTree
unfolding deserialize_from
deserialize buff = deserialize_from (suc (length buff)) buff

-- index_tree_serdez::deserialize: the value, and the size that the buffer starts with.
unfoldable pub serdez_deserialize : List ℕ → Result (IndexTree × ℕ)
unfolding deserialize read_word
serdez_deserialize buffer = do
  val ← deserialize buffer
  sz ← read_word sizeof_size_t buffer
  ok (val, sz)
