-- ===== src/IndexTree/Serial/RoundTrip.antt =====
-- What `serialize` writes, `deserialize` reads back.
use legms.Prelude.{
  ℕ, zero, suc, ◌+◌, ◌-◌, ◌*◌, ◌^◌, ◌≤◌, ◌<◌, ◌≡◌, ◌≢◌, refl, ap, sym, ◌∙◌, List, [], ◌++◌, ◌==◌,
  ok, length, drop, arith, append_assoc, length-append, drop-append, ==_refl, if_true, if_false,
  le→ltb, append-nil,
}
use legms.Prelude.Bytes.{
  byte_lengths, length-append_bytes, le_bytes, length-le_bytes, take-le_bytes, drop-le_bytes,
  from_le-le_bytes,
}
use legms.IndexTree.Tree.{IndexTree, empty, block, nodes}
use legms.IndexTree.Compact.{of_blocks}
use legms.IndexTree.Compact.Form.{IsCompact, compact_id}
use legms.IndexTree.Serial.{
  sizeof_size_t, sizeof_coord, add_child_sizes, serialized_size, serialize_children, serialize,
  read_word, deserialize_from, read_children, deserialize, serdez_deserialize,
}

-- The numbers of a tree fit in words: its coordinates and its counts.
abbrev pub FitsWords : IndexTree → Type 0
FitsWords empty = Unit
FitsWords (block i n t r) =
    (i < 256 ^ sizeof_coord) × (n < 256 ^ sizeof_coord) × FitsWords t × FitsWords r

pub read_word-le_bytes :
    (w x : ℕ) (rest : List ℕ) → x < 256 ^ w → read_word w (le_bytes w x ++ rest) ≡ ok x
unfolding read_word
read_word-le_bytes w x rest h = rw (take-le_bytes w x rest) (
    if_true (length (le_bytes w x) == w) _ _ (rw (length-le_bytes w x) (==_refl w))
    ∙ ap ok (from_le-le_bytes w x h))

read_children_step :
    (f remaining i n sz : ℕ) (t ch : IndexTree) (buff buff1 buff2 buff3 : List ℕ)
    → remaining ≢ 0
    → read_word sizeof_coord buff ≡ ok i
    → drop sizeof_coord buff ≡ buff1
    → read_word sizeof_coord buff1 ≡ ok n
    → drop sizeof_coord buff1 ≡ buff2
    → read_word sizeof_size_t buff2 ≡ ok sz
    → deserialize_from f buff2 ≡ ok t
    → 2 * sizeof_coord + sz ≤ remaining
    → drop sz buff2 ≡ buff3
    → read_children f (remaining - (2 * sizeof_coord + sz)) buff3 ≡ ok ch
    → read_children (suc f) remaining buff ≡ ok (block i n t ch)
unfolding read_children
read_children_step f remaining i n sz t ch buff buff1 buff2 buff3 r0 ri d1 rn d2 rs rt room d3 rc =
    if_false (remaining == 0) _ _ (ground arith)
    ∙ rw (ri, d1, rn, d2, rs, rt, d3) (rw (le→ltb remaining (2 * sizeof_coord + sz) room, rc) refl)

serialize-rest :
    (t : IndexTree) (rest : List ℕ)
    → serialize t ++ rest
      ≡ le_bytes sizeof_size_t (sizeof_size_t + length (serialize_children t))
        ++ (serialize_children t ++ rest)
unfolding serialize
serialize-rest t rest =
    append_assoc (le_bytes sizeof_size_t (sizeof_size_t + length (serialize_children t)))
      (serialize_children t) rest

length-serialize :
    (t : IndexTree) → length (serialize t) ≡ sizeof_size_t + length (serialize_children t)
unfolding serialize
length-serialize t =
    let body = serialize_children t in
    let size : ℕ = sizeof_size_t + length body in
    omega
      (arith, length-append (le_bytes sizeof_size_t size) body, length-le_bytes sizeof_size_t size)

serialize_children-block :
    (i n : ℕ) (t r : IndexTree) (rest : List ℕ)
    → serialize_children (block i n t r) ++ rest
      ≡ le_bytes sizeof_coord i
        ++ (le_bytes sizeof_coord n ++ (serialize t ++ (serialize_children r ++ rest)))
unfolding serialize serialize_children
serialize_children-block i n t r rest = simp append_assoc

length-serialize_children :
    (i n : ℕ) (t r : IndexTree)
    → length (serialize_children (block i n t r))
      ≡ 2 * sizeof_coord + length (serialize t) + length (serialize_children r)
length-serialize_children i n t r =
    ap length
      (sym (append-nil (serialize_children (block i n t r))) ∙ serialize_children-block i n t r [])
    ∙ omega (byte_lengths, length-append_bytes (serialize_children r) [])

abbrev ReadsTree : ℕ → Type 0
ReadsTree f =
    (t : IndexTree) (rest : List ℕ)
    → suc (2 * nodes t) < f
    → IsCompact t
    → FitsWords t
    → sizeof_size_t + length (serialize_children t) < 256 ^ sizeof_size_t
    → deserialize_from f (serialize t ++ rest) ≡ ok t

abbrev ReadsChildren : ℕ → Type 0
ReadsChildren f =
    (t : IndexTree) (rest : List ℕ)
    → 2 * nodes t < f
    → IsCompact t
    → FitsWords t
    → length (serialize_children t) < 256 ^ sizeof_size_t
    → read_children f (length (serialize_children t)) (serialize_children t ++ rest) ≡ ok t

children_step : (f : ℕ) → ReadsTree f → ReadsChildren f → ReadsChildren (suc f)
unfolding nodes
children_step f tree children empty rest h u v fits =
    unfold read_children serialize_children in refl
children_step f tree children (block i n t r) rest h u v fits =
    let body : List ℕ = serialize_children r ++ rest in
    let size : ℕ = sizeof_size_t + length (serialize_children t) in
    let buff2 : List ℕ = serialize t ++ body in
    let buff1 : List ℕ = le_bytes sizeof_coord n ++ buff2 in
    let total : ℕ = length (serialize_children (block i n t r)) in
    let total_eq : total ≡ 2 * sizeof_coord + size + length (serialize_children r) =
      omega (arith, length-serialize_children i n t r, length-serialize t) in
    let child_fits : size < 256 ^ sizeof_size_t = omega arith in
    let skipped : total - (2 * sizeof_coord + size) ≡ length (serialize_children r) = omega arith in
    rw (serialize_children-block i n t r rest) (
      read_children_step f total i n size t r (le_bytes sizeof_coord i ++ buff1) buff1 buff2 body
        (omega arith) (read_word-le_bytes sizeof_coord i buff1 v.0)
        (drop-le_bytes sizeof_coord i buff1) (read_word-le_bytes sizeof_coord n buff2 v.1)
        (drop-le_bytes sizeof_coord n buff2)
        (rw (serialize-rest t body)
          (read_word-le_bytes sizeof_size_t size (serialize_children t ++ body) child_fits))
        (tree t body (omega arith) u.1 v.2 child_fits) (omega arith)
        (rw (← length-serialize t) (drop-append (serialize t) body))
        (rw skipped (children r rest (omega arith) u.3 v.3 (omega arith))))

tree_step : (f : ℕ) → ReadsChildren f → ReadsTree (suc f)
unfolding deserialize_from of_blocks
tree_step f children t rest h u v fits =
    let size : ℕ = sizeof_size_t + length (serialize_children t) in
    let body : List ℕ = serialize_children t ++ rest in
    let rest_size : size - sizeof_size_t ≡ length (serialize_children t) = omega arith in
    rw (serialize-rest t rest) (
      rw (read_word-le_bytes sizeof_size_t size body fits, drop-le_bytes sizeof_size_t size body)
        (rw
          (
            le→ltb size sizeof_size_t (omega arith),
            rest_size,
            children t rest (omega arith) u v (omega arith),
          )
          (compact_id t u)))

mutual
  reads_tree : (f : ℕ) → ReadsTree f
  reads_tree zero t rest h u v fits = absurd (omega arith)
  reads_tree (suc f) t rest h u v fits = tree_step f (reads_children f) t rest h u v fits

  reads_children : (f : ℕ) → ReadsChildren f
  reads_children zero t rest h u v fits = absurd (omega arith)
  reads_children (suc f) t rest h u v fits =
      children_step f (reads_tree f) (reads_children f) t rest h u v fits

nodes-le-length : (t : IndexTree) → 2 * nodes t ≤ length (serialize_children t)
unfolding nodes
nodes-le-length empty = omega arith
nodes-le-length (block i n t r) = omega (
  arith,
  nodes-le-length t,
  nodes-le-length r,
  length-serialize_children i n t r,
  length-serialize t,
)

-- A compact tree whose numbers fit in words is read back from the bytes that serialize writes for it,
-- whatever bytes follow them, with the fuel that `deserialize` has.
pub deserialize-serialize :
    (t : IndexTree) (rest : List ℕ)
    → IsCompact t
    → FitsWords t
    → sizeof_size_t + length (serialize_children t) < 256 ^ sizeof_size_t
    → deserialize (serialize t ++ rest) ≡ ok t
unfolding deserialize
deserialize-serialize t rest u v fits =
    reads_tree (suc (length (serialize t ++ rest))) t rest
      (omega (
        byte_lengths,
        length-append_bytes (serialize t) rest,
        nodes-le-length t,
        length-serialize t,
      ))
      u v fits

add_child_sizes_lem :
    (result : ℕ) (t : IndexTree) → add_child_sizes result t ≡ result + length (serialize_children t)
unfolding add_child_sizes
add_child_sizes_lem result empty = unfold serialize_children in omega arith
add_child_sizes_lem result (block i n t r) =
    add_child_sizes_lem (result + 2 * sizeof_coord + add_child_sizes sizeof_size_t t) r
    ∙ omega (
      arith,
      add_child_sizes_lem sizeof_size_t t,
      length-serialize_children i n t r,
      length-serialize t,
    )

-- serialized_size() is the number of bytes that serialize() writes.
pub length-serialize-serialized_size : (t : IndexTree) → length (serialize t) ≡ serialized_size t
unfolding serialized_size
length-serialize-serialized_size t = length-serialize t ∙ sym (add_child_sizes_lem sizeof_size_t t)

-- index_tree_serdez: for a compact tree whose coordinates, counts and serialized size fit in
-- words of 8 bytes, deserialize on the bytes that serialize writes, whatever follows them,
-- returns the tree and its serialized size.
pub serdez_deserialize-serialize :
    (t : IndexTree) (rest : List ℕ)
    → IsCompact t
    → FitsWords t
    → serialized_size t < 256 ^ sizeof_size_t
    → serdez_deserialize (serialize t ++ rest) ≡ ok (t, serialized_size t)
unfolding serdez_deserialize
serdez_deserialize-serialize t rest u v fits =
    let size : ℕ = sizeof_size_t + length (serialize_children t) in
    let size_eq : size ≡ serialized_size t =
      sym (length-serialize t) ∙ length-serialize-serialized_size t in
    let header : read_word sizeof_size_t (serialize t ++ rest) ≡ ok (serialized_size t) =
      rw (serialize-rest t rest) (
        read_word-le_bytes sizeof_size_t size (serialize_children t ++ rest) (omega arith)
        ∙ ap ok size_eq) in
    rw (deserialize-serialize t rest u v (omega arith), header)
