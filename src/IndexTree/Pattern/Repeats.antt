-- ===== src/IndexTree/Pattern/Repeats.antt =====
-- What the repeating constructor makes of patterns with one block.
use native.Mathlib.Nat.{div-add-mod, mod-lt, mod-eq_of_lt, div-eq_of_lt, mul_comm, div-eq_of_lt-le}
use legms.Prelude.{
  ℕ, zero, suc, ◌+◌, ◌-◌, ◌*◌, ◌/◌, ◌%◌, ◌^◌, ◌≤◌, ◌<◌, ◌≡◌, refl, ap, sym, ◌∙◌, min, arith, leb,
  ◌==◌, if◌then◌else◌, ok, throws, if_true, if_false, if-of_false, subst,
}
use legms.IndexTree.Tree.{IndexTree, empty, block, append, eq}
use legms.IndexTree.Compact.{of_blocks}
use legms.IndexTree.Shape.{size, wrap, index_range}
use legms.IndexTree.Pattern.{of_pattern, remainder, whole_copies}

-- The tree of one block without subtrees, 0~(m - 1).
abbrev pub span : ℕ → IndexTree
span m = block 0 m empty empty

size-block :
    (m : ℕ) (t : IndexTree) → m * size t < 2 ^ 64 → 0 < m → size (block 0 m t empty) ≡ m * size t
unfolding size wrap
size-block m t h pos = ground arith

size-span : (m : ℕ) → m < 2 ^ 64 → 0 < m → size (span m) ≡ m
unfolding size wrap
size-span m h pos = ground arith

index_range-block : (m : ℕ) (t : IndexTree) → 0 < m → (index_range (block 0 m t empty) ≡ (0, m - 1))
unfolding index_range
index_range-block m t h = ground arith

-- The constructor, from what its loop returns.
of_pattern_step :
    (f k w num : ℕ) (pattern rest : IndexTree)
    → size pattern ≡ k
    → 0 < k
    → index_range pattern ≡ (0, w)
    → remainder f (num % k) (num / k * (w + 1)) pattern ≡ ok rest
    → of_pattern (suc f) pattern num
      ≡ of_blocks (append (whole_copies (num / k) (w + 1) pattern) rest)
unfolding of_pattern
of_pattern_step f k w num pattern rest es pos er h =
    rw (es, er, h) (if_false (k == 0) _ _ (ground arith))

-- A round that takes `nt` whole copies of a block's subtree.
remainder_whole :
    (f rem offset i n : ℕ) (t rch rest : IndexTree) {k nt : ℕ}
    → size t ≡ k
    → 0 < rem
    → k ≤ rem
    → min (rem / k) n ≡ nt
    → remainder f (rem - nt * k) offset (if nt == n then rch else block i n t rch) ≡ ok rest
    → remainder (suc f) rem offset (block i n t rch) ≡ ok (block (i + offset) nt t rest)
unfolding remainder
remainder_whole f rem offset i n t rch rest {k} {nt} es pos le en h =
    rw (es, en, h) (if_false (rem == 0) _ _ (ground arith) ∙ if_true (leb k rem) _ _ (ground arith))

-- A round that takes a part of one copy.
remainder_part :
    (f rem offset i n : ℕ) (t rch pt rest : IndexTree) {k : ℕ}
    → size t ≡ k
    → 0 < rem
    → rem < k
    → of_pattern f t rem ≡ ok pt
    → remainder f 0 offset (block i n t rch) ≡ ok rest
    → remainder (suc f) rem offset (block i n t rch) ≡ ok (block (i + offset) 1 pt rest)
unfolding remainder
remainder_part f rem offset i n t rch pt rest {k} es pos lt ep h =
    rw (es, ep, h)
      (if_false (rem == 0) _ _ (ground arith) ∙ if_false (leb k rem) _ _ (ground arith))

remainder_done : (f offset : ℕ) (rch : IndexTree) → remainder (suc f) 0 offset rch ≡ ok empty
unfolding remainder
remainder_done f offset empty = refl
remainder_done f offset (block i n t rch) = refl

size-empty : size empty ≡ 1
unfolding size
size-empty = refl

-- The loop on a span: what is left over is one more block behind the whole copies.
left_over : ℕ → ℕ → IndexTree
left_over offset zero = empty
left_over offset (suc r) = block (0 + offset) (suc r) empty empty

remainder-span :
    (f m r offset : ℕ) → r < m → remainder (suc (suc f)) r offset (span m) ≡ ok (left_over offset r)
unfolding left_over
remainder-span f m zero offset h = remainder_done (suc f) offset (span m)
remainder-span f m (suc r) offset h =
    remainder_whole (suc f) (suc r) offset 0 m empty empty empty {k = 1} {nt = suc r} size-empty
      (omega arith) (omega arith) (omega arith)
      (subst (λ z. remainder (suc f) z offset (if suc r == m then empty else span m) ≡ ok empty)
        (sym spent) (remainder_done f offset (if suc r == m then empty else span m)))
  where
    spent : suc r - suc r * 1 ≡ 0
    spent = omega arith

suc_pred : (m : ℕ) → 0 < m → m - 1 + 1 ≡ m
suc_pred m h = omega arith

span_join : (w r : ℕ) → 0 < w + r → of_blocks (append (span w) (left_over w r)) ≡ ok (span (w + r))
unfolding of_blocks append left_over eq
span_join zero zero h = absurd (omega arith)
span_join zero (suc r) h = ground arith
span_join (suc w) zero h = ground arith
span_join (suc w) (suc r) h = ground arith

-- Repeating the pattern 0~(m - 1), for a positive m of 64 bits, up to a positive size gives one
-- block of that size.
pub of_pattern-span :
    (f m num : ℕ)
    → 0 < m
    → m < 2 ^ 64
    → 0 < num
    → of_pattern (suc (suc (suc f))) (span m) num ≡ ok (span num)
unfolding whole_copies
of_pattern-span f m num pos fits some_num =
    let w : ℕ = num / m * (m - 1 + 1) in
    let w_eq : w ≡ m * (num / m) =
      ap (λ (z : ℕ). num / m * z) (suc_pred m pos) ∙ mul_comm (num / m) m in
    let total : w + num % m ≡ num = ap (λ (z : ℕ). z + num % m) w_eq ∙ div-add-mod num m in
    of_pattern_step (suc (suc f)) m (m - 1) num (span m) (left_over w (num % m))
      (size-span m fits pos) pos (index_range-block m empty pos)
      (remainder-span f m (num % m) w (mod-lt num pos))
    ∙ span_join w (num % m) (omega arith)
    ∙ ap (λ z. ok (span z)) total

quotient : (m q r : ℕ) → r < m → (q * m + r) / m ≡ q
quotient m q r h = div-eq_of_lt-le m (omega arith) (omega arith)

-- Two blocks at one start, behind an empty one.
same_start_throws :
    (q : ℕ) (t u : IndexTree)
    → 0 < q
    → of_blocks (append (block 0 0 t empty) (block 0 q t (block 0 1 u empty))) ≡ throws
unfolding of_blocks append
same_start_throws zero t u h = absurd (omega arith)
same_start_throws (suc q) t u h = ground arith

at_least : (m q r : ℕ) → 0 < q → m ≤ q * m + r
at_least m zero r h = absurd (omega arith)
at_least m (suc q) r h = omega arith

zero-mul : (k : ℕ) → 0 ≡ 0 * k
zero-mul k = omega arith

-- The loop of the constructor on q children and a part of the next one.
parts :
    (f m n q r : ℕ)
    → 0 < q
    → q < n
    → 0 < r
    → r < m
    → size (span m) ≡ m
    → of_pattern (suc (suc (suc f))) (span m) r ≡ ok (span r)
    → remainder
        (suc (suc (suc (suc (suc f)))))
        (q * m + r)
        (0 * (n - 1 + 1))
        (block 0 n (span m) empty)
      ≡ ok (block 0 q (span m) (block 0 1 (span r) empty))
parts f m n q r qpos qn rpos rm es child =
    let offset : ℕ = 0 * (n - 1 + 1) in
    let left : q * m + r - q * m ≡ r = omega arith in
    let here : 0 + offset ≡ 0 = omega arith in
    let part : remainder (suc (suc (suc (suc f)))) r offset (block 0 n (span m) empty)
        ≡ ok (block (0 + offset) 1 (span r) empty) =
      remainder_part (suc (suc (suc f))) r offset 0 n (span m) empty (span r) empty es rpos rm child
        (remainder_done (suc (suc f)) offset (block 0 n (span m) empty)) in
    remainder_whole (suc (suc (suc (suc f)))) (q * m + r) offset 0 n (span m) empty
      (block (0 + offset) 1 (span r) empty) {k = m} {nt = q} es (omega arith) (at_least m q r qpos)
      (rw (quotient m q r rm) (omega arith))
      (rw left (
        if-of_false
          (λ rch.
            remainder (suc (suc (suc (suc f)))) r offset rch
            ≡ ok (block (0 + offset) 1 (span r) empty))
          (q == n) _ _ (ground arith) part))
    ∙ ap (λ z. ok (block z q (span m) (block z 1 (span r) empty))) here

-- A pattern of n equal children 0~(m - 1), repeated up to a size between two of its children, makes
-- the constructor throw: for q < n whole children and a part r < m of the next one, the block for the
-- part starts where the block for the q children starts.
pub of_pattern-throws :
    (f m n q r : ℕ)
    → 0 < q
    → q < n
    → 0 < r
    → r < m
    → n * m < 2 ^ 64
    → of_pattern (suc (suc (suc (suc (suc (suc f)))))) (block 0 n (span m) empty) (q * m + r)
      ≡ throws
unfolding whole_copies
of_pattern-throws f m n q r qpos qn rpos rm fits =
    let num : ℕ = q * m + r in
    let below : num < n * m = grind arith in
    let small : m < 2 ^ 64 = grind arith in
    let es : size (span m) ≡ m = size-span m small (omega arith) in
    let child : of_pattern (suc (suc (suc f))) (span m) r ≡ ok (span r) =
      of_pattern-span f m r (omega arith) small rpos in
    let size_pattern : size (block 0 n (span m) empty) ≡ n * m =
      size-block n (span m) (rw es fits) (omega arith) ∙ ap (λ (z : ℕ). n * z) es in
    of_pattern_step (suc (suc (suc (suc (suc f))))) (n * m) (n - 1) num (block 0 n (span m) empty)
      (block 0 q (span m) (block 0 1 (span r) empty)) size_pattern (omega arith)
      (index_range-block n (span m) (omega arith))
      (rw (mod-eq_of_lt below, div-eq_of_lt below) (parts f m n q r qpos qn rpos rm es child))
    ∙ rw (div-eq_of_lt below) (unfold_copies (same_start_throws q (span m) (span r) qpos))
  where
    unfold_copies :
        of_blocks
            (append (block 0 0 (span m) empty) (block 0 q (span m) (block 0 1 (span r) empty)))
          ≡ throws
        → of_blocks (
            append
              (block 0 (0 * (n - 1 + 1)) (span m) empty)
              (block 0 q (span m) (block 0 1 (span r) empty)))
          ≡ throws
    unfold_copies h =
        subst
          (λ z.
            of_blocks
              (append (block 0 z (span m) empty) (block 0 q (span m) (block 0 1 (span r) empty)))
            ≡ throws)
          (zero-mul (n - 1 + 1)) h
