-- ===== src/IndexTree/Compact/Canonical.antt =====
-- Compact trees are determined by the subtrees that they denote at each coordinate.
use legms.Prelude.{
  ℕ, ◌+◌, ◌≤◌, ◌<◌, ◌≡◌, refl, ap, true, inl, inr, arith, ltb, Bool-cases, ltb→lt, ltb→le, sym,
  subst, ◌∙◌, none, some, ◌≢◌,
}
use legms.IndexTree.Tree.{IndexTree, empty, block, eq, eq_refl, IsOrdered, child_at, covers, nodes}
use legms.IndexTree.Compact.Form.{IsCompact, IsCompact-IsOrdered_rest}

pub child_at-empty : (x : ℕ) → child_at empty x ≡ none
unfolding child_at
child_at-empty x = refl

pub child_at_below :
    (lo : ℕ) (r : IndexTree) (x : ℕ) → IsOrdered lo r → x < lo → child_at r x ≡ none
unfolding child_at
child_at_below lo empty x o h = refl
child_at_below lo (block i n t r) x o h = ground (arith, child_at_below (i + n) r x)

pub child_at_inside :
    (i n : ℕ) (t r : IndexTree) (x : ℕ) → i ≤ x → x < i + n → child_at (block i n t r) x ≡ some t
unfolding child_at
child_at_inside i n t r x h k = ground arith

pub child_at_above :
    (i n : ℕ) (t r : IndexTree) (x : ℕ) → i + n ≤ x → child_at (block i n t r) x ≡ child_at r x
unfolding child_at
child_at_above i n t r x h = ground arith

-- A block that follows another one does not start at its end with its subtree.
Follows-child_at_end :
    (i n : ℕ) (t r : IndexTree) → IsCompact (block i n t r) → child_at r (i + n) ≢ some t
unfolding child_at
Follows-child_at_end i n t empty h e = cc
Follows-child_at_end i n t (block j m s q) h e = elim (Bool-cases (covers j m (i + n))) [
  | inl k ↦
      let same : s ≡ t = ground arith in
      let joined : eq t s ≡ true = rw same (eq_refl t) in ground arith
  | inr k ↦
      let ordered : IsOrdered (j + m) q = IsCompact-IsOrdered_rest j m s q h.3 in
      let nothing : child_at (block j m s q) (i + n) ≡ none =
        child_at_below (i + n + 1) (block j m s q) (i + n) (ground arith, ordered) (omega arith) in
      ground arith
]

module _ (i n : ℕ) (t r : IndexTree) (j m : ℕ) (s q : IndexTree) (a : IsCompact (block i n t r))
    (b : IsCompact (block j m s q))
    (same : (x : ℕ) → child_at (block i n t r) x ≡ child_at (block j m s q) x) where
  starts_le : j ≤ i
  starts_le = elim (Bool-cases (ltb i j)) [
    | inl k ↦ cc (
      same i,
      child_at_inside i n t r i (omega arith) (omega arith),
      child_at_below j (block j m s q) i (omega arith, IsCompact-IsOrdered_rest j m s q b)
          (ltb→lt i j k),
    )
    | inr k ↦ ltb→le i j k
  ]

  subtrees_eq : i ≡ j → t ≡ s
  subtrees_eq e =
      let here : child_at (block j m s q) i ≡ some s =
        child_at_inside j m s q i (omega arith) (omega arith) in
      cc (same i, child_at_inside i n t r i (omega arith) (omega arith), here)

  counts_le : i ≡ j → m ≤ n
  counts_le e = elim (Bool-cases (ltb n m)) [
    | inl k ↦ absurd (
        Follows-child_at_end i n t r a (
          sym (child_at_above i n t r (i + n) (omega arith))
          ∙ same (i + n)
          ∙ child_at_inside j m s q (i + n) (omega arith) (ground arith)
          ∙ ap some (sym (subtrees_eq e))))
    | inr k ↦ ltb→le n m k
  ]

  rests_eq : i ≡ j → n ≡ m → (x : ℕ) → child_at r x ≡ child_at q x
  rests_eq e f x = elim (Bool-cases (ltb x (i + n))) [
    | inl k ↦
        child_at_below (i + n) r x (IsCompact-IsOrdered_rest i n t r a) (ltb→lt x (i + n) k)
        ∙ sym (child_at_below (j + m) q x (IsCompact-IsOrdered_rest j m s q b) (ground arith))
    | inr k ↦
        sym (child_at_above i n t r x (ltb→le x (i + n) k))
        ∙ same x
        ∙ child_at_above j m s q x (ground arith)
  ]

block_eq :
    (i n : ℕ) (t r : IndexTree) (j m : ℕ) (s q : IndexTree)
    → i ≡ j
    → n ≡ m
    → t ≡ s
    → r ≡ q
    → block i n t r ≡ block j m s q
block_eq i n t r j m s q e f g h = cc

-- Two compact trees with the same subtree at every coordinate are the same tree.
pub IsCompact-ext :
    (a b : IndexTree) → IsCompact a → IsCompact b → ((x : ℕ) → child_at a x ≡ child_at b x) → a ≡ b
IsCompact-ext empty empty u v same = refl
IsCompact-ext empty (block j m s q) u v same =
    cc (same j, child_at_inside j m s q j (omega arith) (omega arith), child_at-empty j)
IsCompact-ext (block i n t r) empty u v same =
    cc (same i, child_at_inside i n t r i (omega arith) (omega arith), child_at-empty i)
IsCompact-ext (block i n t r) (block j m s q) u v same =
    let back : (x : ℕ) → child_at (block j m s q) x ≡ child_at (block i n t r) x =
      λ x. sym (same x) in
    let starts : i ≡ j =
      omega (arith, starts_le i n t r j m s q u v same, starts_le j m s q i n t r v u back) in
    let counts : n ≡ m = omega (
      arith,
      counts_le i n t r j m s q u v same starts,
      counts_le j m s q i n t r v u back (sym starts),
    ) in
    block_eq i n t r j m s q starts counts (subtrees_eq i n t r j m s q u v same starts)
      (IsCompact-ext r q u.3 v.3 (rests_eq i n t r j m s q u v same starts counts))

pub child_at-nodes :
    (a : IndexTree) (x : ℕ) (t : IndexTree) → child_at a x ≡ some t → nodes t < nodes a
unfolding child_at nodes
child_at-nodes empty x t h = cc
child_at-nodes (block i n s r) x t h = elim (Bool-cases (covers i n x)) [
  | inl k ↦ let e : s ≡ t = ground arith in let f : nodes s ≡ nodes t = ap nodes e in omega arith
  | inr k ↦ let e : child_at r x ≡ some t = ground arith in omega (arith, child_at-nodes r x t e)
]

pub child_at-IsCompact :
    (a : IndexTree) (x : ℕ) (t : IndexTree) → IsCompact a → child_at a x ≡ some t → IsCompact t
unfolding child_at
child_at-IsCompact empty x t u h = cc
child_at-IsCompact (block i n s r) x t u h = elim (Bool-cases (covers i n x)) [
  | inl k ↦ let e : s ≡ t = ground arith in subst IsCompact e u.1
  | inr k ↦ let e : child_at r x ≡ some t = ground arith in child_at-IsCompact r x t u.3 e
]
