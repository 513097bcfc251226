-- ===== src/IndexTree/Merge/Overlay.antt =====
-- One round of the loop of `merged_with`: from what the calls in the round return to what the round
-- returns.
use legms.Prelude.{
  ℕ, ◌+◌, ◌-◌, ◌<◌, min, ◌≡◌, refl, sym, ◌∙◌, Bool, true, false, ◌&&◌, ◌||◌, ltb, leb, ◌==◌,
  if◌then◌else◌, Result, ok, ◌>>=◌, arith, List, ◌∷◌, Bool-cases, inl, inr,
}
use legms.IndexTree.Tree.{IndexTree, block, IsOrdered, covers}
use legms.IndexTree.Compact.Form.{IsCompact, HasCompactChildren}
use legms.IndexTree.Compact.Order.{IsOrdered-weaken}
use legms.IndexTree.Compact.Paths.{has_path, has_path-block, has_path_below}

-- A vector of ordered blocks with the paths of two others.
abbrev pub Overlays : ℕ → IndexTree → IndexTree → Result IndexTree → Type 0
Overlays lo a b res =
    (c : IndexTree) × (res ≡ ok c)
    × IsOrdered lo c
    × HasCompactChildren c
    × ((x : ℕ) (cs : List ℕ) → has_path c (x ∷ cs) ≡ (has_path a (x ∷ cs) || has_path b (x ∷ cs)))

-- A tree with the paths of two others.
abbrev pub Unites : IndexTree → IndexTree → Result IndexTree → Type 0
Unites a b res =
    (c : IndexTree) × (res ≡ ok c)
    × IsCompact c
    × ((cs : List ℕ) → has_path c cs ≡ (has_path a cs || has_path b cs))

-- Vectors that the loop is given.
abbrev pub Fits : ℕ → IndexTree → Type 0
Fits lo a = IsOrdered lo a × HasCompactChildren a

or_false : (b : Bool) → (b || false) ≡ b
or_false true = refl
or_false false = refl

-- A block of one side that ends before the other side begins.
module _ (lo i n : ℕ) (t ch other : IndexTree) (here : Fits lo (block i n t ch))
    (there : IsOrdered (i + n) other) where
  left_first_paths :
      (newch : IndexTree) (x : ℕ) (cs : List ℕ)
      → has_path newch (x ∷ cs) ≡ (has_path ch (x ∷ cs) || has_path other (x ∷ cs))
      → has_path (block i n t newch) (x ∷ cs)
        ≡ (has_path (block i n t ch) (x ∷ cs) || has_path other (x ∷ cs))
  left_first_paths newch x cs h =
      rw (has_path-block i n t newch x cs, has_path-block i n t ch x cs)
        (elim (Bool-cases (covers i n x)) [
          | inl k ↦
              let none_there : has_path other (x ∷ cs) ≡ false =
                has_path_below (i + n) other x cs there (ground arith) in
              rw (k, none_there) (sym (or_false (has_path t cs)))
          | inr k ↦ rw k h
        ])

  pub left_first-Overlays :
      (res : Result IndexTree)
      → Overlays (i + n) ch other res
      → Overlays lo (block i n t ch) other (res >>= λ newch. ok (block i n t newch))
  left_first-Overlays res (c, e, o, w, paths) = (
    block i n t c,
    rw e,
    (here.0.0, o),
    (here.1.0, w),
    λ x cs. left_first_paths c x cs (paths x cs),
  )

or_comm : (a b : Bool) → (a || b) ≡ (b || a)
or_comm true true = refl
or_comm true false = refl
or_comm false true = refl
or_comm false false = refl

pub Overlays-comm :
    (lo : ℕ) (a b : IndexTree) (res : Result IndexTree) → Overlays lo a b res → Overlays lo b a res
Overlays-comm lo a b res (c, e, o, w, paths) =
    (c, e, o, w, λ x cs. paths x cs ∙ or_comm (has_path a (x ∷ cs)) (has_path b (x ∷ cs)))

-- Two blocks that overlap: from their common start `bi` on, for `bn` coordinates.
module _ (lo i n : ℕ) (t ch : IndexTree) (it nt : ℕ) (tt' tch : IndexTree)
    (this : Fits lo (block i n t ch)) (tree : Fits lo (block it nt tt' tch)) (left : i < it + nt)
    (right : it < i + n) where
  abbrev pub bi : ℕ
  bi = if ltb i it then it else i

  abbrev pub n' : ℕ
  n' = n - (bi - i)

  abbrev pub nt' : ℕ
  nt' = nt - (bi - it)

  abbrev pub bn : ℕ
  bn = min n' nt'

  abbrev pub ended : Bool
  ended = n' - bn == 0

  abbrev pub next_ch : IndexTree
  next_ch = if ended then ch else block (bi + bn) (n' - bn) t ch

  abbrev pub next_tch : IndexTree
  next_tch = if ended then block (bi + bn) (nt' - bn) tt' tch else tch

  abbrev pub emitted : IndexTree → IndexTree → IndexTree
  emitted both newch =
      if ltb i it
      then block i (it - i) t (block bi bn both newch)
      else if ltb it i
      then block it (i - it) tt' (block bi bn both newch)
      else block bi bn both newch

  pub next_ch-Fits : Fits (bi + bn) next_ch
  next_ch-Fits = elim (Bool-cases ended) [
    | inl e ↦ rw e (IsOrdered-weaken (i + n) (bi + bn) ch (ground arith) this.0.1, this.1.1)
    | inr e ↦ rw e (
      (omega arith, IsOrdered-weaken (i + n) (bi + bn + (n' - bn)) ch (ground arith) this.0.1),
      this.1,
    )
  ]

  pub next_tch-Fits : Fits (bi + bn) next_tch
  next_tch-Fits = elim (Bool-cases ended) [
    | inl e ↦ rw e (
      (omega arith, IsOrdered-weaken (it + nt) (bi + bn + (nt' - bn)) tch (ground arith) tree.0.1),
      tree.1,
    )
    | inr e ↦ rw e (IsOrdered-weaken (it + nt) (bi + bn) tch (ground arith) tree.0.1, tree.1.1)
  ]

  next_ch_paths :
      (x : ℕ) (cs : List ℕ)
      → has_path next_ch (x ∷ cs)
        ≡ (if leb (bi + bn) x && ltb x (i + n) then has_path t cs else has_path ch (x ∷ cs))
  next_ch_paths x cs = elim (Bool-cases ended) [
    | inl e ↦ rw e (ground arith)
    | inr e ↦ rw e (has_path-block (bi + bn) (n' - bn) t ch x cs ∙ ground arith)
  ]

  next_tch_paths :
      (x : ℕ) (cs : List ℕ)
      → has_path next_tch (x ∷ cs)
        ≡ (if leb (bi + bn) x && ltb x (it + nt) then has_path tt' cs else has_path tch (x ∷ cs))
  next_tch_paths x cs = elim (Bool-cases ended) [
    | inl e ↦ rw e (has_path-block (bi + bn) (nt' - bn) tt' tch x cs ∙ ground arith)
    | inr e ↦ rw e (ground arith)
  ]

  emitted_blocks :
      (both newch : IndexTree) (x : ℕ) (cs : List ℕ)
      → has_path (emitted both newch) (x ∷ cs) ≡ (
          if leb i x && ltb x bi
          then has_path t cs
          else if leb it x && ltb x bi
          then has_path tt' cs
          else if covers bi bn x
          then has_path both cs
          else has_path newch (x ∷ cs))
  emitted_blocks both newch x cs = ground (
    arith,
    has_path-block i (it - i) t (block bi bn both newch) x cs,
    has_path-block it (i - it) tt' (block bi bn both newch) x cs,
    has_path-block bi bn both newch x cs,
  )

  emitted-IsOrdered :
      (both newch : IndexTree) → IsOrdered (bi + bn) newch → IsOrdered lo (emitted both newch)
  emitted-IsOrdered both newch o = ground arith

  emitted-HasCompactChildren :
      (both newch : IndexTree)
      → IsCompact both
      → HasCompactChildren newch
      → HasCompactChildren (emitted both newch)
  emitted-HasCompactChildren both newch u w = ground arith

  emitted-paths :
      (both newch : IndexTree) (x : ℕ) (cs : List ℕ)
      → has_path both cs ≡ (has_path t cs || has_path tt' cs)
      → has_path newch (x ∷ cs) ≡ (has_path next_ch (x ∷ cs) || has_path next_tch (x ∷ cs))
      → has_path (emitted both newch) (x ∷ cs)
        ≡ (has_path (block i n t ch) (x ∷ cs) || has_path (block it nt tt' tch) (x ∷ cs))
  emitted-paths both newch x cs h k = ground (
    arith,
    h,
    k,
    emitted_blocks both newch x cs,
    next_ch_paths x cs,
    next_tch_paths x cs,
    has_path-block i n t ch x cs,
    has_path-block it nt tt' tch x cs,
    has_path_below (i + n) ch x cs this.0.1,
    has_path_below (it + nt) tch x cs tree.0.1,
  )

  pub overlap-Overlays :
      (res_both res_next : Result IndexTree)
      → Unites t tt' res_both
      → Overlays (bi + bn) next_ch next_tch res_next
      → Overlays lo
          (block i n t ch)
          (block it nt tt' tch)
          (res_both >>= λ both. res_next >>= λ newch. ok (emitted both newch))
  overlap-Overlays res_both res_next (both, eb, u, union) (newch, en, o, w, paths) = (
    emitted both newch,
    rw (eb, en),
    emitted-IsOrdered both newch o,
    emitted-HasCompactChildren both newch u w,
    λ x cs. emitted-paths both newch x cs (union cs) (paths x cs),
  )
