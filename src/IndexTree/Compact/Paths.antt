-- ===== src/IndexTree/Compact/Paths.antt =====
-- The paths of a tree: the coordinates along a way from its root down, to a leaf or not. A compact
-- tree is determined by this set, which is closed under prefixes.
use legms.Prelude.{
  ℕ, zero, suc, ◌<◌, ◌≡◌, refl, ap, Bool, true, false, inl, inr, arith, if◌then◌else◌, sym, ◌∙◌,
  Option, none, some, List, [], ◌∷◌, Option-cases,
}
use legms.IndexTree.Tree.{IndexTree, empty, block, IsOrdered, child_at, covers, nodes}
use legms.IndexTree.Compact.Form.{IsCompact}
use legms.IndexTree.Compact.Canonical.{
  child_at-nodes, child_at-IsCompact, IsCompact-ext, child_at_below,
}

unfoldable pub has_path : IndexTree → List ℕ → Bool
has_path t [] = true
has_path t (c ∷ cs) = elim (child_at t c) [ none ↦ false | some s ↦ has_path s cs ]

pub has_path-nil : (t : IndexTree) → has_path t [] ≡ true
unfolding has_path
has_path-nil t = refl

pub has_path-empty : (x : ℕ) (cs : List ℕ) → has_path empty (x ∷ cs) ≡ false
unfolding has_path child_at
has_path-empty x cs = refl

pub has_path-block :
    (i n : ℕ) (t r : IndexTree) (x : ℕ) (cs : List ℕ)
    → has_path (block i n t r) (x ∷ cs)
      ≡ (if covers i n x then has_path t cs else has_path r (x ∷ cs))
unfolding has_path child_at
has_path-block i n t r x cs = ground arith

-- The paths below a coordinate are those of the subtree there.
pub has_path-child_at :
    (a b : IndexTree) (x : ℕ) (cs : List ℕ)
    → child_at a x ≡ child_at b x
    → has_path a (x ∷ cs) ≡ has_path b (x ∷ cs)
unfolding has_path
has_path-child_at a b x cs h =
    ap (λ (o : Option IndexTree). elim o [ none ↦ false | some s ↦ has_path s cs ]) h

pub has_path-some :
    (t s : IndexTree) (c : ℕ) (cs : List ℕ)
    → child_at t c ≡ some s
    → has_path t (c ∷ cs) ≡ has_path s cs
unfolding has_path
has_path-some t s c cs h = ground arith

pub has_path-none :
    (t : IndexTree) (c : ℕ) (cs : List ℕ) → child_at t c ≡ none → has_path t (c ∷ cs) ≡ false
unfolding has_path
has_path-none t c cs h = ground arith

pub has_path_below :
    (lo : ℕ) (r : IndexTree) (x : ℕ) (cs : List ℕ)
    → IsOrdered lo r
    → x < lo
    → has_path r (x ∷ cs) ≡ false
has_path_below lo r x cs o h = has_path-none r x cs (child_at_below lo r x o h)

abbrev pub SamePaths : IndexTree → IndexTree → Type 0
SamePaths a b = (cs : List ℕ) → has_path a cs ≡ has_path b cs

one_sided :
    (a b t : IndexTree) (x : ℕ) → SamePaths a b → child_at a x ≡ some t → child_at b x ≡ none → ⊥
one_sided a b t x same h k =
    cc (same (x ∷ []), has_path-some a t x [] h, has_path-none b x [] k, has_path-nil t)

SamePaths-bounded :
    (k : ℕ) (a b : IndexTree) → nodes a < k → IsCompact a → IsCompact b → SamePaths a b → a ≡ b
SamePaths-bounded zero a b lt u v same = absurd (omega arith)
SamePaths-bounded (suc k) a b lt u v same = IsCompact-ext a b u v λ x.
    elim (Option-cases (child_at a x)) [
      | inl ea ↦ elim (Option-cases (child_at b x)) [
        | inl eb ↦ ea ∙ sym eb
        | inr (s, eb) ↦ absurd (one_sided b a s x (λ cs. sym (same cs)) eb ea)
      ]
      | inr (t, ea) ↦ elim (Option-cases (child_at b x)) [
        | inl eb ↦ absurd (one_sided a b t x same ea eb)
        | inr (s, eb) ↦
            ea
            ∙ ap some (
                SamePaths-bounded k t s (omega (arith, child_at-nodes a x t ea))
                  (child_at-IsCompact a x t u ea) (child_at-IsCompact b x s v eb)
                  (λ cs.
                    sym (has_path-some a t x cs ea) ∙ same (x ∷ cs) ∙ has_path-some b s x cs eb))
            ∙ sym eb
      ]
    ]

-- Compact trees with the same paths are equal.
pub SamePaths-eq : (a b : IndexTree) → IsCompact a → IsCompact b → SamePaths a b → a ≡ b
SamePaths-eq a b = SamePaths-bounded (suc (nodes a)) a b (omega arith)
