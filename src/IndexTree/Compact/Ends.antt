-- ===== src/IndexTree/Compact/Ends.antt =====
-- The indexes of a tree among its paths: those that go no further.
use legms.Prelude.{
  ℕ, ◌≡◌, refl, sym, ◌∙◌, true, false, inl, inr, ◌⊎◌, arith, List, [], ◌∷◌, ◌++◌, Option-cases,
}
use legms.IndexTree.Tree.{IndexTree, empty, block, child_at, is_empty}
use legms.IndexTree.Compact.Form.{IsCompact}
use legms.IndexTree.Compact.Canonical.{child_at-IsCompact, child_at_inside}
use legms.IndexTree.Compact.Indexes.{has_index, has_index-some, has_index-none}
use legms.IndexTree.Compact.Paths.{
  has_path, has_path-nil, has_path-some, has_path-none, has_path-empty,
}

pub has_index-has_path :
    (t : IndexTree) (cs : List ℕ) → has_index t cs ≡ true → has_path t cs ≡ true
has_index-has_path t [] h = has_path-nil t
has_index-has_path t (c ∷ cs) h = elim (Option-cases (child_at t c)) [
  | inl e ↦ cc (has_index-none t c cs e)
  | inr (s, e) ↦
      has_path-some t s c cs e ∙ has_index-has_path s cs (sym (has_index-some t s c cs e) ∙ h)
]

-- No path goes on from an index.
pub has_index_ends :
    (t : IndexTree) (cs : List ℕ) (x : ℕ) (ys : List ℕ)
    → has_index t cs ≡ true
    → has_path t (cs ++ x ∷ ys) ≡ false
has_index_ends empty [] x ys h = has_path-empty x ys
has_index_ends (block i n t r) [] x ys h = unfold has_index in cc
has_index_ends t (c ∷ cs) x ys h = elim (Option-cases (child_at t c)) [
  | inl e ↦ cc (has_index-none t c cs e)
  | inr (s, e) ↦
      has_path-some t s c (cs ++ x ∷ ys) e
      ∙ has_index_ends s cs x ys (sym (has_index-some t s c cs e) ∙ h)
]

-- A path of a compact tree is an index, or goes on.
pub has_path_cases :
    (t : IndexTree) (cs : List ℕ)
    → IsCompact t
    → has_path t cs ≡ true
    → (has_index t cs ≡ true) ⊎ ((x : ℕ) × (has_path t (cs ++ x ∷ []) ≡ true))
has_path_cases empty [] u h = inl (unfold has_index is_empty in refl)
has_path_cases (block i n t r) [] u h = inr (
  i,
  has_path-some (block i n t r) t i [] (child_at_inside i n t r i (omega arith) (omega arith))
      ∙ has_path-nil t,
)
has_path_cases t (c ∷ cs) u h = elim (Option-cases (child_at t c)) [
  | inl e ↦ cc (has_path-none t c cs e)
  | inr (s, e) ↦
      elim (has_path_cases s cs (child_at-IsCompact t c s u e)
        (sym (has_path-some t s c cs e) ∙ h)) [
          | inl k ↦ inl (has_index-some t s c cs e ∙ k)
          | inr (x, k) ↦ inr (x, has_path-some t s c (cs ++ x ∷ []) e ∙ k)
        ]
]
