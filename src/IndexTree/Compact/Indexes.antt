-- ===== src/IndexTree/Compact/Indexes.antt =====
-- The compact form is canonical: `operator==` on compact trees decides whether they denote the same
-- set of indexes.
use legms.Prelude.{
  if◌then◌else◌, ℕ, zero, suc, ◌<◌, ◌≡◌, refl, ap, Bool, true, false, inl, inr, arith, sym, subst,
  ◌∙◌, Option, none, some, ◌↔◌, List, [], ◌∷◌, Option-cases,
}
use legms.IndexTree.Tree.{
  IndexTree, empty, block, eq, eq_sound, eq_refl, child_at, nodes, is_empty, covers,
}
use legms.IndexTree.Compact.Form.{IsCompact}
use legms.IndexTree.Compact.Canonical.{
  child_at-nodes, child_at-IsCompact, child_at_inside, IsCompact-ext,
}

-- The indexes of a tree: the coordinates along a path that ends at a leaf.
unfoldable pub has_index : IndexTree → List ℕ → Bool
unfolding is_empty
has_index t [] = is_empty t
has_index t (c ∷ cs) = elim (child_at t c) [ none ↦ false | some s ↦ has_index s cs ]

pub has_index-some :
    (t s : IndexTree) (c : ℕ) (cs : List ℕ)
    → child_at t c ≡ some s
    → has_index t (c ∷ cs) ≡ has_index s cs
unfolding has_index
has_index-some t s c cs h = ground arith

pub has_index-none :
    (t : IndexTree) (c : ℕ) (cs : List ℕ) → child_at t c ≡ none → has_index t (c ∷ cs) ≡ false
unfolding has_index
has_index-none t c cs h = ground arith

pub has_index-child_at :
    (a b : IndexTree) (x : ℕ) (cs : List ℕ)
    → child_at a x ≡ child_at b x
    → has_index a (x ∷ cs) ≡ has_index b (x ∷ cs)
unfolding has_index
has_index-child_at a b x cs h =
    ap (λ (o : Option IndexTree). elim o [ none ↦ false | some s ↦ has_index s cs ]) h

pub has_index-block :
    (i n : ℕ) (t r : IndexTree) (x : ℕ) (cs : List ℕ)
    → has_index (block i n t r) (x ∷ cs)
      ≡ (if covers i n x then has_index t cs else has_index r (x ∷ cs))
unfolding has_index child_at
has_index-block i n t r x cs = ground arith

pub has_index-block_nil : (i n : ℕ) (t r : IndexTree) → has_index (block i n t r) [] ≡ false
unfolding has_index
has_index-block_nil i n t r = refl

pub has_index-empty : (x : ℕ) (cs : List ℕ) → has_index empty (x ∷ cs) ≡ false
unfolding has_index child_at
has_index-empty x cs = refl

-- A compact tree has an index.
pub has_index_exists : (t : IndexTree) → IsCompact t → (cs : List ℕ) × (has_index t cs ≡ true)
unfolding has_index is_empty
has_index_exists empty u = ([], refl)
has_index_exists (block i n t r) u =
    let sub = has_index_exists t u.1 in
    (
      i ∷ sub.0,
      has_index-some (block i n t r) t i sub.0
            (child_at_inside i n t r i (omega arith) (omega arith))
          ∙ sub.1,
    )

abbrev SameIndexes : IndexTree → IndexTree → Type 0
SameIndexes a b = (cs : List ℕ) → has_index a cs ≡ has_index b cs

-- Compact trees with a child at a coordinate on one side only differ in an index.
one_sided :
    (a b t : IndexTree) (x : ℕ)
    → IsCompact t
    → SameIndexes a b
    → child_at a x ≡ some t
    → child_at b x ≡ none
    → ⊥
one_sided a b t x u same h k =
    let sub = has_index_exists t u in
    cc (same (x ∷ sub.0), has_index-some a t x sub.0 h, has_index-none b x sub.0 k, sub.1)

SameIndexes-eq :
    (k : ℕ) (a b : IndexTree) → nodes a < k → IsCompact a → IsCompact b → SameIndexes a b → a ≡ b
SameIndexes-eq zero a b lt u v same = absurd (omega arith)
SameIndexes-eq (suc k) a b lt u v same = IsCompact-ext a b u v λ x.
    elim (Option-cases (child_at a x)) [
      | inl ea ↦ elim (Option-cases (child_at b x)) [
        | inl eb ↦ ea ∙ sym eb
        | inr (s, eb) ↦
            absurd (one_sided b a s x (child_at-IsCompact b x s v eb) (λ cs. sym (same cs)) eb ea)
      ]
      | inr (t, ea) ↦ elim (Option-cases (child_at b x)) [
        | inl eb ↦ absurd (one_sided a b t x (child_at-IsCompact a x t u ea) same ea eb)
        | inr (s, eb) ↦
            ea
            ∙ ap some (
                SameIndexes-eq k t s (omega (arith, child_at-nodes a x t ea))
                  (child_at-IsCompact a x t u ea) (child_at-IsCompact b x s v eb)
                  (λ cs.
                    sym (has_index-some a t x cs ea) ∙ same (x ∷ cs) ∙ has_index-some b s x cs eb))
            ∙ sym eb
      ]
    ]

-- On compact trees `operator==` holds exactly when the trees have the same indexes.
pub eq-iff-has_index :
    (a b : IndexTree)
    → IsCompact a
    → IsCompact b
    → (eq a b ≡ true) ↔ ((cs : List ℕ) → has_index a cs ≡ has_index b cs)
eq-iff-has_index a b u v = (
  λ h cs. ap (λ t. has_index t cs) (eq_sound a b h),
  λ same.
      subst (λ t. eq a t ≡ true) (SameIndexes-eq (suc (nodes a)) a b (omega arith) u v same)
        (eq_refl a),
)
