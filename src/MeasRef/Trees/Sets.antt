-- ===== src/MeasRef/Trees/Sets.antt =====
-- Sets of indexes, and the trees that hold them.
use legms.Prelude.{
  ℕ, ◌-◌, ◌≤◌, ◌≡◌, ◌↔◌, refl, ap, sym, ◌∙◌, Bool, true, false, List, [], ◌∷◌, ◌++◌, Option, none,
  some, ◌==◌, if◌then◌else◌, arith, length, Option-cases, inl, inr, append-nil,
}
use legms.IndexTree.Tree.{IndexTree, empty, block, child_at, is_empty}
use legms.IndexTree.Compact.Form.{IsCompact}
use legms.IndexTree.Compact.Canonical.{child_at-empty, child_at-IsCompact}
use legms.IndexTree.Compact.Indexes.{
  has_index, has_index-some, has_index-block_nil, has_index_exists,
}
use legms.MeasRef.Points.{zeros}
use legms.MeasRef.Extend.Padded.{pad}

-- A set of indexes.
abbrev pub Indexes : Type 0
Indexes = List ℕ → Bool

-- The tree has these indexes; there is no tree if there are none.
abbrev pub Holding : Option IndexTree → Indexes → Type 0
Holding none p = (cs : List ℕ) → p cs ≡ false
Holding (some t) p = IsCompact t × ((cs : List ℕ) → has_index t cs ≡ p cs)

pub Holding-eq :
    (o : Option IndexTree) (p q : Indexes)
    → ((cs : List ℕ) → p cs ≡ q cs)
    → Holding o p
    → Holding o q
Holding-eq none p q same h = λ cs. sym (same cs) ∙ h cs
Holding-eq (some t) p q same h = (h.0, λ cs. h.1 cs ∙ same cs)

-- Indexes, with those of a component put below its coordinate.
unfoldable pub with_component : ℕ → Indexes → Indexes → Indexes
with_component c g p [] = false
with_component c g p (x ∷ cs) = if x == c then g cs else p (x ∷ cs)

pub eq_of_iff : (a b : Bool) → (a ≡ true → b ≡ true) → (b ≡ true → a ≡ true) → a ≡ b
eq_of_iff true b h k = sym (h refl)
eq_of_iff false true h k = k refl
eq_of_iff false false h k = refl

pub free_child :
    (t : IndexTree) (c : ℕ)
    → IsCompact t
    → ((cs : List ℕ) → has_index t (c ∷ cs) ≡ false)
    → child_at t c ≡ none
free_child t c u h = elim (Option-cases (child_at t c)) [
  | inl e ↦ e
  | inr (s, e) ↦
      let (cs, k) = has_index_exists s (child_at-IsCompact t c s u e) in
      cc (h cs, has_index-some t s c cs e)
]

pub has_index-empty_nil : has_index empty [] ≡ true
unfolding has_index is_empty
has_index-empty_nil = refl

pub child-has_index_nil : (t s : IndexTree) (c : ℕ) → child_at t c ≡ some s → has_index t [] ≡ false
child-has_index_nil empty s c h = cc (child_at-empty c)
child-has_index_nil (block i n t r) s c h = has_index-block_nil i n t r

pub pad_full : (v : List ℕ) (d : ℕ) → length v ≡ d → pad d v ≡ v
unfolding pad
pad_full v d h =
    let none_left : d - length v ≡ 0 = omega arith in
    ap (λ k. v ++ zeros k) none_left ∙ append-nil v

-- The indexes of `q` are those of `p`, padded to the length `d`.
abbrev pub Pads : ℕ → Indexes → Indexes → Type 0
Pads d p q = (cs : List ℕ) → (q cs ≡ true) ↔ ((v : List ℕ) × (p v ≡ true) × (cs ≡ pad d v))

-- A set whose longest indexes have the length d.
pub record Longest (d : ℕ) (p : Indexes) : Type 0 where
  pub no_root : p [] ≡ false
  pub no_longer : (cs : List ℕ) → p cs ≡ true → length cs ≤ d
  pub some_long : (cs : List ℕ) → p cs ≡ true → (v : List ℕ) × (p v ≡ true) × (length v ≡ d)

pub not_root : (t : IndexTree) (p : Indexes) → Holding (some t) p → p [] ≡ false → t ≡ empty → ⊥
not_root t p h nil same = cc (ap (λ s. has_index s []) same, h.1 [], nil, has_index-empty_nil)
