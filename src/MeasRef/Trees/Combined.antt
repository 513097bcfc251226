-- ===== src/MeasRef/Trees/Combined.antt =====
-- The loop of `measure_index_trees` over the components, on the sets of indexes of the trees.
use legms.Prelude.{
  ℕ, suc, ◌≡◌, refl, ap, sym, ◌∙◌, subst, Bool, false, List, [], ◌∷◌, ltb, ◌==◌, if◌then◌else◌,
  Option, none, some, arith, ok, ok-injective, Bool-cases, inl, inr, if_true, if_false,
}
use legms.IndexTree.Tree.{IndexTree, empty}
use legms.MeasRef.Trees.{MeasureIndexTrees, add_tree, add_component, combine_trees}
use legms.MeasRef.Trees.Sets.{Indexes, Holding, Holding-eq, with_component, Pads, Longest}
use legms.MeasRef.Trees.Holding.{add_tree-Holding, extend_tree-Holding}

-- The indexes below the coordinates that are less than `c`.
unfoldable pub upto : ℕ → (ℕ → Indexes) → Indexes
upto c g [] = false
upto c g (x ∷ q) = if ltb x c then g x q else false

with_component-upto :
    (c : ℕ) (g : ℕ → Indexes) (cs : List ℕ)
    → with_component c (g c) (upto c g) cs ≡ upto (suc c) g cs
unfolding with_component upto
with_component-upto c g [] = refl
with_component-upto c g (x ∷ q) = elim (Bool-cases (x == c)) [
  | inl e ↦
      let same : c ≡ x = ground arith in
      if_true (x == c) _ _ e
      ∙ ap (λ i. g i q) same
      ∙ sym (if_true (ltb x (suc c)) (g x q) false (ground arith))
  | inr e ↦
      if_false (x == c) _ _ e ∙ ap (λ (b : Bool). if b then g x q else false) (below_suc x c e)
]
  where
    below_suc : (x c : ℕ) → (x == c) ≡ false → ltb x c ≡ ltb x (suc c)
    below_suc x c e = ground arith

not_yet : (c : ℕ) (g : ℕ → Indexes) (cs : List ℕ) → upto c g (c ∷ cs) ≡ false
unfolding upto
not_yet c g cs = if_false (ltb c c) (g c cs) false (ground arith)

add_none : (c : ℕ) (o : Option IndexTree) → add_tree c none o ≡ ok o
unfolding add_tree
add_none c o = refl

add_tree-upto :
    (c : ℕ) (g : ℕ → Indexes) (ctree result : Option IndexTree)
    → Holding ctree (g c)
    → Holding result (upto c g)
    → (o : Option IndexTree) × (add_tree c ctree result ≡ ok o) × Holding o (upto (suc c) g)
add_tree-upto c g ctree result h k =
    let (o, added, holding) =
      add_tree-Holding c ctree result (g c) (upto c g) h k (unfold upto in refl)
        (λ cs. not_yet c g cs) in
    (o, added, Holding-eq o _ _ (with_component-upto c g) holding)

-- The trees of a component, which are not there if it is null.
abbrev pub metadata_of : Option MeasureIndexTrees → Option IndexTree
metadata_of none = none
metadata_of (some t) = t.metadata_tree

abbrev pub values_of : Option MeasureIndexTrees → Option IndexTree
values_of none = none
values_of (some t) = t.value_tree

pub record HoldingBoth (p p' : Indexes) (trees : Option MeasureIndexTrees) : Type 0 where
  pub in_metadata : Holding (metadata_of trees) p
  pub in_values : Holding (values_of trees) p'

add_component-upto :
    (c : ℕ) (g g' : ℕ → Indexes) (ctrees : Option MeasureIndexTrees) (result : MeasureIndexTrees)
    → HoldingBoth (g c) (g' c) ctrees
    → HoldingBoth (upto c g) (upto c g') (some result)
    → (t : MeasureIndexTrees) × (add_component c (ok ctrees) result ≡ ok t)
      × HoldingBoth (upto (suc c) g) (upto (suc c) g') (some t)
unfolding add_component
add_component-upto c g g' none result h k =
    let (md, added, in_md) =
      add_tree-upto c g none result.metadata_tree h.in_metadata k.in_metadata in
    let (vals, added', in_vals) =
      add_tree-upto c g' none result.value_tree h.in_values k.in_values in
    (
      result,
      refl,
      record {
        in_metadata =
            subst (λ o. Holding o (upto (suc c) g))
              (sym (ok-injective (sym (add_none c result.metadata_tree) ∙ added))) in_md;
        in_values =
            subst (λ o. Holding o (upto (suc c) g'))
              (sym (ok-injective (sym (add_none c result.value_tree) ∙ added'))) in_vals;
      },
    )
add_component-upto c g g' (some ctrees) result h k =
    let (md, added, in_md) =
      add_tree-upto c g ctrees.metadata_tree result.metadata_tree h.in_metadata k.in_metadata in
    let (vals, added', in_vals) =
      add_tree-upto c g' ctrees.value_tree result.value_tree h.in_values k.in_values in
    (
      record { metadata_tree = md; value_tree = vals },
      rw (added, added') refl,
      record { in_metadata = in_md; in_values = in_vals },
    )

nothing : (g : ℕ → Indexes) (cs : List ℕ) → upto 0 g cs ≡ false
unfolding upto
nothing g [] = refl
nothing g (x ∷ q) = if_false (ltb x 0) (g x q) false (ground arith)

-- With the trees of the components, and of VALUE, the trees of all of them are padded.
pub combine_trees-Holding :
    (g g' : ℕ → Indexes) (value : Option IndexTree) (o e l d v : Option MeasureIndexTrees)
    (k k' : ℕ) (q q' : Indexes)
    → HoldingBoth (g 0) (g' 0) (some (record { metadata_tree = some empty; value_tree = value }))
    → HoldingBoth (g 1) (g' 1) o
    → HoldingBoth (g 2) (g' 2) e
    → HoldingBoth (g 3) (g' 3) l
    → HoldingBoth (g 4) (g' 4) d
    → HoldingBoth (g 5) (g' 5) v
    → Longest (suc k) (upto 6 g)
    → Longest (suc k') (upto 6 g')
    → Pads (suc k) (upto 6 g) q
    → Pads (suc k') (upto 6 g') q'
    → (t : MeasureIndexTrees) × (combine_trees value (ok o) (ok e) (ok l) (ok d) (ok v) ≡ ok t)
      × HoldingBoth q q' (some t)
unfolding combine_trees
combine_trees-Holding g g' value o e l d v k k' q q' h0 h1 h2 h3 h4 h5 long long' pads pads' =
    let (t0, e0, k0) =
      add_component-upto 0 g g' _ (record { metadata_tree = none; value_tree = none }) h0
        (record { in_metadata = nothing g; in_values = nothing g' }) in
    let (t1, e1, k1) = add_component-upto 1 g g' o t0 h1 k0 in
    let (t2, e2, k2) = add_component-upto 2 g g' e t1 h2 k1 in
    let (t3, e3, k3) = add_component-upto 3 g g' l t2 h3 k2 in
    let (t4, e4, k4) = add_component-upto 4 g g' d t3 h4 k3 in
    let (t5, e5, k5) = add_component-upto 5 g g' v t4 h5 k4 in
    let (md, extended, in_md) =
      extend_tree-Holding t5.metadata_tree k (upto 6 g) q k5.in_metadata long pads in
    let (vals, extended', in_vals) =
      extend_tree-Holding t5.value_tree k' (upto 6 g') q' k5.in_values long' pads' in
    (
      record { metadata_tree = md; value_tree = vals },
      rw (e0, e1, e2, e3, e4, e5, extended, extended') refl,
      record { in_metadata = in_md; in_values = in_vals },
    )
