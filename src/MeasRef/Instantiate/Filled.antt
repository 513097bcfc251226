-- ===== src/MeasRef/Instantiate/Filled.antt =====
-- References that are built in part: attaching a component, and the rounds that do it.
use legms.Prelude.{
  ℕ, zero, suc, ◌+◌, ◌<◌, ◌≡◌, refl, ap, sym, ◌∙◌, subst, true, false, List, ◌∷◌, ◌++◌, ltb,
  if◌then◌else◌, Option, none, some, arith, length, Result, ok, if_true, if_false, ok-injective,
}
use legms.MeasRef.Measure.{MClass, Measure, null, measure, MrBase, is_class, same_class, component}
use legms.MeasRef.Regions.{Point, Regions, put, clear}
use legms.MeasRef.Points.{zeros, clear-above}
use legms.MeasRef.Initialize.Visit.{ref_of}
use legms.MeasRef.Instantiate.{
  Msrp, holds_measure, holds_mrbase, Item, fresh, filled, State, set_component, make_measure, offer,
  attach, round, step,
}
use legms.MeasRef.Instantiate.States.{OffsetOf}

kept : ℕ → ℕ → Measure → Measure
kept i c m = if ltb i c then m else null

-- A reference to which its components below `c` are attached.
unfoldable pub partial : ℕ → MrBase → MrBase
unfolding kept
partial c r =
    ref_of r.measure_class r.ref_type (kept 1 c r.offset) (kept 2 c r.epoch) (kept 3 c r.position)
      (kept 4 c r.direction) (kept 5 c r.radial_velocity)

same_class_refl : (k : MClass) → same_class k k ≡ true
unfolding same_class
same_class_refl k = ground arith

-- Attaching the component `c`.
pub set_component-partial :
    (c : ℕ) (cm : Measure) (k : MClass) (r : MrBase)
    → component r c ≡ ok cm
    → is_class k ≡ true
    → OffsetOf k r.offset
    → set_component c cm k (partial c r) ≡ ok (partial (suc c) r)
unfolding set_component partial component
set_component-partial zero cm k r h known off = cc
set_component-partial (suc zero) null k r h known off =
    ap (λ m. ok (ref_of r.measure_class r.ref_type m null null null null)) (sym (ok-injective h))
set_component-partial (suc zero) (measure vs j t o e l d v) k r h known off =
    let same : j ≡ k = subst (OffsetOf k) (ok-injective h) off in
    if_true (is_class k) _ _ known
    ∙ if_true (same_class j k) _ _
        (subst (λ i. same_class i k ≡ true) (sym same) (same_class_refl k))
    ∙ ap (λ m. ok (ref_of r.measure_class r.ref_type m null null null null)) (sym (ok-injective h))
set_component-partial (suc (suc zero)) null k r h known off =
    ap (λ m. ok (ref_of r.measure_class r.ref_type r.offset m null null null))
      (sym (ok-injective h))
set_component-partial (suc (suc zero)) (measure vs j t o e l d v) k r h known off =
    ap (λ m. ok (ref_of r.measure_class r.ref_type r.offset m null null null))
      (sym (ok-injective h))
set_component-partial (suc (suc (suc zero))) null k r h known off =
    ap (λ m. ok (ref_of r.measure_class r.ref_type r.offset r.epoch m null null))
      (sym (ok-injective h))
set_component-partial (suc (suc (suc zero))) (measure vs j t o e l d v) k r h known off =
    ap (λ m. ok (ref_of r.measure_class r.ref_type r.offset r.epoch m null null))
      (sym (ok-injective h))
set_component-partial (suc (suc (suc (suc zero)))) null k r h known off =
    ap (λ m. ok (ref_of r.measure_class r.ref_type r.offset r.epoch r.position m null))
      (sym (ok-injective h))
set_component-partial (suc (suc (suc (suc zero)))) (measure vs j t o e l d v) k r h known off =
    ap (λ m. ok (ref_of r.measure_class r.ref_type r.offset r.epoch r.position m null))
      (sym (ok-injective h))
set_component-partial (suc (suc (suc (suc (suc zero))))) null k r h known off =
    ap (λ m. ok (ref_of r.measure_class r.ref_type r.offset r.epoch r.position r.direction m))
      (sym (ok-injective h))
set_component-partial (suc (suc (suc (suc (suc zero))))) (measure vs j t o e l d v) k r h known
      off =
    ap (λ m. ok (ref_of r.measure_class r.ref_type r.offset r.epoch r.position r.direction m))
      (sym (ok-injective h))
set_component-partial (suc (suc (suc (suc (suc (suc c)))))) cm k r h known off = cc

partial_all : (r : MrBase) → partial 6 r ≡ r
unfolding partial
partial_all r = refl

-- What is in vmrb when a level is popped.
unfoldable pub outcome : Option (List ℕ) → MrBase → Msrp
unfolding make_measure
outcome v r = elim v [ some vs ↦ holds_measure (make_measure vs r) | none ↦ holds_mrbase r ]

pub attach_end :
    (level c : ℕ) (v : Option (List ℕ)) (r : MrBase) (k : MClass) (rest : List Item) (vmrb : Msrp)
    (p p1 : Point) (rs : Regions)
    → is_class k ≡ true
    → c ≡ 6
    → attach 0 level c v (partial c r) k rest vmrb p p1 rs
      ≡ ok (record { ms = rest; vmrb = outcome v r; p = p; p1 = p1 })
unfolding attach outcome
attach_end level c v r k rest vmrb p p1 rs known six =
    if_true (is_class k) _ _ known
    ∙ ap (λ r'. ok (record { ms = rest; vmrb = outcome v r'; p = p; p1 = p1 }))
        (ap (λ i. partial i r) six ∙ partial_all r)

pub attach-offer :
    (j level c : ℕ) (v : Option (List ℕ)) (r r' : MrBase) (k : MClass) (rest : List Item)
    (cm : Measure) (p p1 : Point) (rs : Regions)
    → set_component c cm k r ≡ ok r'
    → attach (suc j) level c v r k rest (holds_measure cm) p p1 rs
      ≡ offer
          (suc c)
          v
          r'
          k
          rest
          (holds_measure null)
          (put level (suc c) p)
          (put level (suc c) p1)
          rs
          (attach j level
            (suc c)
            v
            r'
            k
            rest
            (holds_measure null)
            (put level (suc c) p)
            (put level (suc c) p1)
            rs)
unfolding attach
attach-offer j level c v r r' k rest cm p p1 rs h = rw h

pub offer_next :
    (c : ℕ) (v : Option (List ℕ)) (r : MrBase) (k : MClass) (rest : List Item) (vmrb : Msrp)
    (p p1 : Point) (rs : Regions) (later : Result State)
    → rs.metadata_space p ≡ false
    → offer c v r k rest vmrb p p1 rs later ≡ later
unfolding offer
offer_next c v r k rest vmrb p p1 rs later h = if_false (rs.metadata_space p) _ _ h

pub offer_pushes :
    (c : ℕ) (v : Option (List ℕ)) (r : MrBase) (k : MClass) (rest : List Item) (vmrb : Msrp)
    (p p1 : Point) (rs : Regions) (later : Result State)
    → rs.metadata_space p ≡ true
    → offer c v r k rest vmrb p p1 rs later
      ≡ ok (record { ms = fresh ∷ filled v r k c ∷ rest; vmrb = vmrb; p = p; p1 = p1 })
unfolding offer
offer_pushes c v r k rest vmrb p p1 rs later h = if_true (rs.metadata_space p) _ _ h

pub step-round :
    (make_value : MClass → List ℕ → List ℕ) (dim level : ℕ) (item : Item) (rest : List Item)
    (vmrb : Msrp) (p p1 : Point) (rs : Regions)
    → level ≡ suc (length rest)
    → level < dim
    → step make_value dim (item ∷ rest) vmrb p p1 rs
      ≡ round make_value level item rest vmrb (clear (suc level) p) (clear (suc level) p1) rs
unfolding step
step-round make_value dim level item rest vmrb p p1 rs hl lt =
    rw hl (if_true (ltb (suc (length rest)) dim) _ _ (ground arith))

pub step-filled :
    (make_value : MClass → List ℕ → List ℕ) (dim : ℕ) (pre tl tl1 : Point) (x y c j : ℕ)
    (v : Option (List ℕ)) (r : MrBase) (k : MClass) (rest : List Item) (vmrb : Msrp) (rs : Regions)
    → length pre ≡ suc (length rest)
    → length pre < dim
    → c + j ≡ 6
    → step make_value dim (filled v r k c ∷ rest) vmrb (pre ++ x ∷ tl) (pre ++ y ∷ tl1) rs
      ≡ attach j
          (length pre)
          c
          v
          r
          k
          rest
          vmrb
          (pre ++ x ∷ zeros (length tl))
          (pre ++ y ∷ zeros (length tl1))
          rs
step-filled make_value dim pre tl tl1 x y c j v r k rest vmrb rs hl lt hc =
    step-round make_value dim (length pre) (filled v r k c) rest vmrb (pre ++ x ∷ tl)
      (pre ++ y ∷ tl1) rs hl lt
    ∙ rw (clear-above pre tl x, clear-above pre tl1 y)
        (unfold round in
          ap
            (λ (i : ℕ).
              attach i (length pre) c v r k rest vmrb (pre ++ x ∷ zeros (length tl))
                (pre ++ y ∷ zeros (length tl1)) rs)
            (omega arith))
