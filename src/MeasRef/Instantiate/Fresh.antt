-- ===== src/MeasRef/Instantiate/Fresh.antt =====
-- The round of `instantiate` that visits a level that was pushed: what it reads of the regions.
use legms.Prelude.{
  ℕ, suc, ◌+◌, ◌<◌, ◌≡◌, refl, ap, ap₂, ◌∙◌, subst, true, List, [], ◌∷◌, ◌++◌, ltb, if◌then◌else◌,
  Option, none, some, arith, length, get_elem?, ok, if_true, length-replicate,
}
use legms.IndexTree.Iterator.Coverage.{list_eq}
use legms.MeasRef.Measure.{MClass, null, MrBase, is_class}
use legms.MeasRef.Regions.{Point, Metadata, Regions, put, read_metadata, read_value}
use legms.MeasRef.Entries.{entry, own_values, own_metadata}
use legms.MeasRef.Points.{zeros, put-at, put-next, clear-above, list_eq_refl}
use legms.MeasRef.Initialize.Written.{measure_of}
use legms.MeasRef.Instantiate.{
  Msrp, holds_measure, Item, fresh, State, read_values, make_ref, offer, attach, read_measure,
  round, step,
}
use legms.MeasRef.Instantiate.States.{is_some, Holds}
use legms.MeasRef.Instantiate.Filled.{partial, step-round}

read_values_lem :
    (pre : Point) (n i : ℕ) (ws : List ℕ) (y : ℕ) (rs : Regions)
    → ((x w : ℕ)
        → get_elem? ws x ≡ some w
        → (rs.values_space (pre ++ 0 ∷ (i + x) ∷ zeros n) ≡ true)
          × (rs.values (pre ++ 0 ∷ (i + x) ∷ zeros n) ≡ w))
    → (y' : ℕ) × (read_values (length pre) i (length ws) (pre ++ 0 ∷ y ∷ zeros n) rs
        ≡ ok (ws, pre ++ 0 ∷ y' ∷ zeros n))
unfolding read_values read_value
read_values_lem pre n i [] y rs held = (y, refl)
read_values_lem pre n i (w ∷ ws) y rs held =
    let first = held 0 w refl in
    let p1 : Point = pre ++ 0 ∷ i ∷ zeros n in
    let same : i + 0 ≡ i = omega arith in
    let at : read_value p1 rs ≡ ok w =
      if_true (rs.values_space p1) _ _
        (subst (λ z. rs.values_space (pre ++ 0 ∷ z ∷ zeros n) ≡ true) same first.0)
      ∙ ap ok (subst (λ z. rs.values (pre ++ 0 ∷ z ∷ zeros n) ≡ w) same first.1) in
    let (y', rest) = read_values_lem pre n (suc i) ws i rs (λ x u h.
      let moved : i + suc x ≡ suc i + x = omega arith in
      subst
        (λ z.
          (rs.values_space (pre ++ 0 ∷ z ∷ zeros n) ≡ true)
          × (rs.values (pre ++ 0 ∷ z ∷ zeros n) ≡ u))
        moved (held (suc x) u h)) in
    (y', rw (put-next pre (zeros n) 0 y i, at, rest) refl)

read_metadata_lem :
    {A : Type 0} (f : Metadata → A) (p : Point) (rs : Regions) (md : Metadata)
    → rs.metadata_space p ≡ true
    → rs.metadata p ≡ md
    → read_metadata f p rs ≡ ok (f md)
unfolding read_metadata
read_metadata_lem f p rs md h e = if_true (rs.metadata_space p) _ _ h ∙ ap (λ md. ok (f md)) e

unfoldable pub value_of : (MClass → List ℕ → List ℕ) → MClass → List ℕ → Option (List ℕ)
value_of make_value k vs = if ltb 0 (length vs) then some (make_value k vs) else none

is_some-some : {A : Type 0} (o : Option A) (a : A) → o ≡ some a → is_some o ≡ true
unfolding is_some
is_some-some o a h = ap is_some h

pub entry_own :
    (n : ℕ) (vs : List ℕ) (r : MrBase)
    → entry own_metadata n (measure_of vs r) (0 ∷ zeros n)
      ≡ some (record {
        measure_class = r.measure_class;
        ref_type = r.ref_type;
        num_values = length vs;
      })
unfolding entry own_metadata
entry_own n vs r = if_true (list_eq (zeros n) (zeros n)) _ _ (list_eq_refl (zeros n))

entry_value :
    (n : ℕ) (vs : List ℕ) (r : MrBase) (x w : ℕ)
    → get_elem? vs x ≡ some w
    → entry own_values n (measure_of vs r) (0 ∷ x ∷ zeros n) ≡ some w
unfolding entry own_values
entry_value n vs r x w h = if_true (list_eq (zeros n) (zeros n)) _ _ (list_eq_refl (zeros n)) ∙ h

pub read_measure_lem :
    (make_value : MClass → List ℕ → List ℕ) (pre : Point) (n y : ℕ) (vs : List ℕ) (r : MrBase)
    (rs : Regions)
    → is_class r.measure_class ≡ true
    → Holds pre n (measure_of vs r) rs
    → (y' : ℕ) × (read_measure make_value
          (length pre)
          (pre ++ 0 ∷ zeros n)
          (pre ++ 0 ∷ y ∷ zeros n)
          rs
        ≡ ok (
          value_of make_value r.measure_class vs,
          make_ref r.measure_class r.ref_type,
          r.measure_class,
          pre ++ 0 ∷ y' ∷ zeros n,
        ))
unfolding read_measure value_of
read_measure_lem make_value pre n y vs r rs known holds =
    let md : Metadata = record {
      measure_class = r.measure_class;
      ref_type = r.ref_type;
      num_values = length vs;
    } in
    let p : Point = pre ++ 0 ∷ zeros n in
    let own : entry own_metadata n (measure_of vs r) (0 ∷ zeros n) ≡ some md = entry_own n vs r in
    let inside : rs.metadata_space p ≡ true =
      holds.contained (0 ∷ zeros n) (ap suc (length-replicate n 0))
      ∙ is_some-some (entry own_metadata n (measure_of vs r) (0 ∷ zeros n)) md own in
    let held : rs.metadata p ≡ md = holds.metadata_at (0 ∷ zeros n) md own in
    let (y', read) = read_values_lem pre n 0 vs y rs (λ x w e.
      let moved : x ≡ 0 + x = omega arith in
      let at : entry own_values n (measure_of vs r) (0 ∷ x ∷ zeros n) ≡ some w =
        entry_value n vs r x w e in
      subst
        (λ z.
          (rs.values_space (pre ++ 0 ∷ z ∷ zeros n) ≡ true)
          × (rs.values (pre ++ 0 ∷ z ∷ zeros n) ≡ w))
        moved (holds.values_in (0 ∷ x ∷ zeros n) w at, holds.values_at (0 ∷ x ∷ zeros n) w at)) in
    (
      y',
      rw
          (
            read_metadata_lem (λ md. md.measure_class) p rs md inside held,
            read_metadata_lem (λ md. md.num_values) p rs md inside held,
            read,
          )
          (if_true (is_class r.measure_class) _ _ known
            ∙ rw (read_metadata_lem (λ md. md.ref_type) p rs md inside held) refl),
    )

round_fresh :
    (make_value : MClass → List ℕ → List ℕ) (level : ℕ) (v : Option (List ℕ)) (r : MrBase)
    (k : MClass) (rest : List Item) (vmrb : Msrp) (p p1 q q1 q2 p1' q3 : Point) (rs : Regions)
    → put level 0 p ≡ q
    → put level 0 p1 ≡ q1
    → read_measure make_value level q q1 rs ≡ ok (v, r, k, p1')
    → put level 1 q ≡ q2
    → put level 1 p1' ≡ q3
    → round make_value level fresh rest vmrb p p1 rs
      ≡ offer 1 v r k rest vmrb q2 q3 rs (attach 5 level 1 v r k rest vmrb q2 q3 rs)
unfolding round
round_fresh make_value level v r k rest vmrb p p1 q q1 q2 p1' q3 rs e e1 read e2 e3 =
    let read' : read_measure make_value level (put level 0 p) (put level 0 p1) rs
        ≡ ok (v, r, k, p1') =
      rw (e, e1) read in
    rw read' (
      ap₂ (λ a b. offer 1 v r k rest vmrb a b rs (attach 5 level 1 v r k rest vmrb a b rs))
        (ap (put level 1) e ∙ e2) e3)

make_ref-partial : (r : MrBase) → make_ref r.measure_class r.ref_type ≡ partial 1 r
unfolding make_ref partial
make_ref-partial r = refl

pub step-fresh :
    (make_value : MClass → List ℕ → List ℕ) (dim n : ℕ) (pre : Point) (vs : List ℕ) (r : MrBase)
    (rest : List Item) (x y y' : ℕ) (tl tl1 : Point) (rs : Regions) (t : State)
    → length pre ≡ suc (length rest)
    → length pre < dim
    → length tl ≡ n
    → length tl1 ≡ suc n
    → read_measure make_value (length pre) (pre ++ 0 ∷ zeros n) (pre ++ 0 ∷ zeros (suc n)) rs
      ≡ ok (
        value_of make_value r.measure_class vs,
        make_ref r.measure_class r.ref_type,
        r.measure_class,
        pre ++ 0 ∷ y' ∷ zeros n,
      )
    → offer 1
        (value_of make_value r.measure_class vs)
        (partial 1 r)
        r.measure_class
        rest
        (holds_measure null)
        (pre ++ 1 ∷ zeros n)
        (pre ++ 1 ∷ y' ∷ zeros n)
        rs
        (attach 5
          (length pre)
          1
          (value_of make_value r.measure_class vs)
          (partial 1 r)
          r.measure_class
          rest
          (holds_measure null)
          (pre ++ 1 ∷ zeros n)
          (pre ++ 1 ∷ y' ∷ zeros n)
          rs)
      ≡ ok t
    → step make_value dim (fresh ∷ rest) (holds_measure null) (pre ++ x ∷ tl) (pre ++ y ∷ tl1) rs
      ≡ ok t
step-fresh make_value dim n pre vs r rest x y y' tl tl1 rs t hl lt ht ht1 read offered =
    step-round make_value dim (length pre) fresh rest (holds_measure null) (pre ++ x ∷ tl)
      (pre ++ y ∷ tl1) rs hl lt
    ∙ rw (clear-above pre tl x, clear-above pre tl1 y, ht, ht1)
        (round_fresh make_value (length pre) (value_of make_value r.measure_class vs)
            (make_ref r.measure_class r.ref_type) r.measure_class rest (holds_measure null)
            (pre ++ x ∷ zeros n) (pre ++ y ∷ zeros (suc n)) (pre ++ 0 ∷ zeros n)
            (pre ++ 0 ∷ zeros (suc n)) (pre ++ 1 ∷ zeros n) (pre ++ 0 ∷ y' ∷ zeros n)
            (pre ++ 1 ∷ y' ∷ zeros n) rs (put-at pre (zeros n) x 0) (put-at pre (zeros (suc n)) y 0)
            read (put-at pre (zeros n) 0 1) (put-at pre (y' ∷ zeros n) 0 1)
          ∙ rw (make_ref-partial r) offered)
