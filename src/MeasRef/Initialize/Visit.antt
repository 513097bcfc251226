-- ===== src/MeasRef/Initialize/Visit.antt =====
-- What a visit of a measure writes: its values and its metadata, below the coordinates of its level.
use mathlib.Core.Path.{fun_ext}
use legms.IndexTree.Iterator.Coverage.{list_eq}
use legms.Prelude.{
  ap₂, ℕ, suc, ◌+◌, ◌<◌, ◌≡◌, refl, ap, sym, ◌∙◌, subst, true, List, [], ◌∷◌, ◌++◌, none, arith,
  length, ok, if_true,
}
use legms.MeasRef.Measure.{MClass, Measure, measure, MrBase, is_class}
use legms.MeasRef.Regions.{Point, Metadata, Regions, update, write_metadata, write_value}
use legms.MeasRef.Entries.{
  Partial, overlay, overlay-join, overlay-update, join, single, under, first_of, own_values,
  own_metadata,
}
use legms.MeasRef.Points.{
  zeros, put-next, update_same, update_twice, overlay-none, laid, values_from, values_from-own,
  single-own,
}
use legms.MeasRef.Initialize.{is_measure, mc_mrbase, write_values, visit}

-- The reference of a measure.
abbrev pub ref_of : MClass → ℕ → Measure → Measure → Measure → Measure → Measure → MrBase
ref_of k t o e l d v = record {
  measure_class = k;
  ref_type = t;
  offset = o;
  epoch = e;
  position = l;
  direction = d;
  radial_velocity = v;
}

abbrev with_values : Point → Partial ℕ → Regions → Regions
with_values pre g rs = record rs { values = overlay pre g rs.values }

under-none : (c n j : ℕ) (q : Point) → under c (values_from n j []) q ≡ none
unfolding under values_from
under-none c n j [] = refl
under-none c n j (x ∷ q) = ground arith

add_zero : (j : ℕ) → j + 0 ≡ j
add_zero j = omega arith

add_suc : (j x : ℕ) → j + suc x ≡ suc j + x
add_suc j x = omega arith

values_later_at :
    (n j v : ℕ) (mvals : List ℕ) (q : Point)
    → join (under 0 (values_from n (suc j) mvals)) (single (0 ∷ j ∷ zeros n) v) q
      ≡ under 0 (values_from n j (v ∷ mvals)) q
unfolding under values_from single list_eq first_of
values_later_at n j v mvals [] = refl
values_later_at n j v mvals (x ∷ q) = ground arith

values_later :
    (pre : Point) (n j v : ℕ) (mvals : List ℕ) (s : Point → ℕ)
    → overlay pre (under 0 (values_from n (suc j) mvals)) (update (pre ++ 0 ∷ j ∷ zeros n) v s)
      ≡ overlay pre (under 0 (values_from n j (v ∷ mvals))) s
values_later pre n j v mvals s = rw (overlay-update pre (0 ∷ j ∷ zeros n) v s) (
    overlay-join pre (under 0 (values_from n (suc j) mvals)) (single (0 ∷ j ∷ zeros n) v) s
    ∙ ap (λ f. overlay pre f s) (fun_ext (values_later_at n j v mvals)))

write_values_lem :
    (pre : Point) (n j : ℕ) (mvals : List ℕ) (y : ℕ) (rs : Regions)
    → ((x : ℕ) → x < length mvals → rs.values_space (pre ++ 0 ∷ (j + x) ∷ zeros n) ≡ true)
    → (y' : ℕ) × (write_values (length pre) j mvals (pre ++ 0 ∷ y ∷ zeros n) rs
        ≡ ok (pre ++ 0 ∷ y' ∷ zeros n, with_values pre (under 0 (values_from n j mvals)) rs))
unfolding write_values write_value
write_values_lem pre n j [] y rs inside = (
  y,
  ap (λ vals. ok (pre ++ 0 ∷ y ∷ zeros n, record rs { values = vals }))
      (sym (overlay-none pre (under 0 (values_from n j [])) rs.values (under-none 0 n j))),
)
write_values_lem pre n j (v ∷ mvals) y rs inside =
    let p1 : Point = pre ++ 0 ∷ j ∷ zeros n in
    let rs1 : Regions = record rs { values = update p1 v rs.values } in
    let here : write_value p1 v rs ≡ ok rs1 = if_true (rs.values_space p1) _ _ (
      subst (λ x. rs.values_space (pre ++ 0 ∷ x ∷ zeros n) ≡ true) (add_zero j)
        (inside 0 (omega arith))) in
    let (y', rest) = write_values_lem pre n (suc j) mvals j rs1 (λ x h.
      subst (λ z. rs.values_space (pre ++ 0 ∷ z ∷ zeros n) ≡ true) (add_suc j x)
        (inside (suc x) (omega arith))) in
    (
      y',
      rw (put-next pre (zeros n) 0 y j, here)
          (rest
            ∙ ap (λ vals. ok (pre ++ 0 ∷ y' ∷ zeros n, record rs { values = vals })) (later p1 y')),
    )
  where
    later :
        (p1 : Point) (y' : ℕ)
        → overlay pre
            (under 0 (values_from n (suc j) mvals))
            (update (pre ++ 0 ∷ j ∷ zeros n) v rs.values)
          ≡ overlay pre (under 0 (values_from n j (v ∷ mvals))) rs.values
    later p1 y' = values_later pre n j v mvals rs.values

-- The fields of the metadata, written at one point.
with_entry : Point → Metadata → Regions → Regions
with_entry p a rs = record rs { metadata = update p a rs.metadata }

write_first :
    (f : Metadata → Metadata) (p : Point) (rs : Regions)
    → rs.metadata_space p ≡ true
    → write_metadata f p rs ≡ ok (with_entry p (f (rs.metadata p)) rs)
unfolding write_metadata with_entry
write_first f p rs h = if_true (rs.metadata_space p) _ _ h

write_next :
    (f : Metadata → Metadata) (p : Point) (a : Metadata) (rs : Regions)
    → rs.metadata_space p ≡ true
    → write_metadata f p (with_entry p a rs) ≡ ok (with_entry p (f a) rs)
unfolding write_metadata with_entry
write_next f p a rs h =
    if_true (rs.metadata_space p) _ _ h
    ∙ rw (update_same p a rs.metadata)
        (ap (λ md. ok (record rs { metadata = md })) (update_twice p a (f a) rs.metadata))

with_entry-laid :
    (pre : Point) (n : ℕ) (vs : List ℕ) (k : MClass) (t : ℕ) (rs : Regions)
    → with_entry
        (pre ++ 0 ∷ zeros n)
        (record { measure_class = k; ref_type = t; num_values = length vs })
        (with_values pre (under 0 (values_from n 0 vs)) rs)
      ≡ laid pre (under 0 (own_metadata n vs k t)) (under 0 (own_values n vs k t)) rs
unfolding with_entry laid
with_entry-laid pre n vs k t rs =
    ap₂ (λ md vals. record rs { metadata = md; values = vals })
      (overlay-update pre (0 ∷ zeros n)
          (record { measure_class = k; ref_type = t; num_values = length vs }) rs.metadata
        ∙ ap (λ f. overlay pre f rs.metadata) (single-own n vs k t))
      (ap (λ f. overlay pre (under 0 f) rs.values) (values_from-own n vs k t))

-- A visit of a measure writes its own entries.
pub visit-measure :
    (pre : Point) (n y : ℕ) (vs : List ℕ) (k : MClass) (t : ℕ) (o e l d v : Measure) (rs : Regions)
    → is_class k ≡ true
    → rs.metadata_space (pre ++ 0 ∷ zeros n) ≡ true
    → ((x : ℕ) → x < length vs → rs.values_space (pre ++ 0 ∷ x ∷ zeros n) ≡ true)
    → (y' : ℕ) × (visit
          (length pre)
          (is_measure (measure vs k t o e l d v))
          (pre ++ 0 ∷ zeros n)
          (pre ++ 0 ∷ y ∷ zeros n)
          rs
        ≡ ok (
          k,
          ref_of k t o e l d v,
          pre ++ 0 ∷ y' ∷ zeros n,
          laid pre (under 0 (own_metadata n vs k t)) (under 0 (own_values n vs k t)) rs,
        ))
unfolding visit
visit-measure pre n y vs k t o e l d v rs known inside values_inside =
    let p : Point = pre ++ 0 ∷ zeros n in
    let (y', wrote) = write_values_lem pre n 0 vs y rs (λ x h.
      subst (λ z. rs.values_space (pre ++ 0 ∷ z ∷ zeros n) ≡ true) (zero_add x)
        (values_inside x h)) in
    let rs1 : Regions = with_values pre (under 0 (values_from n 0 vs)) rs in
    (
      y',
      rw wrote (
          rw (write_first (λ md. record md { num_values = length vs }) p rs1 inside) (
            if_true (is_class k) _ _ known
            ∙ rw
                (
                  write_next (λ md. record md { measure_class = k }) p
                      (record (rs.metadata p) { num_values = length vs }) rs1 inside,
                  write_next (λ md. record md { ref_type = t }) p
                      (record (rs.metadata p) { num_values = length vs; measure_class = k }) rs1
                      inside,
                )
                (ap (λ rs'. ok (k, ref_of k t o e l d v, pre ++ 0 ∷ y' ∷ zeros n, rs'))
                  (with_entry-laid pre n vs k t rs)))),
    )
  where
    zero_add : (x : ℕ) → x ≡ 0 + x
    zero_add x = omega arith

-- A visit of a reference writes its own entries, with no values.
pub visit-mc_mrbase :
    (pre : Point) (n : ℕ) (p1 : Point) (r : MrBase) (rs : Regions)
    → rs.metadata_space (pre ++ 0 ∷ zeros n) ≡ true
    → visit (length pre) (mc_mrbase r.measure_class r) (pre ++ 0 ∷ zeros n) p1 rs
      ≡ ok (
        r.measure_class,
        r,
        p1,
        laid pre
            (under 0 (own_metadata n [] r.measure_class r.ref_type))
            (under 0 (own_values n [] r.measure_class r.ref_type))
            rs,
      )
unfolding visit
visit-mc_mrbase pre n p1 r rs inside =
    let p : Point = pre ++ 0 ∷ zeros n in
    rw
      (
        write_first (λ md. record md { measure_class = r.measure_class }) p rs inside,
        write_next (λ md. record md { num_values = 0 }) p
            (record (rs.metadata p) { measure_class = r.measure_class }) rs inside,
        write_next (λ md. record md { ref_type = r.ref_type }) p
            (record (rs.metadata p) { measure_class = r.measure_class; num_values = 0 }) rs inside,
      )
      (ap (λ rs'. ok (r.measure_class, r, p1, rs'))
        (ap
            (λ vals.
              with_entry p
                (record { measure_class = r.measure_class; ref_type = r.ref_type; num_values = 0 })
                (record rs { values = vals }))
            (sym (overlay-none pre (under 0 (values_from n 0 [])) rs.values (under-none 0 n 0)))
          ∙ with_entry-laid pre n [] r.measure_class r.ref_type rs))
