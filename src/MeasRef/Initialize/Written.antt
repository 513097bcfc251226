-- ===== src/MeasRef/Initialize/Written.antt =====
-- The loop of `initialize` returns, and has written the entries of the measures and nothing else.
use legms.Prelude.{
  ℕ, zero, suc, ◌+◌, ◌≤◌, ◌<◌, ◌≡◌, refl, ap, ◌∙◌, subst, Bool, true, List, [], ◌∷◌, ◌++◌, ltb,
  some, arith, length, get_elem?, ok, if_true, append_assoc, length-replicate, ok-injective,
}
use legms.IndexTree.Iterator.Coverage.{list_eq}
use legms.Prelude.Loops.{while-Reaches, nonempty}
use legms.MeasRef.Measure.{MClass, Measure, null, measure, MrBase, component}
use legms.MeasRef.Regions.{Point, Regions, put, clear}
use legms.MeasRef.Entries.{
  Partial, pred, entry, under, own_values, own_metadata, joined_entries, joined_entries_lem,
  entry-component, bare,
}
use legms.MeasRef.Points.{zeros, put-at, clear-above, laid, list_eq_refl}
use legms.MeasRef.Initialize.{
  Msr, is_measure, mc_mrbase, State, visit, scan, round, step, run, body, going,
}
use legms.MeasRef.Initialize.Visit.{ref_of, visit-measure, visit-mc_mrbase}
use legms.MeasRef.Initialize.States.{
  Reaches, Reaches-step, depth, HasClasses, InSpace, Pops, Visits,
}
use legms.MeasRef.Initialize.Components.{Components}
use legms.MeasRef.Initialize.Scan.{scan-Pops}

abbrev pub measure_of : List ℕ → MrBase → Measure
measure_of vs r =
    measure vs r.measure_class r.ref_type r.offset r.epoch r.position r.direction r.radial_velocity

round_value :
    (level : ℕ) (m : Msr) (k : MClass) (r : MrBase) (rest : List (Msr × ℕ)) (p p1 q q1 p1' : Point)
    (rs rs' : Regions)
    → put level 0 p ≡ q
    → put level 0 p1 ≡ q1
    → visit level m q q1 rs ≡ ok (k, r, p1', rs')
    → round level m 0 rest p p1 rs ≡ scan 5 level 1 k r rest q p1' rs'
unfolding round
round_value level m k r rest p p1 q q1 p1' rs rs' e e1 h =
    let visited : visit level m (put level 0 p) (put level 0 p1) rs ≡ ok (k, r, p1', rs') =
      rw (e, e1) h in
    rw visited (ap (λ p. scan 5 level 1 k r rest p p1' rs') e)

step-round :
    (dim level : ℕ) (m : Msr) (c : ℕ) (rest : List (Msr × ℕ)) (p p1 : Point) (rs : Regions)
    → level ≡ suc (length rest)
    → level < dim
    → step dim ((m, c) ∷ rest) p p1 rs
      ≡ round level m c rest (clear (suc level) p) (clear (suc level) p1) rs
unfolding step
step-round dim level m c rest p p1 rs hl lt =
    rw hl (if_true (ltb (suc (length rest)) dim) _ _ (ground arith))

step-visit :
    (dim n : ℕ) (pre : Point) (m : Msr) (k : MClass) (r : MrBase) (rest : List (Msr × ℕ))
    (x y y' : ℕ) (tl tl1 : Point) (rs rs' : Regions) (t : State)
    → length pre ≡ suc (length rest)
    → length pre < dim
    → length tl ≡ n
    → length tl1 ≡ suc n
    → visit (length pre) m (pre ++ 0 ∷ zeros n) (pre ++ 0 ∷ zeros (suc n)) rs
      ≡ ok (k, r, pre ++ 0 ∷ y' ∷ zeros n, rs')
    → scan 5 (length pre) 1 k r rest (pre ++ 0 ∷ zeros n) (pre ++ 0 ∷ y' ∷ zeros n) rs' ≡ ok t
    → step dim ((m, 0) ∷ rest) (pre ++ x ∷ tl) (pre ++ y ∷ tl1) rs ≡ ok t
step-visit dim n pre m k r rest x y y' tl tl1 rs rs' t hl lt ht ht1 visited scanned =
    step-round dim (length pre) m 0 rest (pre ++ x ∷ tl) (pre ++ y ∷ tl1) rs hl lt
    ∙ rw (clear-above pre tl x, clear-above pre tl1 y, ht, ht1)
        (round_value (length pre) m k r rest (pre ++ x ∷ zeros n) (pre ++ y ∷ zeros (suc n))
            (pre ++ 0 ∷ zeros n) (pre ++ 0 ∷ zeros (suc n)) (pre ++ 0 ∷ y' ∷ zeros n) rs rs'
            (put-at pre (zeros n) x 0) (put-at pre (zeros (suc n)) y 0) visited
          ∙ scanned)

-- The round that starts at a measure whose visit returns.
from_top :
    (dim n : ℕ) (pre : Point) (m : Msr) (vs : List ℕ) (k : MClass) (r : MrBase)
    (rest : List (Msr × ℕ)) (x y y' : ℕ) (tl tl1 : Point) (rs : Regions)
    → Components dim pre n r rs
    → dim ≡ length pre + suc n
    → length pre ≡ suc (length rest)
    → length tl ≡ n
    → length tl1 ≡ suc n
    → visit (length pre) m (pre ++ 0 ∷ zeros n) (pre ++ 0 ∷ zeros (suc n)) rs
      ≡ ok (
        k,
        r,
        pre ++ 0 ∷ y' ∷ zeros n,
        laid pre
            (under 0 (own_metadata n vs r.measure_class r.ref_type))
            (under 0 (own_values n vs r.measure_class r.ref_type))
            rs,
      )
    → Pops dim pre n rest
        (record { ms = (m, 0) ∷ rest; p = pre ++ x ∷ tl; p1 = pre ++ y ∷ tl1; regions = rs })
        (entry own_metadata n (measure_of vs r))
        (entry own_values n (measure_of vs r))
        rs
from_top dim n pre m vs k r rest x y y' tl tl1 rs comps hd hl ht ht1 visited =
    let (t, scanned, (pl, pl1, hp, hp1, reach)) =
      scan-Pops dim n 5 1 pre k r rest 0 0 (zeros n) (y' ∷ zeros n)
        (under 0 (own_metadata n vs r.measure_class r.ref_type))
        (under 0 (own_values n vs r.measure_class r.ref_type)) rs comps hd hl (length-replicate n 0)
        (ap suc (length-replicate n 0)) (omega arith) (omega arith) in
    (
      pl,
      pl1,
      hp,
      hp1,
      Reaches-step dim refl
          (step-visit dim n pre m k r rest x y y' tl tl1 rs _ t hl (omega arith) ht ht1 visited
            scanned)
          (subst
            (λ f. Reaches dim t (record {
              ms = rest;
              p = pre ++ pl;
              p1 = pre ++ pl1;
              regions = laid pre f (entry own_values n (measure_of vs r)) rs;
            }))
            (joined_entries_lem own_metadata n vs r)
            (subst
              (λ g. Reaches dim t (record {
                ms = rest;
                p = pre ++ pl;
                p1 = pre ++ pl1;
                regions =
                    laid pre
                      (joined_entries own_metadata n r 5 1
                        (under 0 (own_metadata n vs r.measure_class r.ref_type)))
                      g rs;
              }))
              (joined_entries_lem own_values n vs r) reach)),
    )

pub by_component :
    (P : Measure → Type 0) (r : MrBase) (c : ℕ) (cm : Measure)
    → P r.offset
    → P r.epoch
    → P r.position
    → P r.direction
    → P r.radial_velocity
    → component r c ≡ ok cm
    → P cm
unfolding component
by_component P r zero cm o e l d v h = cc
by_component P r (suc zero) cm o e l d v h = subst P (ok-injective h) o
by_component P r (suc (suc zero)) cm o e l d v h = subst P (ok-injective h) e
by_component P r (suc (suc (suc zero))) cm o e l d v h = subst P (ok-injective h) l
by_component P r (suc (suc (suc (suc zero)))) cm o e l d v h = subst P (ok-injective h) d
by_component P r (suc (suc (suc (suc (suc zero))))) cm o e l d v h = subst P (ok-injective h) v
by_component P r (suc (suc (suc (suc (suc (suc c)))))) cm o e l d v h = cc

InSpace-component :
    {A : Type 0} (own : ℕ → List ℕ → MClass → ℕ → Partial A) (space : Point → Bool) (pre : Point)
    (n c : ℕ) (vs : List ℕ) (r : MrBase) (cm : Measure)
    → component r c ≡ ok cm
    → InSpace space pre (entry own n (measure_of vs r))
    → InSpace space (pre ++ c ∷ []) (entry own (pred n) cm)
InSpace-component own space pre n c vs r cm h inside q a e =
    rw (append_assoc pre (c ∷ []) q)
      (inside (c ∷ q) a (entry-component own n (measure_of vs r) cm r c q vs refl h ∙ e))

make-Components :
    (dim n : ℕ) (pre : Point) (vs : List ℕ) (r : MrBase) (rs : Regions)
    → Visits dim r.offset
    → Visits dim r.epoch
    → Visits dim r.position
    → Visits dim r.direction
    → Visits dim r.radial_velocity
    → depth (measure_of vs r) ≤ suc n
    → InSpace rs.metadata_space pre (entry own_metadata n (measure_of vs r))
    → InSpace rs.values_space pre (entry own_values n (measure_of vs r))
    → Components dim pre n r rs
unfolding depth
make-Components dim n pre vs r rs o e l d v fits in_md in_vals = record {
  visits = λ c cm h. by_component (Visits dim) r c cm o e l d v h;
  fits = λ c cm h.
      by_component (λ m. depth m ≤ n) r c cm (omega arith) (omega arith) (omega arith) (omega arith)
        (omega arith) h;
  in_metadata = λ c cm h. InSpace-component own_metadata rs.metadata_space pre n c vs r cm h in_md;
  in_values = λ c cm h. InSpace-component own_values rs.values_space pre n c vs r cm h in_vals;
}

own-InSpace :
    (n : ℕ) (pre : Point) (vs : List ℕ) (r : MrBase) (space : Point → Bool)
    → InSpace space pre (entry own_metadata n (measure_of vs r))
    → space (pre ++ 0 ∷ zeros n) ≡ true
unfolding entry own_metadata
own-InSpace n pre vs r space inside =
    inside (0 ∷ zeros n)
      (record { measure_class = r.measure_class; ref_type = r.ref_type; num_values = length vs })
      (if_true (list_eq (zeros n) (zeros n)) _ _ (list_eq_refl (zeros n)))

pub get_elem?-lt : (vs : List ℕ) (x : ℕ) → x < length vs → (v : ℕ) × (get_elem? vs x ≡ some v)
get_elem?-lt [] x h = absurd (omega arith)
get_elem?-lt (v ∷ vs) zero h = (v, refl)
get_elem?-lt (v ∷ vs) (suc x) h = get_elem?-lt vs x (omega arith)

own_values-InSpace :
    (n : ℕ) (pre : Point) (vs : List ℕ) (r : MrBase) (space : Point → Bool)
    → InSpace space pre (entry own_values n (measure_of vs r))
    → (x : ℕ) → x < length vs
    → space (pre ++ 0 ∷ x ∷ zeros n) ≡ true
unfolding entry own_values
own_values-InSpace n pre vs r space inside x h =
    let (v, e) = get_elem?-lt vs x h in
    inside (0 ∷ x ∷ zeros n) v
      (if_true (list_eq (zeros n) (zeros n)) _ _ (list_eq_refl (zeros n)) ∙ e)

-- A measure on top of the stack is visited with all that it depends on.
pub measure-Visits : (dim : ℕ) (m : Measure) → HasClasses m → Visits dim m
measure-Visits dim null hc pre n rest pl pl1 rs hd hl hp hp1 fits ne in_md in_vals =
    absurd (ne refl)
measure-Visits dim (measure vs k t o e l d v) hc pre n rest [] pl1 rs hd hl hp hp1 fits ne in_md
      in_vals =
    absurd (omega arith)
measure-Visits dim (measure vs k t o e l d v) hc pre n rest (x ∷ tl) [] rs hd hl hp hp1 fits ne
      in_md in_vals =
    absurd (omega arith)
measure-Visits dim (measure vs k t o e l d v) hc pre n rest (x ∷ tl) (y ∷ tl1) rs hd hl hp hp1 fits
      ne in_md in_vals =
    let r : MrBase = ref_of k t o e l d v in
    let (y', visited) =
      visit-measure pre n 0 vs k t o e l d v rs hc.0
        (own-InSpace n pre vs r rs.metadata_space in_md)
        (own_values-InSpace n pre vs r rs.values_space in_vals) in
    from_top dim n pre (is_measure (measure vs k t o e l d v)) vs k r rest x y y' tl tl1 rs
      (make-Components dim n pre vs r rs (measure-Visits dim o hc.1) (measure-Visits dim e hc.2)
        (measure-Visits dim l hc.3) (measure-Visits dim d hc.4) (measure-Visits dim v hc.5) fits
        in_md in_vals)
      hd hl (omega arith) (omega arith) visited

pub run-Reaches :
    (dim : ℕ) (s t : State)
    → Reaches dim s t
    → t.ms ≡ []
    → (enough : ℕ) × ((f : ℕ) → enough ≤ f → run f dim s ≡ ok t)
unfolding run
run-Reaches dim s t reach done = while-Reaches going (body dim) s t reach (ap nonempty done)

-- A reference alone on the stack is visited with all that it depends on.
pub reference-Pops :
    (dim n : ℕ) (pre : Point) (r : MrBase) (rest : List (Msr × ℕ)) (x y : ℕ) (tl tl1 : Point)
    (rs : Regions)
    → HasClasses r.offset
    → HasClasses r.epoch
    → HasClasses r.position
    → HasClasses r.direction
    → HasClasses r.radial_velocity
    → dim ≡ length pre + suc n
    → length pre ≡ suc (length rest)
    → length tl ≡ n
    → length tl1 ≡ suc n
    → depth (bare r) ≤ suc n
    → InSpace rs.metadata_space pre (entry own_metadata n (bare r))
    → InSpace rs.values_space pre (entry own_values n (bare r))
    → Pops dim pre n rest
        (record {
          ms = (mc_mrbase r.measure_class r, 0) ∷ rest;
          p = pre ++ x ∷ tl;
          p1 = pre ++ y ∷ tl1;
          regions = rs;
        })
        (entry own_metadata n (bare r))
        (entry own_values n (bare r))
        rs
unfolding bare
reference-Pops dim n pre r rest x y tl tl1 rs ho he hl' hdir hv hd hl ht ht1 fits in_md in_vals =
    from_top dim n pre (mc_mrbase r.measure_class r) [] r.measure_class r rest x y 0 tl tl1 rs
      (make-Components dim n pre [] r rs (measure-Visits dim r.offset ho)
        (measure-Visits dim r.epoch he) (measure-Visits dim r.position hl')
        (measure-Visits dim r.direction hdir) (measure-Visits dim r.radial_velocity hv) fits in_md
        in_vals)
      hd hl ht ht1
      (visit-mc_mrbase pre n (pre ++ 0 ∷ 0 ∷ zeros n) r rs
        (own-InSpace n pre [] r rs.metadata_space in_md))
