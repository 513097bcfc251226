-- ===== src/MeasRef/Instantiate/Restored.antt =====
-- The loop of `instantiate` builds what the regions hold.
use legms.Prelude.{
  ℕ, suc, ◌+◌, ◌≤◌, ◌<◌, ◌≡◌, refl, ap, ◌∙◌, subst, true, List, [], ◌∷◌, ◌++◌, ltb, arith, length,
  if_true, length-replicate,
}
use legms.MeasRef.Measure.{MClass, Measure, null, measure, MrBase, is_class}
use legms.MeasRef.Regions.{Point, Regions}
use legms.MeasRef.Entries.{bare}
use legms.MeasRef.Points.{zeros}
use legms.MeasRef.Initialize.States.{depth}
use legms.MeasRef.Initialize.Visit.{ref_of}
use legms.MeasRef.Initialize.Written.{measure_of, by_component}
use legms.MeasRef.Instantiate.{holds_measure, holds_mrbase, Item, fresh}
use legms.MeasRef.Instantiate.States.{Reaches-step, Holds, OffsetOf, IsRestorable, Pops, Restores}
use legms.MeasRef.Instantiate.Filled.{outcome}
use legms.MeasRef.Instantiate.Attach.{Attachable, offers, attaches_lem}
use legms.MeasRef.Instantiate.Fresh.{value_of, read_measure_lem, step-fresh}

-- A level that is pushed is popped, with what it holds built.
from_fresh :
    (make_value : MClass → List ℕ → List ℕ) (dim n : ℕ) (pre : Point) (vs : List ℕ) (r : MrBase)
    (rest : List Item) (x y : ℕ) (tl tl1 : Point) (rs : Regions)
    → Attachable make_value dim pre n vs r r.measure_class rs
    → dim ≡ length pre + suc n
    → length pre ≡ suc (length rest)
    → length tl ≡ n
    → length tl1 ≡ suc n
    → Pops make_value dim rs pre n rest
        (record {
          ms = fresh ∷ rest;
          vmrb = holds_measure null;
          p = pre ++ x ∷ tl;
          p1 = pre ++ y ∷ tl1;
        })
        (outcome (value_of make_value r.measure_class vs) r)
from_fresh make_value dim n pre vs r rest x y tl tl1 rs able hd hl ht ht1 =
    let (y', read) = read_measure_lem make_value pre n 0 vs r rs able.known able.holds in
    let (t, offered, (pl, pl1, hp, hp1, reach)) =
      offers make_value dim n pre vs r r.measure_class rs (value_of make_value r.measure_class vs)
        rest able hd hl 5 1 (y' ∷ zeros n) (ap suc (length-replicate n 0)) (omega arith)
        (omega arith)
        (attaches_lem make_value dim n pre vs r r.measure_class rs
          (value_of make_value r.measure_class vs) rest able hd hl 5 1 (omega arith)
          (omega arith)) in
    (
      pl,
      pl1,
      hp,
      hp1,
      Reaches-step make_value dim rs refl
          (step-fresh make_value dim n pre vs r rest x y y' tl tl1 rs t hl (omega arith) ht ht1 read
            offered)
          reach,
    )

make-Attachable :
    (make_value : MClass → List ℕ → List ℕ) (dim n : ℕ) (pre : Point) (vs : List ℕ) (r : MrBase)
    (rs : Regions)
    → is_class r.measure_class ≡ true
    → OffsetOf r.measure_class r.offset
    → Restores make_value dim rs r.offset
    → Restores make_value dim rs r.epoch
    → Restores make_value dim rs r.position
    → Restores make_value dim rs r.direction
    → Restores make_value dim rs r.radial_velocity
    → depth (measure_of vs r) ≤ suc n
    → Holds pre n (measure_of vs r) rs
    → Attachable make_value dim pre n vs r r.measure_class rs
unfolding depth
make-Attachable make_value dim n pre vs r rs known off o e l d v fits holds = record {
  known = known;
  offset_of = off;
  restores = λ c cm h. by_component (Restores make_value dim rs) r c cm o e l d v h;
  fits = λ c cm h.
      by_component (λ m. depth m ≤ n) r c cm (omega arith) (omega arith) (omega arith) (omega arith)
        (omega arith) h;
  holds = holds;
}

outcome_measure :
    (make_value : MClass → List ℕ → List ℕ) (vs : List ℕ) (r : MrBase)
    → 0 < length vs
    → make_value r.measure_class vs ≡ vs
    → outcome (value_of make_value r.measure_class vs) r ≡ holds_measure (measure_of vs r)
unfolding value_of outcome
outcome_measure make_value vs r h e =
    ap (λ v. outcome v r) (if_true (ltb 0 (length vs)) _ _ (ground arith))
    ∙ ap (λ ws. holds_measure (measure_of ws r)) e

outcome_bare :
    (make_value : MClass → List ℕ → List ℕ) (r : MrBase)
    → outcome (value_of make_value r.measure_class []) r ≡ holds_mrbase r
unfolding value_of outcome
outcome_bare make_value r = refl

measure-Restores :
    (make_value : MClass → List ℕ → List ℕ) (dim : ℕ) (rs : Regions) (m : Measure)
    → IsRestorable make_value m
    → Restores make_value dim rs m
measure-Restores make_value dim rs null ok_m pre n rest pl pl1 hd hl hp hp1 fits ne holds =
    absurd (ne refl)
measure-Restores make_value dim rs (measure vs k t o e l d v) ok_m pre n rest [] pl1 hd hl hp hp1
      fits ne holds =
    absurd (omega arith)
measure-Restores make_value dim rs (measure vs k t o e l d v) ok_m pre n rest (x ∷ tl) [] hd hl hp
      hp1 fits ne holds =
    absurd (omega arith)
measure-Restores make_value dim rs (measure vs k t o e l d v) ok_m pre n rest (x ∷ tl) (y ∷ tl1) hd
      hl hp hp1 fits ne holds =
    let r : MrBase = ref_of k t o e l d v in
    subst
      (Pops make_value dim rs pre n rest (record {
        ms = fresh ∷ rest;
        vmrb = holds_measure null;
        p = pre ++ x ∷ tl;
        p1 = pre ++ y ∷ tl1;
      }))
      (outcome_measure make_value vs r ok_m.0 ok_m.1)
      (from_fresh make_value dim n pre vs r rest x y tl tl1 rs
        (make-Attachable make_value dim n pre vs r rs ok_m.2 ok_m.3
          (measure-Restores make_value dim rs o ok_m.4)
          (measure-Restores make_value dim rs e ok_m.5)
          (measure-Restores make_value dim rs l ok_m.6)
          (measure-Restores make_value dim rs d ok_m.7)
          (measure-Restores make_value dim rs v ok_m.8) fits holds)
        hd hl (omega arith) (omega arith))

-- A reference that can be built again.
pub record IsRestorableRef (make_value : MClass → List ℕ → List ℕ) (r : MrBase) : Type 0 where
  pub known : is_class r.measure_class ≡ true
  pub offset_of : OffsetOf r.measure_class r.offset
  pub offset : IsRestorable make_value r.offset
  pub epoch : IsRestorable make_value r.epoch
  pub position : IsRestorable make_value r.position
  pub direction : IsRestorable make_value r.direction
  pub radial_velocity : IsRestorable make_value r.radial_velocity

pub reference-Pops :
    (make_value : MClass → List ℕ → List ℕ) (dim n : ℕ) (pre : Point) (r : MrBase)
    (rest : List Item) (x y : ℕ) (tl tl1 : Point) (rs : Regions)
    → IsRestorableRef make_value r
    → dim ≡ length pre + suc n
    → length pre ≡ suc (length rest)
    → length tl ≡ n
    → length tl1 ≡ suc n
    → depth (bare r) ≤ suc n
    → Holds pre n (bare r) rs
    → Pops make_value dim rs pre n rest
        (record {
          ms = fresh ∷ rest;
          vmrb = holds_measure null;
          p = pre ++ x ∷ tl;
          p1 = pre ++ y ∷ tl1;
        })
        (holds_mrbase r)
unfolding bare
reference-Pops make_value dim n pre r rest x y tl tl1 rs w hd hl ht ht1 fits holds =
    subst
      (Pops make_value dim rs pre n rest (record {
        ms = fresh ∷ rest;
        vmrb = holds_measure null;
        p = pre ++ x ∷ tl;
        p1 = pre ++ y ∷ tl1;
      }))
      (outcome_bare make_value r)
      (from_fresh make_value dim n pre [] r rest x y tl tl1 rs
        (make-Attachable make_value dim n pre [] r rs w.known w.offset_of
          (measure-Restores make_value dim rs r.offset w.offset)
          (measure-Restores make_value dim rs r.epoch w.epoch)
          (measure-Restores make_value dim rs r.position w.position)
          (measure-Restores make_value dim rs r.direction w.direction)
          (measure-Restores make_value dim rs r.radial_velocity w.radial_velocity) fits holds)
        hd hl ht ht1)
