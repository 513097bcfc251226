-- ===== src/MeasRef/Initialize/References.antt =====
-- `initialize` returns, and has written the entries of all the references and nothing else.
use legms.Prelude.{
  ℕ, suc, ◌≤◌, ◌<◌, max, ◌≡◌, ◌≢◌, refl, ap, ap₂, sym, ◌∙◌, Bool, List, [], ◌∷◌, ◌++◌, ◌==◌, Option,
  none, some, arith, ok, if_false, length-replicate, All,
}
use legms.MeasRef.Measure.{MClass, MrBase}
use legms.MeasRef.Regions.{Point, Regions}
use legms.MeasRef.Entries.{
  Partial, entry, or_else, overlay, overlay-join, overlay-under, join, under, first_of, own_values,
  own_metadata, bare,
}
use legms.MeasRef.Points.{zeros, overlay-none, laid}
use legms.MeasRef.Initialize.{mc_mrbase, State, run, start, initialize_from, initialize}
use legms.MeasRef.Initialize.States.{Reaches, depth, HasClasses, InSpace}
use legms.MeasRef.Initialize.Written.{reference-Pops, run-Reaches}

-- The entries of references that stand at the coordinates i, i + 1, ….
unfoldable pub reference_entries :
    {A : Type 0} → (ℕ → List ℕ → MClass → ℕ → Partial A) → ℕ → ℕ → List MrBase → Partial A
unfolding under first_of bare
reference_entries own n i [] = λ q. none
reference_entries own n i (r ∷ mrbs) =
    join (reference_entries own n (suc i) mrbs) (under i (entry own n (bare r)))

-- What a reference must be for `initialize` to write it with `n` coordinates below its own one and
-- that of its level: of the class that is given with it, with components of known classes, and of
-- no more levels than there are coordinates.
pub record IsWritable (n : ℕ) (klass : MClass) (r : MrBase) : Type 0 where
  pub of_class : r.measure_class ≡ klass
  pub offset_classes : HasClasses r.offset
  pub epoch_classes : HasClasses r.epoch
  pub position_classes : HasClasses r.position
  pub direction_classes : HasClasses r.direction
  pub radial_velocity_classes : HasClasses r.radial_velocity
  pub levels : depth (bare r) ≤ suc n

pub reference_entries_below :
    {A : Type 0} (own : ℕ → List ℕ → MClass → ℕ → Partial A) (n i x : ℕ) (mrbs : List MrBase)
    (q : Point)
    → x < i
    → reference_entries own n i mrbs (x ∷ q) ≡ none
unfolding reference_entries
reference_entries_below own n i x [] q h = refl
reference_entries_below own n i x (r ∷ mrbs) q h =
    rw (reference_entries_below own n (suc i) x mrbs q (omega arith)) (ground arith)

pub reference_entries_nil :
    {A : Type 0} (own : ℕ → List ℕ → MClass → ℕ → Partial A) (n i : ℕ) (mrbs : List MrBase)
    → reference_entries own n i mrbs [] ≡ none
unfolding reference_entries
reference_entries_nil own n i [] = refl
reference_entries_nil own n i (r ∷ mrbs) = rw (reference_entries_nil own n (suc i) mrbs)

pub reference_entries_head :
    {A : Type 0} (own : ℕ → List ℕ → MClass → ℕ → Partial A) (n i : ℕ) (r : MrBase)
    (mrbs : List MrBase) (q : Point)
    → reference_entries own n i (r ∷ mrbs) (i ∷ q) ≡ entry own n (bare r) q
unfolding reference_entries
reference_entries_head own n i r mrbs q =
    rw (reference_entries_below own n (suc i) i mrbs q (omega arith)) (ground arith)

drop_none : {A : Type 0} (a : Option A) {b : Option A} → b ≡ none → first_of a b ≡ a
unfolding first_of
drop_none none e = e
drop_none (some a) e = refl

-- The other references.
pub reference_entries_other :
    {A : Type 0} (own : ℕ → List ℕ → MClass → ℕ → Partial A) (n i : ℕ) (r : MrBase)
    (mrbs : List MrBase) (x : ℕ) (q : Point)
    → i ≢ x
    → reference_entries own n i (r ∷ mrbs) (x ∷ q) ≡ reference_entries own n (suc i) mrbs (x ∷ q)
unfolding reference_entries first_of under
reference_entries_other own n i r mrbs x q h =
    drop_none (reference_entries own n (suc i) mrbs (x ∷ q))
      (if_false (i == x) (entry own n (bare r) q) none (ground arith))

pub reference_entries_tail :
    {A : Type 0} (own : ℕ → List ℕ → MClass → ℕ → Partial A) (n i : ℕ) (r : MrBase)
    (mrbs : List MrBase) (q : Point) (a : A)
    → reference_entries own n (suc i) mrbs q ≡ some a
    → reference_entries own n i (r ∷ mrbs) q ≡ some a
unfolding reference_entries
reference_entries_tail own n i r mrbs q a h = rw h

start_lem :
    (n i : ℕ) (klass : MClass) (r : MrBase) (rs : Regions)
    → start (suc (suc n)) i klass r rs ≡ record {
      ms = (mc_mrbase klass r, 0) ∷ [];
      p = (i ∷ []) ++ 0 ∷ zeros n;
      p1 = (i ∷ []) ++ 0 ∷ zeros (suc n);
      regions = rs;
    }
unfolding start
start_lem n i klass r rs = refl

laid_cons :
    (n i : ℕ) (r : MrBase) (mrbs : List MrBase) (rs : Regions)
    → laid []
        (reference_entries own_metadata n (suc i) mrbs)
        (reference_entries own_values n (suc i) mrbs)
        (laid (i ∷ []) (entry own_metadata n (bare r)) (entry own_values n (bare r)) rs)
      ≡ laid []
          (reference_entries own_metadata n i (r ∷ mrbs))
          (reference_entries own_values n i (r ∷ mrbs))
          rs
unfolding laid reference_entries
laid_cons n i r mrbs rs =
    ap₂ (λ md vals. record rs { metadata = md; values = vals })
      (ap (overlay [] (reference_entries own_metadata n (suc i) mrbs))
          (overlay-under [] i (entry own_metadata n (bare r)) rs.metadata)
        ∙ overlay-join [] (reference_entries own_metadata n (suc i) mrbs)
            (under i (entry own_metadata n (bare r))) rs.metadata)
      (ap (overlay [] (reference_entries own_values n (suc i) mrbs))
          (overlay-under [] i (entry own_values n (bare r)) rs.values)
        ∙ overlay-join [] (reference_entries own_values n (suc i) mrbs)
            (under i (entry own_values n (bare r))) rs.values)

abbrev Initializes : ℕ → ℕ → ℕ → List MrBase → MClass → Regions → Type 0
Initializes enough n i mrbs klass rs =
    (f : ℕ)
    → enough ≤ f
    → initialize_from f (suc (suc n)) i mrbs klass rs
      ≡ ok (
          laid [] (reference_entries own_metadata n i mrbs) (reference_entries own_values n i mrbs)
            rs)

initialize_one :
    (n i : ℕ) (klass : MClass) (r : MrBase) (rs : Regions)
    → IsWritable n klass r
    → InSpace rs.metadata_space (i ∷ []) (entry own_metadata n (bare r))
    → InSpace rs.values_space (i ∷ []) (entry own_values n (bare r))
    → (t : State) × Reaches (suc (suc n)) (start (suc (suc n)) i klass r rs) t
      × (t.ms ≡ [])
      × (t.regions ≡ laid (i ∷ []) (entry own_metadata n (bare r)) (entry own_values n (bare r)) rs)
initialize_one n i klass r rs w in_md in_vals =
    let (pl, pl1, hp, hp1, reach) =
      reference-Pops (suc (suc n)) n (i ∷ []) r [] 0 0 (zeros n) (zeros (suc n)) rs w.offset_classes
        w.epoch_classes w.position_classes w.direction_classes w.radial_velocity_classes
        (omega arith) refl (length-replicate n 0) (ap suc (length-replicate n 0)) w.levels in_md
        in_vals in
    (
      record {
        ms = [];
        p = i ∷ pl;
        p1 = i ∷ pl1;
        regions = laid (i ∷ []) (entry own_metadata n (bare r)) (entry own_values n (bare r)) rs;
      },
      rw (start_lem n i klass r rs, ← w.of_class) reach,
      refl,
      refl,
    )

laid-none : (rs : Regions) → laid [] (λ q. none) (λ q. none) rs ≡ rs
unfolding laid
laid-none rs =
    ap₂ (λ md vals. record rs { metadata = md; values = vals })
      (overlay-none [] (λ q. none) rs.metadata (λ q. refl))
      (overlay-none [] (λ q. none) rs.values (λ q. refl))

initialize_from-cons :
    (f n i : ℕ) (r : MrBase) (mrbs : List MrBase) (klass : MClass) (rs rs' : Regions) (t : State)
    → run f (suc (suc n)) (start (suc (suc n)) i klass r rs) ≡ ok t
    → t.regions ≡ rs'
    → initialize_from f (suc (suc n)) i (r ∷ mrbs) klass rs
      ≡ initialize_from f (suc (suc n)) (suc i) mrbs klass rs'
unfolding initialize_from
initialize_from-cons f n i r mrbs klass rs rs' t ran e =
    rw ran (ap (initialize_from f (suc (suc n)) (suc i) mrbs klass) e)

InSpace-head :
    {A : Type 0} (own : ℕ → List ℕ → MClass → ℕ → Partial A) (space : Point → Bool) (n i : ℕ)
    (r : MrBase) (mrbs : List MrBase)
    → InSpace space [] (reference_entries own n i (r ∷ mrbs))
    → InSpace space (i ∷ []) (entry own n (bare r))
InSpace-head own space n i r mrbs inside q a e =
    inside (i ∷ q) a (reference_entries_head own n i r mrbs q ∙ e)

InSpace-tail :
    {A : Type 0} (own : ℕ → List ℕ → MClass → ℕ → Partial A) (space : Point → Bool) (n i : ℕ)
    (r : MrBase) (mrbs : List MrBase)
    → InSpace space [] (reference_entries own n i (r ∷ mrbs))
    → InSpace space [] (reference_entries own n (suc i) mrbs)
InSpace-tail own space n i r mrbs inside q a e =
    inside q a (reference_entries_tail own n i r mrbs q a e)

initialize_from_lem :
    (n i : ℕ) (mrbs : List MrBase) (klass : MClass) (rs : Regions)
    → All (IsWritable n klass) mrbs
    → InSpace rs.metadata_space [] (reference_entries own_metadata n i mrbs)
    → InSpace rs.values_space [] (reference_entries own_values n i mrbs)
    → (enough : ℕ) × Initializes enough n i mrbs klass rs
initialize_from_lem n i [] klass rs ws in_md in_vals = (0, λ f h. initialize_nil f)
  where
    initialize_nil :
        (f : ℕ)
        → initialize_from f (suc (suc n)) i [] klass rs
          ≡ ok (
              laid []
                (reference_entries own_metadata n i [])
                (reference_entries own_values n i [])
                rs)
    initialize_nil f = unfold initialize_from reference_entries in ap ok (sym (laid-none rs))
initialize_from_lem n i (r ∷ mrbs) klass rs ws in_md in_vals =
    let (t, reach, popped, regions_eq) =
      initialize_one n i klass r rs ws.0
        (InSpace-head own_metadata rs.metadata_space n i r mrbs in_md)
        (InSpace-head own_values rs.values_space n i r mrbs in_vals) in
    let (enough, runs) =
      run-Reaches (suc (suc n)) (start (suc (suc n)) i klass r rs) t reach popped in
    let rs' : Regions =
      laid (i ∷ []) (entry own_metadata n (bare r)) (entry own_values n (bare r)) rs in
    let (more, later) =
      initialize_from_lem n (suc i) mrbs klass rs' ws.1
        (unfold laid in InSpace-tail own_metadata rs.metadata_space n i r mrbs in_md)
        (unfold laid in InSpace-tail own_values rs.values_space n i r mrbs in_vals) in
    (
      max enough more,
      λ f h.
          initialize_from-cons f n i r mrbs klass rs rs' t (runs f (omega arith)) regions_eq
          ∙ later f (omega arith)
          ∙ ap ok (laid_cons n i r mrbs rs),
    )

-- `initialize` of references of one class, with components of known classes and no more levels than
-- there are coordinates, in regions whose index spaces have the points of their entries: with enough
-- fuel it returns, and the regions are as before but for the entries of the references.
pub initialize-reference_entries :
    (n : ℕ) (mrbs : List MrBase) (klass : MClass) (rs : Regions)
    → All (IsWritable n klass) mrbs
    → InSpace rs.metadata_space [] (reference_entries own_metadata n 0 mrbs)
    → InSpace rs.values_space [] (reference_entries own_values n 0 mrbs)
    → (enough : ℕ) × ((f : ℕ)
        → enough ≤ f
        → initialize f (suc (suc n)) mrbs klass rs
          ≡ ok (record rs {
            metadata = λ q. or_else (reference_entries own_metadata n 0 mrbs q) (rs.metadata q);
            values = λ q. or_else (reference_entries own_values n 0 mrbs q) (rs.values q);
          }))
unfolding initialize
initialize-reference_entries n mrbs klass rs ws in_md in_vals =
    let (enough, runs) = initialize_from_lem n 0 mrbs klass rs ws in_md in_vals in
    (
      enough,
      λ f h.
          if_false (suc (suc n) == 1) _ _ (ground arith) ∙ runs f h ∙ (unfold laid overlay in refl),
    )
