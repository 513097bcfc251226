-- ===== src/MeasRef/RoundTrip.antt =====
-- `instantiate` builds the references that `initialize` has written.
use legms.Prelude.{
  ℕ, suc, ◌≤◌, max, ◌≡◌, refl, ap, ◌∙◌, List, [], ◌∷◌, ◌++◌, ◌==◌, some, arith, length, ok, throws,
  ◌>>=◌, if_false, length-replicate, All,
}
use legms.Prelude.Loops.{while-Reaches}
use legms.MeasRef.Measure.{MClass, null, MrBase}
use legms.MeasRef.Regions.{Point, Metadata, Regions}
use legms.MeasRef.Entries.{Partial, entry, own_values, own_metadata, or_else, bare}
use legms.MeasRef.Points.{zeros}
use legms.MeasRef.Initialize.States.{depth, InSpace}
use legms.MeasRef.Instantiate.{
  holds_measure, holds_mrbase, fresh, State, body, going, run, start, instantiate_from, instantiate,
}
use legms.MeasRef.Initialize
use legms.MeasRef.Initialize.References.{
  reference_entries, reference_entries_head, reference_entries_other, IsWritable,
  initialize-reference_entries,
}
use legms.MeasRef.Instantiate.States.{is_some, Holds}
use legms.MeasRef.Instantiate.Restored.{IsRestorableRef, reference-Pops}

-- The regions hold the entries F and G, and the metadata has no other points.
record Contains (n : ℕ) (f : Partial Metadata) (g : Partial ℕ) (rs : Regions) : Type 0 where
  contained : (q : Point) → length q ≡ suc (suc n) → rs.metadata_space q ≡ is_some (f q)
  metadata_at : (q : Point) (a : Metadata) → f q ≡ some a → rs.metadata q ≡ a
  values_in : InSpace rs.values_space [] g
  values_at : (q : Point) (a : ℕ) → g q ≡ some a → rs.values q ≡ a

-- From the coordinate i on, entries are those of the references.
abbrev SameFrom :
    {A : Type 0} → (ℕ → List ℕ → MClass → ℕ → Partial A) → ℕ → ℕ → List MrBase → Partial A → Type 0
SameFrom own n i mrbs f =
    (x : ℕ) (q : Point) → i ≤ x → f (x ∷ q) ≡ reference_entries own n i mrbs (x ∷ q)

SameFrom-head :
    {A : Type 0} (own : ℕ → List ℕ → MClass → ℕ → Partial A) (n i : ℕ) (r : MrBase)
    (mrbs : List MrBase) (f : Partial A)
    → SameFrom own n i (r ∷ mrbs) f
    → (q : Point) → f (i ∷ q) ≡ entry own n (bare r) q
SameFrom-head own n i r mrbs f same q =
    same i q (omega arith) ∙ reference_entries_head own n i r mrbs q

SameFrom-tail :
    {A : Type 0} (own : ℕ → List ℕ → MClass → ℕ → Partial A) (n i : ℕ) (r : MrBase)
    (mrbs : List MrBase) (f : Partial A)
    → SameFrom own n i (r ∷ mrbs) f
    → SameFrom own n (suc i) mrbs f
SameFrom-tail own n i r mrbs f same x q h =
    same x q (omega arith) ∙ reference_entries_other own n i r mrbs x q (λ e. omega arith)

Contains-Holds :
    (n i : ℕ) (r : MrBase) (mrbs : List MrBase) (f : Partial Metadata) (g : Partial ℕ)
    (rs : Regions)
    → Contains n f g rs
    → SameFrom own_metadata n i (r ∷ mrbs) f
    → SameFrom own_values n i (r ∷ mrbs) g
    → Holds (i ∷ []) n (bare r) rs
Contains-Holds n i r mrbs f g rs has same_md same_vals =
    let md : (q : Point) → f (i ∷ q) ≡ entry own_metadata n (bare r) q =
      SameFrom-head own_metadata n i r mrbs f same_md in
    let vals : (q : Point) → g (i ∷ q) ≡ entry own_values n (bare r) q =
      SameFrom-head own_values n i r mrbs g same_vals in
    record {
      contained = λ q hq. has.contained (i ∷ q) (ap suc hq) ∙ ap is_some (md q);
      metadata_at = λ q a e. has.metadata_at (i ∷ q) a (md q ∙ e);
      values_in = λ q a e. has.values_in (i ∷ q) a (vals q ∙ e);
      values_at = λ q a e. has.values_at (i ∷ q) a (vals q ∙ e);
    }

start_lem :
    (n i : ℕ)
    → start (suc (suc n)) i ≡ record {
      ms = fresh ∷ [];
      vmrb = holds_measure null;
      p = (i ∷ []) ++ 0 ∷ zeros n;
      p1 = (i ∷ []) ++ 0 ∷ zeros (suc n);
    }
unfolding start
start_lem n i = refl

instantiate_one :
    (make_value : MClass → List ℕ → List ℕ) (n i : ℕ) (r : MrBase) (rs : Regions)
    → IsRestorableRef make_value r
    → depth (bare r) ≤ suc n
    → Holds (i ∷ []) n (bare r) rs
    → (enough : ℕ) × (t : State) × ((f : ℕ)
        → enough ≤ f
        → run make_value f (suc (suc n)) rs (start (suc (suc n)) i) ≡ ok t)
      × (t.vmrb ≡ holds_mrbase r)
unfolding run
instantiate_one make_value n i r rs w fits holds =
    let (pl, pl1, hp, hp1, reach) =
      reference-Pops make_value (suc (suc n)) n (i ∷ []) r [] 0 0 (zeros n) (zeros (suc n)) rs w
        (omega arith) refl (length-replicate n 0) (ap suc (length-replicate n 0)) fits holds in
    let t : State = record { ms = []; vmrb = holds_mrbase r; p = i ∷ pl; p1 = i ∷ pl1 } in
    let (enough, runs) =
      while-Reaches going (body make_value (suc (suc n)) rs) (start (suc (suc n)) i) t
        (rw (start_lem n i) reach) refl in
    (enough, t, runs, refl)

instantiate_from-cons :
    (make_value : MClass → List ℕ → List ℕ) (f n i k : ℕ) (r : MrBase) (mrbs : List MrBase)
    (rs : Regions) (t : State)
    → run make_value f (suc (suc n)) rs (start (suc (suc n)) i) ≡ ok t
    → t.vmrb ≡ holds_mrbase r
    → instantiate_from make_value f (suc (suc n)) (suc i) k rs ≡ ok mrbs
    → instantiate_from make_value f (suc (suc n)) i (suc k) rs ≡ ok (r ∷ mrbs)
unfolding instantiate_from
instantiate_from-cons make_value f n i k r mrbs rs t ran e later = rw ran (
    ap
      (λ vmrb. elim vmrb [
        | holds_measure m ↦ throws
        | holds_mrbase r' ↦
            instantiate_from make_value f (suc (suc n)) (suc i) k rs >>= λ result. ok (r' ∷ result)
      ])
      e
    ∙ rw later refl)

instantiate_from_lem :
    (make_value : MClass → List ℕ → List ℕ) (n i : ℕ) (mrbs : List MrBase) (f : Partial Metadata)
    (g : Partial ℕ) (rs : Regions)
    → All (IsRestorableRef make_value) mrbs
    → All (λ r. depth (bare r) ≤ suc n) mrbs
    → Contains n f g rs
    → SameFrom own_metadata n i mrbs f
    → SameFrom own_values n i mrbs g
    → (enough : ℕ) × ((fuel : ℕ)
        → enough ≤ fuel
        → instantiate_from make_value fuel (suc (suc n)) i (length mrbs) rs ≡ ok mrbs)
instantiate_from_lem make_value n i [] f g rs ws ds has same_md same_vals =
    (0, λ fuel h. unfold instantiate_from in refl)
instantiate_from_lem make_value n i (r ∷ mrbs) f g rs ws ds has same_md same_vals =
    let (enough, t, runs, built) =
      instantiate_one make_value n i r rs ws.0 ds.0
        (Contains-Holds n i r mrbs f g rs has same_md same_vals) in
    let (more, later) =
      instantiate_from_lem make_value n (suc i) mrbs f g rs ws.1 ds.1 has
        (SameFrom-tail own_metadata n i r mrbs f same_md)
        (SameFrom-tail own_values n i r mrbs g same_vals) in
    (
      max enough more,
      λ fuel h.
          instantiate_from-cons make_value fuel n i (length mrbs) r mrbs rs t
            (runs fuel (omega arith)) built (later fuel (omega arith)),
    )

levels-All :
    (n : ℕ) (klass : MClass) (mrbs : List MrBase)
    → All (IsWritable n klass) mrbs
    → All (λ r. depth (bare r) ≤ suc n) mrbs
levels-All n klass [] ws = tt
levels-All n klass (r ∷ mrbs) ws = (ws.0.levels, levels-All n klass mrbs ws.1)

written : ℕ → List MrBase → Regions → Regions
written n mrbs rs = record rs {
  metadata = λ q. or_else (reference_entries own_metadata n 0 mrbs q) (rs.metadata q);
  values = λ q. or_else (reference_entries own_values n 0 mrbs q) (rs.values q);
}

written-Contains :
    (n : ℕ) (mrbs : List MrBase) (rs : Regions)
    → ((q : Point)
        → length q ≡ suc (suc n)
        → rs.metadata_space q ≡ is_some (reference_entries own_metadata n 0 mrbs q))
    → InSpace rs.values_space [] (reference_entries own_values n 0 mrbs)
    → Contains n
        (reference_entries own_metadata n 0 mrbs)
        (reference_entries own_values n 0 mrbs)
        (written n mrbs rs)
unfolding written or_else
written-Contains n mrbs rs points in_vals = record {
  contained = points;
  metadata_at = λ q a e. ap (λ o. or_else o (rs.metadata q)) e;
  values_in = in_vals;
  values_at = λ q a e. ap (λ o. or_else o (rs.values q)) e;
}

-- `initialize` writes references of one class to regions of which the metadata has exactly the points
-- of their entries, and the values at least those; then `instantiate`, for the number of references,
-- returns the same references. It does so with enough fuel, if each reference and each measure on
-- which it depends is of a known class, each such measure has values, which `make_value` keeps, each
-- offset is of the class of its reference, and no reference has more levels than there are
-- coordinates.
pub instantiate-initialize :
    (make_value : MClass → List ℕ → List ℕ) (n : ℕ) (r : MrBase) (mrbs : List MrBase)
    (klass : MClass) (rs : Regions)
    → All (IsWritable n klass) (r ∷ mrbs)
    → All (IsRestorableRef make_value) (r ∷ mrbs)
    → ((q : Point)
        → length q ≡ suc (suc n)
        → rs.metadata_space q ≡ is_some (reference_entries own_metadata n 0 (r ∷ mrbs) q))
    → InSpace rs.metadata_space [] (reference_entries own_metadata n 0 (r ∷ mrbs))
    → InSpace rs.values_space [] (reference_entries own_values n 0 (r ∷ mrbs))
    → (enough : ℕ) × ((f : ℕ)
        → enough ≤ f
        → (Initialize.initialize f (suc (suc n)) (r ∷ mrbs) klass rs >>= λ rs'.
            instantiate make_value f (suc (suc n)) rs' (length mrbs))
          ≡ ok (r ∷ mrbs))
unfolding instantiate
instantiate-initialize make_value n r mrbs klass rs ws cs points in_md in_vals =
    let (enough, wrote) = initialize-reference_entries n (r ∷ mrbs) klass rs ws in_md in_vals in
    let (more, built) =
      instantiate_from_lem make_value n 0 (r ∷ mrbs) (reference_entries own_metadata n 0 (r ∷ mrbs))
        (reference_entries own_values n 0 (r ∷ mrbs)) (written n (r ∷ mrbs) rs) cs
        (levels-All n klass (r ∷ mrbs) ws) (written-Contains n (r ∷ mrbs) rs points in_vals)
        (λ x q h. refl) (λ x q h. refl) in
    (
      max enough more,
      λ f h. rw (wrote f (omega arith)) (
          if_false (suc (suc n) == 1) _ _ (ground arith)
          ∙ (unfold written in built f (omega arith))),
    )
