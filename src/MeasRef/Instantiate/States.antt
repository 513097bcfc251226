-- ===== src/MeasRef/Instantiate/States.antt =====
-- What the regions hold for `instantiate` to build a measure, and the states of its loop.
use legms.Prelude.{
  ℕ, suc, ◌+◌, ◌≤◌, ◌<◌, ◌≡◌, ◌≢◌, refl, ap, sym, ◌∙◌, Bool, true, false, List, [], ◌∷◌, ◌++◌,
  Option, none, some, length, ok, if_true, length-replicate,
}
use legms.IndexTree.Iterator.Coverage.{list_eq}
use legms.Prelude.Loops
use legms.Prelude.Loops.{here, next, Reaches-trans, while-Reaches, nonempty}
use legms.MeasRef.Measure.{MClass, Measure, null, measure, MrBase, is_class, component}
use legms.MeasRef.Regions.{Point, Metadata, Regions}
use legms.MeasRef.Entries.{pred, entry, own_values, own_metadata, entry-component}
use legms.MeasRef.Points.{zeros, list_eq_refl}
use legms.MeasRef.Initialize.States.{depth, InSpace}
use legms.MeasRef.Initialize.Components.{regroup}
use legms.MeasRef.Initialize.Written.{measure_of}
use legms.MeasRef.Instantiate.{Msrp, holds_measure, Item, fresh, State, step, body, going}

abbrev pub Reaches : (MClass → List ℕ → List ℕ) → ℕ → Regions → State → State → Type 0
Reaches make_value dim rs s t = Loops.Reaches going (body make_value dim rs) s t

pub Reaches-step :
    (make_value : MClass → List ℕ → List ℕ) (dim : ℕ) (rs : Regions) {s t u : State}
    → going s ≡ true
    → step make_value dim s.ms s.vmrb s.p s.p1 rs ≡ ok t
    → Reaches make_value dim rs t u
    → Reaches make_value dim rs s u
unfolding body
Reaches-step make_value dim rs k e reach = next k e reach

unfoldable pub is_some : {A : Type 0} → Option A → Bool
is_some none = false
is_some (some a) = true

-- Below a prefix the regions hold the entries of a measure, and the metadata has no other points.
pub record Holds (pre : Point) (n : ℕ) (m : Measure) (rs : Regions) : Type 0 where
  pub contained :
      (q : Point)
      → length q ≡ suc n
      → rs.metadata_space (pre ++ q) ≡ is_some (entry own_metadata n m q)
  pub metadata_at :
      (q : Point) (a : Metadata) → entry own_metadata n m q ≡ some a → rs.metadata (pre ++ q) ≡ a
  pub values_in : InSpace rs.values_space pre (entry own_values n m)
  pub values_at : (q : Point) (a : ℕ) → entry own_values n m q ≡ some a → rs.values (pre ++ q) ≡ a

-- An offset is of the class of its reference.
abbrev pub OffsetOf : MClass → Measure → Type 0
OffsetOf k null = Unit
OffsetOf k (measure vs j t o e l d v) = j ≡ k

-- A measure that can be built again: it and the measures on which it depends have values, which
-- `make_value` keeps, known classes, and offsets of their class.
abbrev pub IsRestorable : (MClass → List ℕ → List ℕ) → Measure → Type 0
IsRestorable make_value null = Unit
IsRestorable make_value (measure vs k t o e l d v) =
    (0 < length vs)
    × (make_value k vs ≡ vs)
    × (is_class k ≡ true)
    × OffsetOf k o
    × IsRestorable make_value o
    × IsRestorable make_value e
    × IsRestorable make_value l
    × IsRestorable make_value d
    × IsRestorable make_value v

-- From a state the loop comes to pop the top of the stack, with `held` in vmrb.
abbrev pub Pops :
    (MClass → List ℕ → List ℕ) → ℕ → Regions → Point → ℕ → List Item → State → Msrp → Type 0
Pops make_value dim rs pre n rest s held =
    (pl pl1 : Point) × (length pl ≡ suc n)
    × (length pl1 ≡ suc (suc n))
    × Reaches make_value dim rs s
        (record { ms = rest; vmrb = held; p = pre ++ pl; p1 = pre ++ pl1 })

abbrev pub Restores : (MClass → List ℕ → List ℕ) → ℕ → Regions → Measure → Type 0
Restores make_value dim rs m =
    (pre : Point) (n : ℕ) (rest : List Item) (pl pl1 : Point)
    → dim ≡ length pre + suc n
    → length pre ≡ suc (length rest)
    → length pl ≡ suc n
    → length pl1 ≡ suc (suc n)
    → depth m ≤ suc n
    → m ≢ null
    → Holds pre n m rs
    → Pops make_value dim rs pre n rest
        (record { ms = fresh ∷ rest; vmrb = holds_measure null; p = pre ++ pl; p1 = pre ++ pl1 })
        (holds_measure m)

-- What the regions hold for a component.
pub Holds-component :
    (pre : Point) (n c : ℕ) (vs : List ℕ) (r : MrBase) (cm : Measure) (rs : Regions)
    → component r c ≡ ok cm
    → suc (pred n) ≡ n
    → Holds pre n (measure_of vs r) rs
    → Holds (pre ++ c ∷ []) (pred n) cm rs
Holds-component pre n c vs r cm rs h room holds = record {
  contained = λ q hq.
      ap rs.metadata_space (regroup pre c q)
      ∙ holds.contained (c ∷ q) (ap suc (hq ∙ room))
      ∙ ap is_some (entry-component own_metadata n (measure_of vs r) cm r c q vs refl h);
  metadata_at = λ q a e.
      ap rs.metadata (regroup pre c q)
      ∙ holds.metadata_at (c ∷ q) a
          (entry-component own_metadata n (measure_of vs r) cm r c q vs refl h ∙ e);
  values_in = λ q a e.
      ap rs.values_space (regroup pre c q)
      ∙ holds.values_in (c ∷ q) a
          (entry-component own_values n (measure_of vs r) cm r c q vs refl h ∙ e);
  values_at = λ q a e.
      ap rs.values (regroup pre c q)
      ∙ holds.values_at (c ∷ q) a
          (entry-component own_values n (measure_of vs r) cm r c q vs refl h ∙ e);
}

-- The metadata has a point for a component exactly if the component is there.
pub contained_null :
    (pre : Point) (n c : ℕ) (vs : List ℕ) (r : MrBase) (rs : Regions)
    → component r c ≡ ok null
    → Holds pre n (measure_of vs r) rs
    → rs.metadata_space (pre ++ c ∷ zeros n) ≡ false
unfolding entry is_some
contained_null pre n c vs r rs h holds =
    holds.contained (c ∷ zeros n) (ap suc (length-replicate n 0))
    ∙ ap is_some (entry-component own_metadata n (measure_of vs r) null r c (zeros n) vs refl h)

entry_own :
    (n : ℕ) (m : Measure)
    → m ≢ null
    → (a : Metadata) × (entry own_metadata n m (0 ∷ zeros n) ≡ some a)
unfolding entry own_metadata
entry_own n null h = absurd (h refl)
entry_own n (measure vs k t o e l d v) h = (
  record { measure_class = k; ref_type = t; num_values = length vs },
  if_true (list_eq (zeros n) (zeros n)) _ _ (list_eq_refl (zeros n)),
)

pub contained_component :
    (pre : Point) (n c : ℕ) (vs : List ℕ) (r : MrBase) (cm : Measure) (rs : Regions)
    → component r c ≡ ok cm
    → cm ≢ null
    → suc (pred n) ≡ n
    → Holds pre n (measure_of vs r) rs
    → rs.metadata_space (pre ++ c ∷ zeros n) ≡ true
unfolding is_some
contained_component pre n c vs r cm rs h ne room holds =
    let (a, own) = entry_own (pred n) cm ne in
    holds.contained (c ∷ zeros n) (ap suc (length-replicate n 0))
    ∙ ap is_some (
        entry-component own_metadata n (measure_of vs r) cm r c (zeros n) vs refl h
        ∙ ap (λ (n : ℕ). entry own_metadata (pred n) cm (zeros n)) (sym room)
        ∙ own)

pub contained_end :
    (pre : Point) (n : ℕ) (vs : List ℕ) (r : MrBase) (rs : Regions)
    → Holds pre n (measure_of vs r) rs
    → rs.metadata_space (pre ++ 6 ∷ zeros n) ≡ false
unfolding entry is_some
contained_end pre n vs r rs holds = holds.contained (6 ∷ zeros n) (ap suc (length-replicate n 0))
