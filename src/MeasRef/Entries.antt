-- ===== src/MeasRef/Entries.antt =====
-- What the regions hold for a measure, as a partial function of the coordinates below its level, and
-- how such functions are laid over the contents of a region.
use legms.Prelude.{
  ℕ, zero, suc, ◌≡◌, refl, ap, List, [], ◌∷◌, ◌++◌, ◌==◌, if◌then◌else◌, Option, none, some, arith,
  length, get_elem?, replicate, Result, ok, Bool-cases, inl, inr,
}
use mathlib.Core.Path.{fun_ext}
use legms.IndexTree.Iterator.Coverage.{list_eq}
use legms.MeasRef.Measure.{MClass, Measure, null, measure, MrBase, component}
use legms.MeasRef.Regions.{Point, Metadata, update}

abbrev pub Partial : Type 0 → Type 0
Partial A = Point → Option A

abbrev pub pred : ℕ → ℕ
pred zero = zero
pred (suc n) = n

-- The entries of a measure, with `n` coordinates after the one of its level: its own ones under the
-- coordinate 0, and under the coordinate of a component those of the component.
unfoldable pub entry :
    {A : Type 0} → (ℕ → List ℕ → MClass → ℕ → Partial A) → ℕ → Measure → Partial A
entry own n null q = none
entry own n (measure vs k t o e l d v) [] = none
entry own n (measure vs k t o e l d v) (zero ∷ q) = own n vs k t q
entry own n (measure vs k t o e l d v) (suc zero ∷ q) = entry own (pred n) o q
entry own n (measure vs k t o e l d v) (suc (suc zero) ∷ q) = entry own (pred n) e q
entry own n (measure vs k t o e l d v) (suc (suc (suc zero)) ∷ q) = entry own (pred n) l q
entry own n (measure vs k t o e l d v) (suc (suc (suc (suc zero))) ∷ q) = entry own (pred n) d q
entry own n (measure vs k t o e l d v) (suc (suc (suc (suc (suc zero)))) ∷ q) =
    entry own (pred n) v q
entry own n (measure vs k t o e l d v) (suc (suc (suc (suc (suc (suc x))))) ∷ q) = none

-- The metadata of a measure stands where the other coordinates are 0.
unfoldable pub own_metadata : ℕ → List ℕ → MClass → ℕ → Partial Metadata
unfolding list_eq
own_metadata n vs k t q =
    if list_eq (replicate n 0) q
    then some (record { measure_class = k; ref_type = t; num_values = length vs })
    else none

-- Its value j stands where the next coordinate is j and the others are 0.
unfoldable pub own_values : ℕ → List ℕ → MClass → ℕ → Partial ℕ
unfolding list_eq
own_values n vs k t [] = none
own_values n vs k t (j ∷ q) = if list_eq (replicate n 0) q then get_elem? vs j else none

-- The measure of which a reference is, without values.
unfoldable pub bare : MrBase → Measure
bare r =
    measure [] r.measure_class r.ref_type r.offset r.epoch r.position r.direction r.radial_velocity

unfoldable pub or_else : {A : Type 0} → Option A → A → A
or_else none a = a
or_else (some b) a = b

-- Contents with a partial function laid over them, below a prefix.
unfoldable pub overlay : {A : Type 0} → Point → Partial A → (Point → A) → Point → A
unfolding or_else
overlay [] f s q = or_else (f q) (s q)
overlay (x ∷ pre) f s [] = s []
overlay (x ∷ pre) f s (y ∷ q) = if x == y then overlay pre f (λ q. s (y ∷ q)) q else s (y ∷ q)

-- A partial function below one more coordinate; the first of two that has a value; one entry.
unfoldable pub under : {A : Type 0} → ℕ → Partial A → Partial A
under c f [] = none
under c f (x ∷ q) = if c == x then f q else none

unfoldable pub first_of : {A : Type 0} → Option A → Option A → Option A
first_of none b = b
first_of (some a) b = some a

abbrev pub join : {A : Type 0} → Partial A → Partial A → Partial A
join f g q = first_of (f q) (g q)

unfoldable pub single : {A : Type 0} → Point → A → Partial A
unfolding list_eq
single p a q = if list_eq p q then some a else none

overlay-join_at :
    {A : Type 0} (pre : Point) (f g : Partial A) (s : Point → A) (q : Point)
    → overlay pre f (overlay pre g s) q ≡ overlay pre (join f g) s q
unfolding overlay first_of or_else
overlay-join_at [] f g s q = ground arith
overlay-join_at (x ∷ pre) f g s [] = refl
overlay-join_at (x ∷ pre) f g s (y ∷ q) = elim (Bool-cases (x == y)) [
  | inl e ↦ rw e (overlay-join_at pre f g (λ q. s (y ∷ q)) q)
  | inr e ↦ rw e
]

overlay-under_at :
    {A : Type 0} (pre : Point) (c : ℕ) (f : Partial A) (s : Point → A) (q : Point)
    → overlay (pre ++ c ∷ []) f s q ≡ overlay pre (under c f) s q
unfolding overlay under or_else
overlay-under_at [] c f s [] = refl
overlay-under_at [] c f s (y ∷ q) = ground arith
overlay-under_at (x ∷ pre) c f s [] = refl
overlay-under_at (x ∷ pre) c f s (y ∷ q) =
    ground (arith, overlay-under_at pre c f (λ q. s (y ∷ q)) q)

overlay-update_at :
    {A : Type 0} (pre p : Point) (a : A) (s : Point → A) (q : Point)
    → update (pre ++ p) a s q ≡ overlay pre (single p a) s q
unfolding overlay single update list_eq or_else
overlay-update_at [] p a s q = ground arith
overlay-update_at (x ∷ pre) p a s [] = refl
overlay-update_at (x ∷ pre) p a s (y ∷ q) =
    ground (arith, overlay-update_at pre p a (λ q. s (y ∷ q)) q)

-- An entry of a measure, for each component.
pub entry-component :
    {A : Type 0} (own : ℕ → List ℕ → MClass → ℕ → Partial A) (n : ℕ) (m cm : Measure) (r : MrBase)
    (c : ℕ) (q : Point)
    → (vs : List ℕ)
    → m
      ≡ measure vs r.measure_class r.ref_type r.offset r.epoch r.position r.direction
          r.radial_velocity
    → component r c ≡ ok cm
    → entry own n m (c ∷ q) ≡ entry own (pred n) cm q
unfolding entry component
entry-component own n m cm r zero q vs e h = cc
entry-component own n m cm r (suc zero) q vs e h = rw e (ap (λ m. entry own (pred n) m q) (cc))
entry-component own n m cm r (suc (suc zero)) q vs e h =
    rw e (ap (λ m. entry own (pred n) m q) (cc))
entry-component own n m cm r (suc (suc (suc zero))) q vs e h =
    rw e (ap (λ m. entry own (pred n) m q) (cc))
entry-component own n m cm r (suc (suc (suc (suc zero)))) q vs e h =
    rw e (ap (λ m. entry own (pred n) m q) (cc))
entry-component own n m cm r (suc (suc (suc (suc (suc zero))))) q vs e h =
    rw e (ap (λ m. entry own (pred n) m q) (cc))
entry-component own n m cm r (suc (suc (suc (suc (suc (suc x)))))) q vs e h = cc

pub overlay-join :
    {A : Type 0} (pre : Point) (f g : Partial A) (s : Point → A)
    → overlay pre f (overlay pre g s) ≡ overlay pre (join f g) s
overlay-join pre f g s = fun_ext (overlay-join_at pre f g s)

pub overlay-under :
    {A : Type 0} (pre : Point) (c : ℕ) (f : Partial A) (s : Point → A)
    → overlay (pre ++ c ∷ []) f s ≡ overlay pre (under c f) s
overlay-under pre c f s = fun_ext (overlay-under_at pre c f s)

pub overlay-update :
    {A : Type 0} (pre p : Point) (a : A) (s : Point → A)
    → update (pre ++ p) a s ≡ overlay pre (single p a) s
overlay-update pre p a s = fun_ext (overlay-update_at pre p a s)

-- The entries of a component, below its coordinate.
unfoldable pub component_entries :
    {A : Type 0} → (ℕ → List ℕ → MClass → ℕ → Partial A) → ℕ → MrBase → ℕ → Partial A
unfolding component
component_entries own n r c = elim (component r c) [
  | ok cm ↦ entry own (pred n) cm
  | other ↦ λ q. none
]

pub component_entries_lem :
    {A : Type 0} (own : ℕ → List ℕ → MClass → ℕ → Partial A) (n : ℕ) (r : MrBase) (c : ℕ)
    (cm : Measure)
    → component r c ≡ ok cm
    → component_entries own n r c ≡ entry own (pred n) cm
unfolding component_entries
component_entries_lem own n r c cm h =
    ap (λ (o : Result Measure). elim o [ ok cm ↦ entry own (pred n) cm | other ↦ λ q. none ]) h

-- The entries of the components c, c + 1, … laid over others.
unfoldable pub joined_entries :
    {A : Type 0}
    → (ℕ → List ℕ → MClass → ℕ → Partial A)
    → ℕ
    → MrBase
    → ℕ
    → ℕ
    → Partial A
    → Partial A
unfolding component_entries under first_of
joined_entries own n r zero c f = f
joined_entries own n r (suc k) c f =
    joined_entries own n r k (suc c) (join (under c (component_entries own n r c)) f)

first_of-none : {A : Type 0} (a : Option A) → first_of a none ≡ a
unfolding first_of
first_of-none none = refl
first_of-none (some a) = refl

joined_at :
    {A : Type 0} (own : ℕ → List ℕ → MClass → ℕ → Partial A) (n : ℕ) (vs : List ℕ) (r : MrBase)
    (q : Point)
    → joined_entries own n r 5 1 (under 0 (own n vs r.measure_class r.ref_type)) q
      ≡ entry own n
          (measure vs r.measure_class r.ref_type r.offset r.epoch r.position r.direction
            r.radial_velocity)
          q
unfolding joined_entries entry
joined_at own n vs r [] = refl
joined_at own n vs r (zero ∷ q) = refl
joined_at own n vs r (suc zero ∷ q) = first_of-none _
joined_at own n vs r (suc (suc zero) ∷ q) = first_of-none _
joined_at own n vs r (suc (suc (suc zero)) ∷ q) = first_of-none _
joined_at own n vs r (suc (suc (suc (suc zero))) ∷ q) = first_of-none _
joined_at own n vs r (suc (suc (suc (suc (suc zero)))) ∷ q) = first_of-none _
joined_at own n vs r (suc (suc (suc (suc (suc (suc x))))) ∷ q) = ground arith

-- The own entries of a measure under 0, and those of its components over them, are its entries.
pub joined_entries_lem :
    {A : Type 0} (own : ℕ → List ℕ → MClass → ℕ → Partial A) (n : ℕ) (vs : List ℕ) (r : MrBase)
    → joined_entries own n r 5 1 (under 0 (own n vs r.measure_class r.ref_type))
      ≡ entry own n (
          measure vs r.measure_class r.ref_type r.offset r.epoch r.position r.direction
            r.radial_velocity)
joined_entries_lem own n vs r = fun_ext (joined_at own n vs r)

join-under_null_at :
    {A : Type 0} (own : ℕ → List ℕ → MClass → ℕ → Partial A) (n c : ℕ) (f : Partial A) (q : Point)
    → join (under c (entry own (pred n) null)) f q ≡ f q
unfolding under entry first_of
join-under_null_at own n c f [] = refl
join-under_null_at own n c f (x ∷ q) = ground arith

-- A component that is null has no entries.
pub join-under_null :
    {A : Type 0} (own : ℕ → List ℕ → MClass → ℕ → Partial A) (n : ℕ) (r : MrBase) (c : ℕ)
    (f : Partial A)
    → component r c ≡ ok null
    → join (under c (component_entries own n r c)) f ≡ f
join-under_null own n r c f h =
    rw (component_entries_lem own n r c null h) (fun_ext (join-under_null_at own n c f))
