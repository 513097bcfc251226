-- ===== src/MeasRef/Instantiate.antt =====
-- hyperion/MeasRef.cc: `instantiate`, which builds the references of which the regions hold the
-- metadata and the values, with a stack of the measures that are being built.
pub mod States
pub mod Filled
pub mod Attach
pub mod Fresh
pub mod Restored
use legms.Prelude.{
  ℕ, zero, suc, ◌-◌, Bool, true, false, List, [], ◌∷◌, ◌==◌, ltb, if◌then◌else◌, Option, none, some,
  length, replicate, Result, ok, throws, out_of_fuel, ◌>>=◌,
}
use legms.Prelude.Loops.{while, nonempty}
use legms.MeasRef.Measure.{
  MClass, Measure, null, measure, MrBase, is_class, same_class, num_components,
}
use legms.MeasRef.Regions.{Point, put, clear, Regions, Metadata, read_metadata, read_value}

-- msrp_t: the measure, or null, or the reference that was built last.
pub data Msrp : Type 0 where
  holds_measure : Measure → Msrp
  holds_mrbase : MrBase → Msrp

-- The tuples (v, r, k, c) on the stack: as PUSH_NEW makes them, with c = VALUE, or with the value (if
-- any), the reference, its class and the component that come after the visit.
pub data Item : Type 0 where
  fresh : Item
  filled : Option (List ℕ) → MrBase → MClass → ℕ → Item

pub record State : Type 0 where
  pub ms : List Item
  pub vmrb : Msrp
  pub p : Point
  pub p1 : Point

-- mvals[i] = vals.read(p1) at p1[level + 1] = i, for n values from i on
unfoldable pub read_values : ℕ → ℕ → ℕ → Point → Regions → Result (List ℕ × Point)
unfolding put read_value
read_values level i zero p1 rs = ok ([], p1)
read_values level i (suc n) p1 rs = read_value (put (suc level) i p1) rs >>= λ v.
    read_values level (suc i) n (put (suc level) i p1) rs >>= λ (mvals, p1'). ok (v ∷ mvals, p1')

-- std::make_unique<MClassT<M>::type::Ref>(t)
unfoldable pub make_ref : MClass → ℕ → MrBase
make_ref k t = record {
  measure_class = k;
  ref_type = t;
  offset = null;
  epoch = null;
  position = null;
  direction = null;
  radial_velocity = null;
}

-- The class of a measure, for the dynamic_cast in SET_OFFSET, which gives null on another class.
unfoldable pub of_class : MClass → Measure → Bool
unfolding same_class
of_class k null = false
of_class k (measure vs j t o e l d v) = same_class j k

-- The switch on the component: `cm`, unless it is null, becomes the component of the reference.
unfoldable pub set_component : ℕ → Measure → MClass → MrBase → Result MrBase
unfolding is_class of_class
set_component zero cm k r = throws
set_component (suc zero) null k r = ok r
set_component (suc zero) (measure vs j t o e l d v) k r =
    if is_class k
    then if of_class k (measure vs j t o e l d v)
      then ok (record r { offset = measure vs j t o e l d v })
      else throws
    else throws
set_component (suc (suc zero)) null k r = ok r
set_component (suc (suc zero)) (measure vs j t o e l d v) k r =
    ok (record r { epoch = measure vs j t o e l d v })
set_component (suc (suc (suc zero))) null k r = ok r
set_component (suc (suc (suc zero))) (measure vs j t o e l d v) k r =
    ok (record r { position = measure vs j t o e l d v })
set_component (suc (suc (suc (suc zero)))) null k r = ok r
set_component (suc (suc (suc (suc zero)))) (measure vs j t o e l d v) k r =
    ok (record r { direction = measure vs j t o e l d v })
set_component (suc (suc (suc (suc (suc zero))))) null k r = ok r
set_component (suc (suc (suc (suc (suc zero))))) (measure vs j t o e l d v) k r =
    ok (record r { radial_velocity = measure vs j t o e l d v })
set_component (suc (suc (suc (suc (suc (suc c)))))) cm k r = throws

-- MClassT<M>::type(*v, *r)
unfoldable pub make_measure : List ℕ → MrBase → Measure
make_measure vs r =
    measure vs r.measure_class r.ref_type r.offset r.epoch r.position r.direction r.radial_velocity

-- if (metadata_domain.contains(p)) PUSH_NEW(ms), after p[level] = p1[level] = c; a pushed tuple ends
-- the inner loop, which else goes on with `next`.
unfoldable pub offer :
    ℕ
    → Option (List ℕ)
    → MrBase
    → MClass
    → List Item
    → Msrp
    → Point
    → Point
    → Regions
    → Result State
    → Result State
offer c v r k rest vmrb p p1 rs next =
    if rs.metadata_space p
    then ok (record { ms = fresh ∷ filled v r k c ∷ rest; vmrb = vmrb; p = p; p1 = p1 })
    else next

-- The inner loop and the end of the round, `n` being NUM_COMPONENTS - c. The measure in `vmrb` is
-- moved out of it.
unfoldable pub attach :
    ℕ
    → ℕ
    → ℕ
    → Option (List ℕ)
    → MrBase
    → MClass
    → List Item
    → Msrp
    → Point
    → Point
    → Regions
    → Result State
unfolding is_class set_component offer put make_measure
attach zero level c v r k rest vmrb p p1 rs =
    if is_class k
    then ok (record {
      ms = rest;
      vmrb = elim v [ some vs ↦ holds_measure (make_measure vs r) | none ↦ holds_mrbase r ];
      p = p;
      p1 = p1;
    })
    else throws
attach (suc n) level c v r k rest (holds_mrbase held) p p1 rs = throws
attach (suc n) level c v r k rest (holds_measure cm) p p1 rs = set_component c cm k r >>= λ r'.
    offer (suc c) v r' k rest (holds_measure null) (put level (suc c) p) (put level (suc c) p1) rs (
      attach n level (suc c) v r' k rest (holds_measure null) (put level (suc c) p)
        (put level (suc c) p1) rs)

-- The branch for VALUE: the value and the reference that the regions hold. `make_value` builds an
-- MVType of a class from a vector, and gives the vector of what it has built.
unfoldable pub read_measure :
    (MClass → List ℕ → List ℕ)
    → ℕ
    → Point
    → Point
    → Regions
    → Result (Option (List ℕ) × MrBase × MClass × Point)
unfolding read_metadata read_values is_class make_ref
read_measure make_value level p p1 rs = read_metadata (λ md. md.measure_class) p rs >>= λ k.
    read_metadata (λ md. md.num_values) p rs >>= λ n.
    read_values level 0 n p1 rs >>= λ (mvals, p1').
    if is_class k
    then (read_metadata (λ md. md.ref_type) p rs >>= λ t.
        ok ((if ltb 0 n then some (make_value k mvals) else none), make_ref k t, k, p1'))
    else throws

unfoldable pub round :
    (MClass → List ℕ → List ℕ)
    → ℕ
    → Item
    → List Item
    → Msrp
    → Point
    → Point
    → Regions
    → Result State
unfolding read_measure offer attach put
round make_value level fresh rest vmrb p p1 rs =
    read_measure make_value level (put level 0 p) (put level 0 p1) rs >>= λ (v, r, k, p1').
    offer 1 v r k rest vmrb (put level 1 (put level 0 p)) (put level 1 p1') rs (
      attach (num_components - 1) level 1 v r k rest vmrb (put level 1 (put level 0 p))
        (put level 1 p1') rs)
round make_value level (filled v r k c) rest vmrb p p1 rs =
    attach (num_components - c) level c v r k rest vmrb p p1 rs

-- while (!ms.empty()) { … }, with fuel; p[level] is out of bounds if level is not below D.
unfoldable pub step :
    (MClass → List ℕ → List ℕ) → ℕ → List Item → Msrp → Point → Point → Regions → Result State
unfolding round clear
step make_value dim [] vmrb p p1 rs = throws
step make_value dim (item ∷ rest) vmrb p p1 rs =
    let level = suc (length rest) in
    if ltb level dim
    then round make_value level item rest vmrb (clear (suc level) p) (clear (suc level) p1) rs
    else throws

unfoldable pub body : (MClass → List ℕ → List ℕ) → ℕ → Regions → State → Result State
unfolding step
body make_value dim rs s = step make_value dim s.ms s.vmrb s.p s.p1 rs

abbrev pub going : State → Bool
going s = nonempty s.ms

unfoldable pub run : (MClass → List ℕ → List ℕ) → ℕ → ℕ → Regions → State → Result State
unfolding body while
run make_value f dim rs s = while going (body make_value dim rs) f s

unfoldable pub start : ℕ → ℕ → State
unfolding put
start dim i = record {
  ms = fresh ∷ [];
  vmrb = holds_measure null;
  p = put 0 i (replicate dim 0);
  p1 = put 0 i (replicate (suc dim) 0);
}

-- result[i] = …, for n references from i on
unfoldable pub instantiate_from :
    (MClass → List ℕ → List ℕ) → ℕ → ℕ → ℕ → ℕ → Regions → Result (List MrBase)
unfolding start run
instantiate_from make_value f dim i zero rs = ok []
instantiate_from make_value f dim i (suc n) rs = run make_value f dim rs (start dim i) >>= λ s.
    elim s.vmrb [
      | holds_measure m ↦ throws
      | holds_mrbase r ↦
          instantiate_from make_value f dim (suc i) n rs >>= λ result. ok (r ∷ result)
    ]

-- instantiate<D>(prs, metadata_domain), where `hi` is metadata_domain.hi()[0]; instantiate<1> is
-- assert(false).
unfoldable pub instantiate : (MClass → List ℕ → List ℕ) → ℕ → ℕ → Regions → ℕ → Result (List MrBase)
unfolding instantiate_from
instantiate make_value f dim rs hi =
    if dim == 1 then throws else instantiate_from make_value f dim 0 (suc hi) rs
