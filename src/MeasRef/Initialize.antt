-- ===== src/MeasRef/Initialize.antt =====
-- hyperion/MeasRef.cc: `initialize`, which writes the metadata and the values of the measures on which
-- references depend, with a stack of the measures that are being written.
pub mod Visit
pub mod States
pub mod Components
pub mod Scan
pub mod Written
pub mod References
use legms.Prelude.{
  ℕ, zero, suc, ◌-◌, Bool, true, false, List, [], ◌∷◌, ◌==◌, ltb, if◌then◌else◌, length, replicate,
  Result, ok, throws, out_of_fuel, ◌>>=◌,
}
use legms.Prelude.Loops.{while, nonempty}
use legms.MeasRef.Measure.{
  MClass, Measure, null, measure, MrBase, is_class, component, num_components,
}
use legms.MeasRef.Regions.{Point, put, clear, Regions, write_metadata, write_value}

-- msr_t
pub data Msr : Type 0 where
  is_measure : Measure → Msr
  mc_mrbase : MClass → MrBase → Msr

-- The variables of the loop over the stack `ms`, whose top stands first.
pub record State : Type 0 where
  pub ms : List (Msr × ℕ)
  pub p : Point
  pub p1 : Point
  pub regions : Regions

-- for (j = 0; j < mvals.size(); ++j) { p1[level + 1] = j; vals.write(p1, mvals[j]); }, from j on
unfoldable pub write_values : ℕ → ℕ → List ℕ → Point → Regions → Result (Point × Regions)
unfolding put write_value
write_values level j [] p1 rs = ok (p1, rs)
write_values level j (v ∷ mvals) p1 rs = write_value (put (suc level) j p1) v rs >>= λ rs'.
    write_values level (suc j) mvals (put (suc level) j p1) rs'

-- The branch for VALUE, up to `c = OFFSET`: what `m` becomes, p1 and the regions.
unfoldable pub visit :
    ℕ → Msr → Point → Point → Regions → Result (MClass × MrBase × Point × Regions)
unfolding write_values write_metadata is_class
visit level (is_measure null) p p1 rs = throws
visit level (is_measure (measure mvals k t o e l d v)) p p1 rs =
    write_values level 0 mvals p1 rs >>= λ (p1', rs1).
    write_metadata (λ md. record md { num_values = length mvals }) p rs1 >>= λ rs2.
    if is_class k
    then (write_metadata (λ md. record md { measure_class = k }) p rs2 >>= λ rs3.
        write_metadata (λ md. record md { ref_type = t }) p rs3 >>= λ rs4.
        let ref_base : MrBase = record {
          measure_class = k;
          ref_type = t;
          offset = o;
          epoch = e;
          position = l;
          direction = d;
          radial_velocity = v;
        } in
        ok (k, ref_base, p1', rs4))
    else throws
visit level (mc_mrbase k r) p p1 rs =
    write_metadata (λ md. record md { measure_class = k }) p rs >>= λ rs1.
    write_metadata (λ md. record md { num_values = 0 }) p rs1 >>= λ rs2.
    write_metadata (λ md. record md { ref_type = r.ref_type }) p rs2 >>= λ rs3. ok (k, r, p1, rs3)

-- The inner loop and the pop after it, `n` being NUM_COMPONENTS - c.
unfoldable pub scan :
    ℕ → ℕ → ℕ → MClass → MrBase → List (Msr × ℕ) → Point → Point → Regions → Result State
unfolding component put
scan zero level c k r rest p p1 rs = ok (record { ms = rest; p = p; p1 = p1; regions = rs })
scan (suc n) level c k r rest p p1 rs = component r c >>= λ cm. elim cm [
  | null ↦ scan n level (suc c) k r rest (put level c p) (put level c p1) rs
  | measure mvals j t o e l d v ↦ ok (record {
    ms = (is_measure (measure mvals j t o e l d v), 0) ∷ (mc_mrbase k r, suc c) ∷ rest;
    p = put level c p;
    p1 = put level c p1;
    regions = rs;
  })
]

-- One round at the top (m, c) of the stack, after p and p1 are cleared above the level.
unfoldable pub round : ℕ → Msr → ℕ → List (Msr × ℕ) → Point → Point → Regions → Result State
unfolding visit scan put
round level m zero rest p p1 rs =
    visit level m (put level 0 p) (put level 0 p1) rs >>= λ (k, r, p1', rs').
    scan (num_components - 1) level 1 k r rest (put level 0 p) p1' rs'
round level (is_measure m) (suc c) rest p p1 rs = throws
round level (mc_mrbase k r) (suc c) rest p p1 rs =
    scan (num_components - suc c) level (suc c) k r rest p p1 rs

-- while (!ms.empty()) { … }, with fuel. Points have D and D + 1 coordinates, and p[level] is out of
-- bounds if level is not below D.
unfoldable pub step : ℕ → List (Msr × ℕ) → Point → Point → Regions → Result State
unfolding round clear
step dim [] p p1 rs = throws
step dim ((m, c) ∷ rest) p p1 rs =
    let level = suc (length rest) in
    if ltb level dim
    then round level m c rest (clear (suc level) p) (clear (suc level) p1) rs
    else throws

unfoldable pub body : ℕ → State → Result State
unfolding step
body dim s = step dim s.ms s.p s.p1 s.regions

abbrev pub going : State → Bool
going s = nonempty s.ms

unfoldable pub run : ℕ → ℕ → State → Result State
unfolding body while
run f dim s = while going (body dim) f s

-- The coordinates of a new point are unspecified; the loop sets each one before it is used.
unfoldable pub start : ℕ → ℕ → MClass → MrBase → Regions → State
unfolding put
start dim i klass mrb rs = record {
  ms = (mc_mrbase klass mrb, 0) ∷ [];
  p = put 0 i (replicate dim 0);
  p1 = put 0 i (replicate (suc dim) 0);
  regions = rs;
}

-- for (i = …; i < mrbs.size(); ++i), with fuel for each reference
unfoldable pub initialize_from : ℕ → ℕ → ℕ → List MrBase → MClass → Regions → Result Regions
unfolding start run
initialize_from f dim i [] klass rs = ok rs
initialize_from f dim i (mrb ∷ mrbs) klass rs =
    run f dim (start dim i klass mrb rs) >>= λ s. initialize_from f dim (suc i) mrbs klass s.regions

-- initialize<D>(prs, mrbs, klass); initialize<1> is assert(false).
unfoldable pub initialize : ℕ → ℕ → List MrBase → MClass → Regions → Result Regions
unfolding initialize_from
initialize f dim mrbs klass rs = if dim == 1 then throws else initialize_from f dim 0 mrbs klass rs
