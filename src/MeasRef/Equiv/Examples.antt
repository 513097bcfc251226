-- ===== src/MeasRef/Equiv/Examples.antt =====
-- The theorems on equivalent references, at a direction with an offset.
use legms.Prelude.{
  ℕ, zero, suc, ◌≤◌, ◌≡◌, ◌↔◌, refl, ap, ◌∙◌, ==_refl, Bool, true, false, List, [], ◌∷◌, ◌==◌,
  arith, ok, ◌>>=◌, All,
}
use legms.IndexTree.Iterator.Coverage.{list_eq}
use legms.MeasRef.Measure.{m_direction, m_none, null, measure, MrBase, is_class, same_class}
use legms.MeasRef.Regions.{Point, Regions, read_metadata}
use legms.MeasRef.Entries.{entry, bare, own_values, own_metadata, under, first_of}
use legms.MeasRef.Initialize.{initialize}
use legms.MeasRef.Initialize.States.{depth, InSpace}
use legms.MeasRef.Initialize.References.{reference_entries, IsWritable}
use legms.MeasRef.Instantiate.States.{is_some}
use legms.MeasRef.Extend.Prefixes.{any_eq}
use legms.MeasRef.Equiv.{equiv, same_metadata, same_value, equal_field, all_same, mclass}
use legms.MeasRef.Equiv.Decision.{equiv_iff}
use legms.MeasRef.Equiv.Initialized.{equiv-initialize}

abbrev offset_direction : MrBase
offset_direction = record {
  measure_class = m_direction;
  ref_type = 3;
  offset = measure (7 ∷ []) m_direction 2 null null null null null;
  epoch = null;
  position = null;
  direction = null;
  radial_velocity = null;
}

-- VALUE, and VALUE of the offset
abbrev points : List Point
points = (0 ∷ 0 ∷ 0 ∷ []) ∷ (0 ∷ 1 ∷ 0 ∷ []) ∷ []

abbrev points1 : List Point
points1 = (0 ∷ 1 ∷ 0 ∷ 0 ∷ []) ∷ []

abbrev filled_with : ℕ → Regions
filled_with v = record {
  metadata_space = λ q. any_eq q points;
  values_space = λ q. any_eq q points1;
  metadata = λ q. record { measure_class = m_none; ref_type = v; num_values = v };
  values = λ q. v;
}

metadata_exact :
    (q : Point)
    → any_eq q points ≡ is_some (reference_entries own_metadata 1 0 (offset_direction ∷ []) q)
unfolding any_eq is_some reference_entries entry own_metadata list_eq bare under first_of
metadata_exact [] = refl
metadata_exact (suc i ∷ q) = ground arith
metadata_exact (zero ∷ []) = refl
metadata_exact (zero ∷ zero ∷ []) = refl
metadata_exact (zero ∷ zero ∷ zero ∷ []) = refl
metadata_exact (zero ∷ zero ∷ zero ∷ x ∷ q) = refl
metadata_exact (zero ∷ zero ∷ suc x ∷ q) = ground arith
metadata_exact (zero ∷ suc zero ∷ []) = refl
metadata_exact (zero ∷ suc zero ∷ zero ∷ []) = refl
metadata_exact (zero ∷ suc zero ∷ zero ∷ x ∷ q) = refl
metadata_exact (zero ∷ suc zero ∷ suc zero ∷ q) = refl
metadata_exact (zero ∷ suc zero ∷ suc (suc zero) ∷ q) = refl
metadata_exact (zero ∷ suc zero ∷ suc (suc (suc zero)) ∷ q) = refl
metadata_exact (zero ∷ suc zero ∷ suc (suc (suc (suc zero))) ∷ q) = refl
metadata_exact (zero ∷ suc zero ∷ suc (suc (suc (suc (suc zero)))) ∷ q) = refl
metadata_exact (zero ∷ suc zero ∷ suc (suc (suc (suc (suc (suc x))))) ∷ q) = ground arith
metadata_exact (zero ∷ suc (suc zero) ∷ q) = refl
metadata_exact (zero ∷ suc (suc (suc zero)) ∷ q) = refl
metadata_exact (zero ∷ suc (suc (suc (suc zero))) ∷ q) = refl
metadata_exact (zero ∷ suc (suc (suc (suc (suc zero)))) ∷ q) = refl
metadata_exact (zero ∷ suc (suc (suc (suc (suc (suc x))))) ∷ q) = ground arith

values_exact :
    (q : Point)
    → any_eq q points1 ≡ is_some (reference_entries own_values 1 0 (offset_direction ∷ []) q)
unfolding any_eq is_some reference_entries entry own_values list_eq bare under first_of
values_exact [] = refl
values_exact (suc i ∷ q) = ground arith
values_exact (zero ∷ []) = refl
values_exact (zero ∷ zero ∷ []) = refl
values_exact (zero ∷ zero ∷ x ∷ q) = ground arith
values_exact (zero ∷ suc zero ∷ []) = refl
values_exact (zero ∷ suc zero ∷ zero ∷ []) = refl
values_exact (zero ∷ suc zero ∷ zero ∷ zero ∷ []) = refl
values_exact (zero ∷ suc zero ∷ zero ∷ suc x ∷ []) = ground arith
values_exact (zero ∷ suc zero ∷ zero ∷ zero ∷ y ∷ q) = refl
values_exact (zero ∷ suc zero ∷ zero ∷ suc x ∷ y ∷ q) = ground arith
values_exact (zero ∷ suc zero ∷ suc zero ∷ q) = refl
values_exact (zero ∷ suc zero ∷ suc (suc zero) ∷ q) = refl
values_exact (zero ∷ suc zero ∷ suc (suc (suc zero)) ∷ q) = refl
values_exact (zero ∷ suc zero ∷ suc (suc (suc (suc zero))) ∷ q) = refl
values_exact (zero ∷ suc zero ∷ suc (suc (suc (suc (suc zero)))) ∷ q) = refl
values_exact (zero ∷ suc zero ∷ suc (suc (suc (suc (suc (suc x))))) ∷ q) = ground arith
values_exact (zero ∷ suc (suc zero) ∷ q) = refl
values_exact (zero ∷ suc (suc (suc zero)) ∷ q) = refl
values_exact (zero ∷ suc (suc (suc (suc zero))) ∷ q) = refl
values_exact (zero ∷ suc (suc (suc (suc (suc zero)))) ∷ q) = refl
values_exact (zero ∷ suc (suc (suc (suc (suc (suc x))))) ∷ q) = ground arith

offset_direction-IsWritable : All (IsWritable 1 m_direction) (offset_direction ∷ [])
unfolding depth bare is_class
offset_direction-IsWritable = (
  record {
    of_class = refl;
    offset_classes = (refl, tt, tt, tt, tt, tt);
    epoch_classes = tt;
    position_classes = tt;
    direction_classes = tt;
    radial_velocity_classes = tt;
    levels = omega arith;
  },
  tt,
)

metadata_in :
    InSpace (λ q. any_eq q points) [] (reference_entries own_metadata 1 0 (offset_direction ∷ []))
unfolding is_some
metadata_in q a e = metadata_exact q ∙ ap is_some e

values_in :
    InSpace (λ q. any_eq q points1) [] (reference_entries own_values 1 0 (offset_direction ∷ []))
unfolding is_some
values_in q a e = values_exact q ∙ ap is_some e

equiv-initialize_example :
    (enough : ℕ) × ((f : ℕ)
      → enough ≤ f
      → (initialize f 3 (offset_direction ∷ []) m_direction (filled_with 0) >>= λ x.
          initialize f 3 (offset_direction ∷ []) m_direction (filled_with 5) >>= λ y.
          equiv (λ a b. a == b) points points1 x y)
        ≡ ok true)
equiv-initialize_example =
    equiv-initialize (λ a b. a == b) 1 (offset_direction ∷ []) m_direction points points1
      (filled_with 0) (filled_with 5) offset_direction-IsWritable metadata_exact values_exact
      (λ p. refl) (λ p. refl) metadata_in values_in (λ q a e. ==_refl a)

equiv_iff_example :
    (b : Bool) × (equiv (λ a b. a == b) points points1 (filled_with 0) (filled_with 5) ≡ ok b)
    × ((b ≡ true) ↔ (
        ((p : Point)
          → any_eq p points ≡ true
          → (filled_with 0).metadata p ≡ (filled_with 5).metadata p)
        × ((p : Point) → any_eq p points1 ≡ true → (0 == 5) ≡ true)))
equiv_iff_example =
    equiv_iff (λ a b. a == b) points points1 (filled_with 0) (filled_with 5) (λ p. refl) (λ p. refl)
      (λ p h. h) (λ p h. h)

-- The class of a reference is the one at VALUE.
offset_direction_class :
    (initialize 20 3 (offset_direction ∷ []) m_direction (filled_with 0) >>= λ rs. mclass 3 rs)
    ≡ ok m_direction
unfolding initialize mclass any_eq list_eq read_metadata
offset_direction_class = refl

different : equiv (λ a b. a == b) points points1 (filled_with 0) (filled_with 5) ≡ ok false
unfolding equiv all_same same_metadata equal_field same_value same_class any_eq list_eq
    read_metadata
different = refl
