-- ===== src/MeasRef/Measure.antt =====
-- hyperion/Measures.h: `MClass`; hyperion/MeasRef.h: `ArrayComponent`; and what hyperion/MeasRef.cc
-- reads of the measures and references of casacore.
use legms.Prelude.{ℕ, zero, suc, Bool, true, false, List, ◌==◌, Result, ok, throws}

-- `m_none` is M_NONE and M_NUM_CLASSES.
pub data MClass : Type 0 where
  m_baseline m_direction m_doppler m_earth_magnetic m_epoch m_frequency m_position : MClass
  m_radial_velocity m_uvw m_none : MClass

-- The classes of HYPERION_FOREACH_MCLASS.
unfoldable pub is_class : MClass → Bool
is_class m_none = false
is_class k = true

-- Equality of classes, by the values of the enumeration.
unfoldable pub class_code : MClass → ℕ
class_code m_baseline = 0
class_code m_direction = 1
class_code m_doppler = 2
class_code m_earth_magnetic = 3
class_code m_epoch = 4
class_code m_frequency = 5
class_code m_position = 6
class_code m_radial_velocity = 7
class_code m_uvw = 8
class_code m_none = 9

unfoldable pub same_class : MClass → MClass → Bool
unfolding class_code
same_class j k = class_code j == class_code k

-- What the accessors of a measure return, for `const casacore::Measure*`: getData()->getVector(), the
-- class that tellMe() names, getRefPtr()->getType(), getRefPtr()->offset(), and of
-- getRefPtr()->getFrame() epoch(), position(), direction() and radialVelocity().
pub data Measure : Type 0 where
  null : Measure
  measure : List ℕ → MClass → ℕ → Measure → Measure → Measure → Measure → Measure → Measure

-- casacore::MRBase: the class of its dynamic type (MClassT<M>::type::Ref), and what its accessors
-- return. The values of a measure (VALUE_TYPE) are the bits of doubles.
pub record MrBase : Type 0 where
  pub measure_class : MClass
  pub ref_type : ℕ
  pub offset : Measure
  pub epoch : Measure
  pub position : Measure
  pub direction : Measure
  pub radial_velocity : Measure

-- NUM_COMPONENTS; the components are 0 (VALUE), 1 (OFFSET), 2 (EPOCH), 3 (POSITION), 4 (DIRECTION)
-- and 5 (RADIAL_VELOCITY).
abbrev pub num_components : ℕ
num_components = 6

-- The switch that gives the measure of a component; VALUE and the default are assert(false).
unfoldable pub component : MrBase → ℕ → Result Measure
component r (suc zero) = ok r.offset
component r (suc (suc zero)) = ok r.epoch
component r (suc (suc (suc zero))) = ok r.position
component r (suc (suc (suc (suc zero)))) = ok r.direction
component r (suc (suc (suc (suc (suc zero))))) = ok r.radial_velocity
component r c = throws
