-- ===== src/MeasRef/Equiv.antt =====
-- hyperion/MeasRef.cc: `equiv` on the contents of two references, and `mclass`. The points of an index
-- space are listed by Legion's PointInDomainIterator; the list is an argument.
pub mod Decision
pub mod Initialized
mod Examples
use legms.Prelude.{
  ℕ, Bool, true, false, List, [], ◌∷◌, ◌==◌, if◌then◌else◌, replicate, Result, ok, ◌>>=◌,
}
use legms.MeasRef.Measure.{MClass, same_class}
use legms.MeasRef.Regions.{Point, Metadata, Regions, read_metadata, read_value}

-- field_x[*pid] == field_y[*pid]
unfoldable pub equal_field :
    {A : Type 0} → (Metadata → A) → (A → A → Bool) → Regions → Regions → Point → Result Bool
equal_field field eq_field x y p =
    read_metadata field p x >>= λ a. read_metadata field p y >>= λ b. ok (eq_field a b)

-- mclass_x[*pid] == mclass_y[*pid] && rtype_x[*pid] == rtype_y[*pid] && nvals_x[*pid] == nvals_y[*pid]
unfoldable pub same_metadata : Regions → Regions → Point → Result Bool
same_metadata x y p = equal_field (λ md. md.measure_class) same_class x y p >>= λ result.
    if result then same_rest else ok false
  where
    same_rest : Result Bool
    same_rest = equal_field (λ md. md.ref_type) (λ s t. s == t) x y p >>= λ result.
        if result then equal_field (λ md. md.num_values) (λ m n. m == n) x y p else ok false

-- values_x[*pid] == values_y[*pid], by the equality of doubles
unfoldable pub same_value : (ℕ → ℕ → Bool) → Regions → Regions → Point → Result Bool
same_value eq_double x y p = read_value p x >>= λ v. read_value p y >>= λ w. ok (eq_double v w)

-- for (; result && pid(); pid++) result = test(*pid)
unfoldable pub all_same : (Point → Result Bool) → Bool → List Point → Result Bool
all_same test result [] = ok result
all_same test false (p ∷ ps) = ok false
all_same test true (p ∷ ps) = test p >>= λ result. all_same test result ps

-- equiv(rt, x, y) of references that have values, with the points of the metadata of x and of its values,
-- in a dimension for which the switch has a case: all those that the regions of `create` can have.
unfoldable pub equiv : (ℕ → ℕ → Bool) → List Point → List Point → Regions → Regions → Result Bool
equiv eq_double points points1 x y = all_same (same_metadata x y) true points >>= λ result.
    all_same (same_value eq_double x y) result points1

-- mclass(pr), for regions of `dim` dimensions
unfoldable pub mclass : ℕ → Regions → Result MClass
mclass dim rs = read_metadata (λ md. md.measure_class) (replicate dim 0) rs
