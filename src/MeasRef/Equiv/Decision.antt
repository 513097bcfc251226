-- ===== src/MeasRef/Equiv/Decision.antt =====
-- What `equiv` decides.
use legms.Prelude.{
  ℕ, none, some, get_elem?, ◌≡◌, ◌↔◌, refl, sym, ap, ap₂, ◌∙◌, subst, Bool, true, false, List, [],
  ◌∷◌, ◌==◌, ◌&&◌, if◌then◌else◌, Result, ok, All, arith, Bool-cases, inl, inr,
}
use legms.IndexTree.Iterator.Coverage.{list_eq}
use legms.MeasRef.Measure.{
  MClass, m_baseline, m_direction, m_doppler, m_earth_magnetic, m_epoch, m_frequency, m_position,
  m_radial_velocity, m_uvw, m_none, class_code, same_class,
}
use legms.MeasRef.Points.{list_eq_refl}
use legms.MeasRef.Regions.{Point, Metadata, Regions, read_metadata, read_value}
use legms.MeasRef.Extend.Prefixes.{any_eq, list_eq_sound, or_cases, or_left, or_right}
use legms.MeasRef.Equiv.{equal_field, same_metadata, same_value, all_same, equiv}

abbrev classes : List MClass
classes =
    m_baseline ∷ m_direction ∷ m_doppler ∷ m_earth_magnetic ∷ m_epoch ∷ m_frequency ∷ m_position
    ∷ m_radial_velocity ∷ m_uvw ∷ []

class_of : ℕ → MClass
class_of n = elim (get_elem? classes n) [ none ↦ m_none | some k ↦ k ]

class_of-class_code : (k : MClass) → class_of (class_code k) ≡ k
unfolding class_of class_code
class_of-class_code m_baseline = refl
class_of-class_code m_direction = refl
class_of-class_code m_doppler = refl
class_of-class_code m_earth_magnetic = refl
class_of-class_code m_epoch = refl
class_of-class_code m_frequency = refl
class_of-class_code m_position = refl
class_of-class_code m_radial_velocity = refl
class_of-class_code m_uvw = refl
class_of-class_code m_none = refl

same_class_iff : (j k : MClass) → (same_class j k ≡ true) ↔ (j ≡ k)
unfolding same_class
same_class_iff j k = (
  λ h.
      let codes : class_code j ≡ class_code k = ground arith in
      sym (class_of-class_code j) ∙ ap class_of codes ∙ class_of-class_code k,
  λ e. subst (λ i. same_class j i ≡ true) e (ground arith),
)

-- The three fields are equal.
equal_metadata : Metadata → Metadata → Bool
equal_metadata a b =
    same_class a.measure_class b.measure_class
    && (a.ref_type == b.ref_type && a.num_values == b.num_values)

equal_metadata_refl : (a : Metadata) → equal_metadata a a ≡ true
unfolding equal_metadata same_class
equal_metadata_refl a = ground arith

equal_metadata_iff : (a b : Metadata) → (equal_metadata a b ≡ true) ↔ (a ≡ b)
unfolding equal_metadata
equal_metadata_iff a b = (
  λ h.
      let classes_eq : a.measure_class ≡ b.measure_class =
        (same_class_iff a.measure_class b.measure_class).0 (ground arith) in
      let types_eq : a.ref_type ≡ b.ref_type = ground arith in
      let counts_eq : a.num_values ≡ b.num_values = ground arith in
      ap₂
        (λ (k : MClass) (tn : ℕ × ℕ). record {
          measure_class = k;
          ref_type = tn.0;
          num_values = tn.1;
        })
        classes_eq (ap₂ (λ t n. (t, n)) types_eq counts_eq),
  λ e. subst (λ c. equal_metadata a c ≡ true) e (equal_metadata_refl a),
)

equal_field_lem :
    {A : Type 0} (field : Metadata → A) (eq_field : A → A → Bool) (x y : Regions) (p : Point)
    → x.metadata_space p ≡ true
    → y.metadata_space p ≡ true
    → equal_field field eq_field x y p ≡ ok (eq_field (field (x.metadata p)) (field (y.metadata p)))
unfolding equal_field read_metadata
equal_field_lem field eq_field x y p hx hy = rw (hx, hy) refl

if_false-and : (a b : Bool) → (if a then ok b else ok false) ≡ ok (a && b)
if_false-and true b = refl
if_false-and false b = refl

same_metadata_lem :
    (x y : Regions) (p : Point)
    → x.metadata_space p ≡ true
    → y.metadata_space p ≡ true
    → same_metadata x y p ≡ ok (equal_metadata (x.metadata p) (y.metadata p))
unfolding same_metadata equal_metadata
same_metadata_lem x y p hx hy =
    rw
      (
        equal_field_lem (λ md. md.measure_class) same_class x y p hx hy,
        equal_field_lem (λ md. md.ref_type) (λ s t. s == t) x y p hx hy,
        equal_field_lem (λ md. md.num_values) (λ m n. m == n) x y p hx hy,
        if_false-and ((x.metadata p).ref_type == (y.metadata p).ref_type)
            ((x.metadata p).num_values == (y.metadata p).num_values),
      )
      (if_false-and (same_class (x.metadata p).measure_class (y.metadata p).measure_class) _)

same_value_lem :
    (eq_double : ℕ → ℕ → Bool) (x y : Regions) (p : Point)
    → x.values_space p ≡ true
    → y.values_space p ≡ true
    → same_value eq_double x y p ≡ ok (eq_double (x.values p) (y.values p))
unfolding same_value read_value
same_value_lem eq_double x y p hx hy = rw (hx, hy) refl

all_same-false : (test : Point → Result Bool) (ps : List Point) → all_same test false ps ≡ ok false
unfolding all_same
all_same-false test [] = refl
all_same-false test (p ∷ ps) = refl

-- The loop on points at which the test returns decides whether all of them pass.
all_same_lem :
    (test : Point → Result Bool) (passes : Point → Bool) (ps : List Point)
    → All (λ p. test p ≡ ok (passes p)) ps
    → (b : Bool) × (all_same test true ps ≡ ok b) × ((b ≡ true) ↔ All (λ p. passes p ≡ true) ps)
unfolding all_same
all_same_lem test passes [] hs = (true, refl, (λ h. tt, λ h. refl))
all_same_lem test passes (p ∷ ps) hs = elim (Bool-cases (passes p)) [
  | inl e ↦
      let (b, runs, iff) = all_same_lem test passes ps hs.1 in
      (b, rw (hs.0, e) runs, (λ h. (e, iff.0 h), λ all. iff.1 all.1))
  | inr e ↦ (
    false,
    rw (hs.0, e) (all_same-false test ps),
    (λ h. absurd cc, λ all. absurd (ground (arith, all.0))),
  )
]

-- A list has exactly the points of a space.
abbrev pub Lists : List Point → (Point → Bool) → Type 0
Lists ps space = (p : Point) → any_eq p ps ≡ space p

All-any_eq :
    (P : Point → Type 0) (p : Point) (ps : List Point) → All P ps → any_eq p ps ≡ true → P p
unfolding any_eq
All-any_eq P p [] all h = absurd cc
All-any_eq P p (q ∷ ps) all h = elim (or_cases (list_eq q p) (any_eq p ps) h) [
  | inl e ↦ subst P (list_eq_sound q p e) all.0
  | inr e ↦ All-any_eq P p ps all.1 e
]

any_eq-All :
    (P : Point → Type 0) (ps : List Point) → ((p : Point) → any_eq p ps ≡ true → P p) → All P ps
unfolding any_eq
any_eq-All P [] all = tt
any_eq-All P (q ∷ ps) all = (
  all q (or_left _ _ (list_eq_refl q)),
  any_eq-All P ps (λ p h. all p (or_right (list_eq q p) _ h)),
)

-- The second loop runs with the result of the first one.
all_same_and :
    (test : Point → Result Bool) (b c : Bool) (ps : List Point)
    → all_same test true ps ≡ ok c
    → all_same test b ps ≡ ok (b && c)
all_same_and test true c ps h = h
all_same_and test false c ps h = all_same-false test ps

and_iff : (b c : Bool) → ((b && c) ≡ true) ↔ ((b ≡ true) × (c ≡ true))
and_iff b c = ground arith

-- If the points of x are listed and y has them, then `equiv` returns, and it returns true exactly when
-- x and y have the same metadata at each point of the metadata of x, and values that compare equal at
-- each point of the values of x.
pub equiv_iff :
    (eq_double : ℕ → ℕ → Bool) (points points1 : List Point) (x y : Regions)
    → Lists points x.metadata_space
    → Lists points1 x.values_space
    → ((p : Point) → x.metadata_space p ≡ true → y.metadata_space p ≡ true)
    → ((p : Point) → x.values_space p ≡ true → y.values_space p ≡ true)
    → (b : Bool) × (equiv eq_double points points1 x y ≡ ok b)
      × ((b ≡ true) ↔ (
          ((p : Point) → x.metadata_space p ≡ true → x.metadata p ≡ y.metadata p)
          × ((p : Point) → x.values_space p ≡ true → eq_double (x.values p) (y.values p) ≡ true)))
unfolding equiv
equiv_iff eq_double points points1 x y lists lists1 within within1 =
    let inside : (p : Point) → any_eq p points ≡ true → x.metadata_space p ≡ true =
      λ p h. sym (lists p) ∙ h in
    let inside1 : (p : Point) → any_eq p points1 ≡ true → x.values_space p ≡ true =
      λ p h. sym (lists1 p) ∙ h in
    let (b, runs, iff) =
      all_same_lem (same_metadata x y) (λ p. equal_metadata (x.metadata p) (y.metadata p)) points
        (any_eq-All _ points
          (λ p h. same_metadata_lem x y p (inside p h) (within p (inside p h)))) in
    let (b1, runs1, iff1) =
      all_same_lem (same_value eq_double x y) (λ p. eq_double (x.values p) (y.values p)) points1
        (any_eq-All _ points1
          (λ p h. same_value_lem eq_double x y p (inside1 p h) (within1 p (inside1 p h)))) in
    (
      b && b1,
      rw runs (all_same_and (same_value eq_double x y) b b1 points1 runs1),
      (
        λ h.
            let (first, second) = (and_iff b b1).0 h in
            (
              λ p at.
                  (equal_metadata_iff (x.metadata p) (y.metadata p)).0
                    (All-any_eq _ p points (iff.0 first) (lists p ∙ at)),
              λ p at. All-any_eq _ p points1 (iff1.0 second) (lists1 p ∙ at),
            ),
        λ (same, same1). (and_iff b b1).1 (
          iff.1 (
              any_eq-All _ points (λ p h.
                (equal_metadata_iff (x.metadata p) (y.metadata p)).1 (same p (inside p h)))),
          iff1.1 (any_eq-All _ points1 (λ p h. same1 p (inside1 p h))),
        ),
      ),
    )
