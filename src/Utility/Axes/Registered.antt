-- ===== src/Utility/Axes/Registered.antt =====
-- The registrar as a map.
use legms.Prelude.{
  ℕ, ◌<◌, ◌≡◌, ◌↔◌, ◌≢◌, refl, sym, ap, subst, ◌∙◌, Bool, true, false, ◌&&◌, List, [], ◌∷◌, some,
  ltb, if◌then◌else◌, length, All, arith, Bool-cases, inl, inr, if_true,
}
use legms.Prelude.Int.{ℤ, pos, negsuc}
use legms.Utility.Strings.{str_eq}
use legms.Utility.Strings.Suffixes.{str_eq_sound, str_eq_refl}
use legms.Utility.Axes.{A, AxesMap, assign, register_axes, axes, is_below, all_below, in_range}

true_is_not_false : true ≢ false
true_is_not_false = cc

other_key :
    (key uid other : List ℕ)
    → str_eq key uid ≡ false
    → str_eq key other ≡ true
    → str_eq uid other ≡ false
other_key key uid other e f = elim (Bool-cases (str_eq uid other)) [
  | inl g ↦
      let key_uid : key ≡ uid = str_eq_sound key other f ∙ sym (str_eq_sound uid other g) in
      absurd (true_is_not_false (sym (str_eq_refl key) ∙ ap (str_eq key) key_uid ∙ e))
  | inr g ↦ g
]

axes-assign :
    (uid other : List ℕ) (a : A) (axes_ : AxesMap)
    → axes other (assign uid a axes_) ≡ (if str_eq uid other then some a else axes other axes_)
unfolding axes assign
axes-assign uid other a [] = refl
axes-assign uid other a ((key, b) ∷ axes_) = elim (Bool-cases (str_eq key uid)) [
  | inl e ↦ (let same = str_eq_sound key uid e in ground (arith, ap (λ k. str_eq k other) same))
  | inr e ↦ elim (Bool-cases (str_eq key other)) [
    | inl f ↦ ground (arith, other_key key uid other e f)
    | inr f ↦ ground (arith, axes-assign uid other a axes_)
  ]
]

-- After register_axes, axes gives the registered names for that uid, and what it gave before for any
-- other uid.
pub axes-register_axes :
    (uid other : List ℕ) (names : List (List ℕ)) (hid : ℕ) (axes_ : AxesMap)
    → axes other (register_axes uid names hid axes_) ≡ (
        if str_eq uid other
        then some (record { uid = uid; names = names; h5_datatype = hid })
        else axes other axes_)
unfolding register_axes
axes-register_axes uid other names hid axes_ =
    axes-assign uid other (record { uid = uid; names = names; h5_datatype = hid }) axes_

-- An int that is the place of one of m names.
abbrev pub IsPlace : ℕ → ℤ → Type 0
IsPlace m x = (k : ℕ) × (x ≡ pos k) × (k < m)

pos-injective : (x k : ℕ) → pos x ≡ pos k → x ≡ k
pos-injective x k e = cc

place_below : (m x k : ℕ) → pos x ≡ pos k → k < m → ltb x m ≡ true
place_below m x k e h = ground (arith, pos-injective x k e)

both_true : (a b : Bool) → (a && b) ≡ true → (a ≡ true) × (b ≡ true)
both_true true true h = (refl, refl)
both_true true false h = cc
both_true false b h = cc

is_below_iff : (m : ℕ) (x : ℤ) → (is_below m x ≡ true) ↔ IsPlace m x
unfolding is_below
is_below_iff m (pos x) =
    (λ h. (x, refl, ground arith), λ place. place_below m x place.0 place.1 place.2)
is_below_iff m (negsuc x) = (λ h. cc, λ place. cc)

all_below_iff : (m : ℕ) (xs : List ℤ) → (all_below m xs ≡ true) ↔ All (IsPlace m) xs
unfolding all_below
all_below_iff m [] = (λ h. tt, λ h. refl)
all_below_iff m (x ∷ xs) = (
  λ h.
      let both = both_true (is_below m x) (all_below m xs) h in
      ((is_below_iff m x).0 both.0, (all_below_iff m xs).0 both.1),
  λ h. rw ((is_below_iff m x).1 h.0) ((all_below_iff m xs).1 h.1),
)

in_range_found :
    (uid : List ℕ) (xs : List ℤ) (axes_ : AxesMap) (a : A)
    → axes uid axes_ ≡ some a
    → in_range uid xs axes_ ≡ all_below (length a.names) xs
unfolding in_range
in_range_found uid xs axes_ a e = rw (in_range, e) refl

-- For a registered uid, in_range tells whether every int is the place of one of its names.
pub in_range-register_axes :
    (uid : List ℕ) (names : List (List ℕ)) (hid : ℕ) (axes_ : AxesMap) (xs : List ℤ)
    → (in_range uid xs (register_axes uid names hid axes_) ≡ true) ↔ All (IsPlace (length names)) xs
in_range-register_axes uid names hid axes_ xs =
    subst (λ b. (b ≡ true) ↔ All (IsPlace (length names)) xs)
      (sym (
        in_range_found uid xs (register_axes uid names hid axes_) _ (
          axes-register_axes uid uid names hid axes_
          ∙ if_true (str_eq uid uid) _ _ (str_eq_refl uid))))
      (all_below_iff (length names) xs)
