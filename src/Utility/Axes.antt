-- ===== src/Utility/Axes.antt =====
-- hyperion/utility.cc: `AxesRegistrar`, a map from the uids of sets of axes to their names, and
-- `column_is_axis`. A uid or a name is a list of characters, an HDF5 type identifier a number.
pub mod Registered
use legms.Prelude.{
  ℕ, zero, suc, Bool, true, false, ◌&&◌, List, [], ◌∷◌, Option, none, some, ltb, ◌==◌,
  if◌then◌else◌, length, get_elem?, Result, ok, throws, ◌>>=◌,
}
use legms.Prelude.Int.{ℤ, pos, negsuc}
use legms.Utility.Strings.{str_eq}

pub record A : Type 0 where
  pub uid : List ℕ
  pub names : List (List ℕ)
  pub h5_datatype : ℕ

-- The entries of `axes_`, one for each key.
abbrev pub AxesMap : Type 0
AxesMap = List (List ℕ × A)

-- axes_[uid] = a
unfoldable pub assign : List ℕ → A → AxesMap → AxesMap
unfolding str_eq
assign uid a [] = (uid, a) ∷ []
assign uid a ((key, b) ∷ axes_) =
    let rest = assign uid a axes_ in if str_eq key uid then (key, a) ∷ axes_ else (key, b) ∷ rest

unfoldable pub register_axes : List ℕ → List (List ℕ) → ℕ → AxesMap → AxesMap
unfolding assign
register_axes uid names hid axes_ =
    assign uid (record { uid = uid; names = names; h5_datatype = hid }) axes_

unfoldable pub axes : List ℕ → AxesMap → Option A
unfolding str_eq
axes uid [] = none
axes uid ((key, a) ∷ axes_) = if str_eq key uid then some a else axes uid axes_

-- std::find_if by the type identifier; the order of the entries is that of the map.
unfoldable pub match_axes_datatype : ℕ → AxesMap → Option (List ℕ)
match_axes_datatype hid [] = none
match_axes_datatype hid ((key, a) ∷ axes_) =
    if a.h5_datatype == hid then some key else match_axes_datatype hid axes_

unfoldable pub is_below : ℕ → ℤ → Bool
is_below m (pos x) = ltb x m
is_below m (negsuc x) = false

unfoldable pub all_below : ℕ → List ℤ → Bool
unfolding is_below
all_below m [] = true
all_below m (x ∷ xs) = is_below m x && all_below m xs

unfoldable pub in_range : List ℕ → List ℤ → AxesMap → Bool
unfolding axes all_below
in_range uid xs axes_ = elim (axes uid axes_) [
  | none ↦ false
  | some a ↦ all_below (length a.names) xs
]

-- column_is_axis(axis_names, colname, axes): the first axis with the column's name. An axis without a
-- name is outside its vector, where the program's behaviour is undefined.
unfoldable pub column_is_axis : List (List ℕ) → List ℕ → List ℕ → Result (Option ℕ)
unfolding str_eq
column_is_axis axis_names colname [] = ok none
column_is_axis axis_names colname (ax ∷ axes) = elim (get_elem? axis_names ax) [
  | none ↦ throws
  | some name ↦ if str_eq colname name then ok (some ax) else column_is_axis axis_names colname axes
]
