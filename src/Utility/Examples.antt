-- ===== src/Utility/Examples.antt =====
-- The theorems about the helpers, at concrete values.
use legms.Prelude.{
  ◌≤◌, ◌||◌, ltb, ap, inl, inr, ◌==◌, zero, suc, throws, ℕ, ◌≡◌, ◌↔◌, some, get_elem?, refl, ◌++◌,
  Bool, true, false, List, [], ◌∷◌, ok, length, arith,
}
use legms.Utility.Serdez
use legms.Utility.Serdez.AccField
use legms.Utility.Serdez.Layouts.{bool_layout}
use legms.Utility.Serdez.RoundTrip.{length-vector_bytes, acc_field-round_trip}
use legms.Utility.Dimensions.{has_unique_values}
use legms.Utility.Dimensions.First.{has_unique_values-true}
use legms.Utility.Divisor.{min_divisor, divide, Divides, min_divisor-Divides}
use legms.Utility.Redop.{Comparison, join_rows, combine}
use legms.Utility.Redop.Rows.{elem, join_rows-throws}
use legms.Utility.Redop.Late.{join_rows_union}
use legms.Utility.Redop.Sorted.{IsOrder, IsSorted, Entry}
use legms.Utility.Redop.Combine.{Combines, combine-Combines}
use legms.Utility.Axes.{AxesMap}
use legms.Utility.Order.{Rect, rect_lt}

abbrev flags : List Bool
flags = true ∷ false ∷ true ∷ []

length-vector_bytes_example :
    length (Serdez.serialize bool_layout flags).0 ≡ (Serdez.serialize bool_layout flags).1
length-vector_bytes_example = length-vector_bytes bool_layout flags

abbrev accumulated : List (Bool × List Bool)
accumulated = (true, flags) ∷ (false, []) ∷ []

acc_field-round_trip_example :
    AccField.deserialize bool_layout bool_layout
      ((AccField.serialize bool_layout bool_layout accumulated).0 ++ 7 ∷ [])
    ≡ ok (accumulated, (AccField.serialize bool_layout bool_layout accumulated).1)
acc_field-round_trip_example =
    acc_field-round_trip bool_layout bool_layout accumulated (7 ∷ []) (omega arith) (omega arith)

-- Two axes are equal.
has_unique_values-true_example : has_unique_values (2 ∷ 1 ∷ 2 ∷ []) ≡ true
has_unique_values-true_example = has_unique_values-true (2 ∷ 1 ∷ 2 ∷ [])

min_divisor-Divides_example :
    (d quotient : ℕ) × (min_divisor 100 7 9 ≡ ok d) × Divides 100 7 9 quotient d
min_divisor-Divides_example =
    min_divisor-Divides 100 7 9 (omega arith) (omega arith) (omega arith) (omega arith)
      (omega arith)

min_divisor_100 : min_divisor 100 7 9 ≡ ok 9
unfolding min_divisor divide
min_divisor_100 = refl

-- An array of four characters
abbrev buffer : List ℕ
buffer = 1 ∷ 1 ∷ 1 ∷ 1 ∷ []

abbrev long_name : List ℕ
long_name = 65 ∷ 66 ∷ 67 ∷ 68 ∷ 69 ∷ []

==_iff : (a b : ℕ) → ((a == b) ≡ true) ↔ (a ≡ b)
==_iff a b = (λ h. ground arith, λ h. ground arith)

abbrev numbers : Comparison ℕ
numbers = record { lt = ltb; beq = λ a b. a == b; beq_iff = ==_iff }

late : (r : ℕ) → 5 ≤ r → (j y : ℕ) → get_elem? (2 ∷ 5 ∷ []) j ≡ some y → ltb r y ≡ false
late r h zero y e = ground arith
late r h (suc zero) y e = ground arith
late r h (suc (suc j)) y e = cc

join_rows_union_example :
    (rows : List ℕ) × (join_rows numbers (2 ∷ 5 ∷ []) (5 ∷ 7 ∷ 8 ∷ []) ≡ ok rows)
    × ((x : ℕ)
        → elem numbers x rows ≡ (elem numbers x (2 ∷ 5 ∷ []) || elem numbers x (5 ∷ 7 ∷ 8 ∷ [])))
join_rows_union_example =
    join_rows_union numbers (2 ∷ 5 ∷ []) (5 ∷ 7 ∷ 8 ∷ [])
      (late 5 (omega arith), (late 7 (omega arith), (late 8 (omega arith), tt)))

-- One and two in front of the first row: the loop stays inside the vector.
join_rows_front : join_rows numbers (3 ∷ 5 ∷ []) (1 ∷ 2 ∷ []) ≡ ok (1 ∷ 2 ∷ 3 ∷ 5 ∷ [])
unfolding join_rows
join_rows_front = refl

join_rows-throws_example : join_rows numbers (1 ∷ 2 ∷ 4 ∷ []) (3 ∷ []) ≡ throws
join_rows-throws_example = join_rows-throws numbers 3 1 2 4 [] [] refl refl refl refl refl

numbers-IsOrder : IsOrder numbers
numbers-IsOrder = record {
  irreflexive = λ a. ground arith;
  transitive = λ a b d h h'. ground arith;
  total = λ a b h h'. ground arith;
}

abbrev here_rows : List (ℕ × List ℕ)
here_rows = (9, 1 ∷ []) ∷ []

abbrev there_rows : List (ℕ × List ℕ)
there_rows = (8, 4 ∷ []) ∷ (9, 1 ∷ 3 ∷ []) ∷ []

here-IsSorted : IsSorted numbers here_rows
unfolding IsSorted Entry
here-IsSorted = (λ t rows at. absurd at, tt)

behind_eight : (t : ℕ) (rows : List ℕ) → Entry t rows ((9, 1 ∷ 3 ∷ []) ∷ []) → ltb 8 t ≡ true
unfolding Entry
behind_eight t rows (inl e) = rw (ap (λ field. field.0) e) refl
behind_eight t rows (inr at) = absurd at

there-IsSorted : IsSorted numbers there_rows
unfolding IsSorted Entry
there-IsSorted = (behind_eight, (λ t rows at. absurd at, tt))

combine-Combines_example :
    Combines numbers numbers here_rows there_rows (combine numbers numbers here_rows there_rows)
combine-Combines_example =
    combine-Combines numbers numbers numbers-IsOrder here_rows there_rows here-IsSorted
      there-IsSorted

combined : combine numbers numbers here_rows there_rows ≡ ok ((8, 4 ∷ []) ∷ (9, 1 ∷ 3 ∷ []) ∷ [])
unfolding combine
combined = refl

-- A registrar that has one set of axes, with two names.
abbrev registrar : AxesMap
registrar =
    (long_name, record { uid = long_name; names = buffer ∷ long_name ∷ []; h5_datatype = 3 }) ∷ []

abbrev wide : Rect
wide = record { lo = 1 ∷ 1 ∷ []; hi = 9 ∷ 9 ∷ [] }

abbrev middle : Rect
middle = record { lo = 2 ∷ 2 ∷ []; hi = 3 ∷ 3 ∷ [] }

abbrev high : Rect
high = record { lo = 0 ∷ 5 ∷ []; hi = 4 ∷ 6 ∷ [] }

wide-middle : rect_lt wide middle ≡ true
unfolding rect_lt
wide-middle = refl

middle-high : rect_lt middle high ≡ true
unfolding rect_lt
middle-high = refl

-- The order is not transitive.
wide_beside : rect_lt wide high ≡ false
unfolding rect_lt
wide_beside = refl
