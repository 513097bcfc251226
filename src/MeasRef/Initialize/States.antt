-- ===== src/MeasRef/Initialize/States.antt =====
-- The states of the loop of `initialize`, and what it comes to from a measure on top of the stack.
use legms.Prelude.{ℕ, suc, ◌+◌, ◌≤◌, max, ◌≡◌, ◌≢◌, Bool, true, List, ◌∷◌, ◌++◌, some, length, ok}
use legms.Prelude.Loops
use legms.Prelude.Loops.{next}
use legms.MeasRef.Measure.{Measure, null, measure, is_class}
use legms.MeasRef.Regions.{Point, Metadata, Regions}
use legms.MeasRef.Entries.{Partial, entry, own_values, own_metadata}
use legms.MeasRef.Points.{laid}
use legms.MeasRef.Initialize.{Msr, is_measure, State, step, body, going}

abbrev pub Reaches : ℕ → State → State → Type 0
Reaches dim s t = Loops.Reaches going (body dim) s t

pub Reaches-step :
    (dim : ℕ) {s t u : State}
    → going s ≡ true
    → step dim s.ms s.p s.p1 s.regions ≡ ok t
    → Reaches dim t u
    → Reaches dim s u
unfolding body
Reaches-step dim k e reach = next k e reach

-- The number of measures on the longest chain of components.
unfoldable pub depth : Measure → ℕ
depth null = 0
depth (measure vs k t o e l d v) =
    suc (max (depth o) (max (depth e) (max (depth l) (max (depth d) (depth v)))))

-- Each measure is of a class that the code knows.
abbrev pub HasClasses : Measure → Type 0
HasClasses null = Unit
HasClasses (measure vs k t o e l d v) =
    (is_class k ≡ true) × HasClasses o × HasClasses e × HasClasses l × HasClasses d × HasClasses v

-- The index spaces have the points of the entries of a measure.
abbrev pub InSpace : {A : Type 0} → (Point → Bool) → Point → Partial A → Type 0
InSpace {A} space pre f = (q : Point) (a : A) → f q ≡ some a → space (pre ++ q) ≡ true

-- From a state with a measure on top, the loop comes to pop it, with its entries written.
abbrev pub Pops :
    ℕ → Point → ℕ → List (Msr × ℕ) → State → Partial Metadata → Partial ℕ → Regions → Type 0
Pops dim pre n rest s f g rs =
    (pl pl1 : Point) × (length pl ≡ suc n)
    × (length pl1 ≡ suc (suc n))
    × Reaches dim s
        (record { ms = rest; p = pre ++ pl; p1 = pre ++ pl1; regions = laid pre f g rs })

abbrev pub Visits : ℕ → Measure → Type 0
Visits dim m =
    (pre : Point) (n : ℕ) (rest : List (Msr × ℕ)) (pl pl1 : Point) (rs : Regions)
    → dim ≡ length pre + suc n
    → length pre ≡ suc (length rest)
    → length pl ≡ suc n
    → length pl1 ≡ suc (suc n)
    → depth m ≤ suc n
    → m ≢ null
    → InSpace rs.metadata_space pre (entry own_metadata n m)
    → InSpace rs.values_space pre (entry own_values n m)
    → Pops dim pre n rest
        (record { ms = (is_measure m, 0) ∷ rest; p = pre ++ pl; p1 = pre ++ pl1; regions = rs })
        (entry own_metadata n m) (entry own_values n m) rs
