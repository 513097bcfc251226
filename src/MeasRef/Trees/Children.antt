-- ===== src/MeasRef/Trees/Children.antt =====
-- The measures below a measure by their coordinates, and how many levels of entries they have.
use legms.Prelude.{
  ℕ, zero, suc, ◌+◌, ◌≤◌, ◌<◌, max, ◌≡◌, ◌≢◌, refl, ap, ◌∙◌, true, List, ◌∷◌, ◌++◌, arith, length,
  leb, Bool-cases, inl, inr, ◌⊎◌,
}
use legms.MeasRef.Measure.{MClass, Measure, null, measure}
use legms.MeasRef.Entries.{Partial, pred, entry}
use legms.MeasRef.Points.{zeros}
use legms.MeasRef.Initialize.States.{depth}
use legms.MeasRef.Instantiate.States.{is_some}

-- The measure at a coordinate; null where there is none, and at VALUE.
unfoldable pub child : Measure → ℕ → Measure
child null c = null
child (measure vs k t o e l d v) zero = null
child (measure vs k t o e l d v) (suc zero) = o
child (measure vs k t o e l d v) (suc (suc zero)) = e
child (measure vs k t o e l d v) (suc (suc (suc zero))) = l
child (measure vs k t o e l d v) (suc (suc (suc (suc zero)))) = d
child (measure vs k t o e l d v) (suc (suc (suc (suc (suc zero))))) = v
child (measure vs k t o e l d v) (suc (suc (suc (suc (suc (suc c)))))) = null

-- Induction on the measures below a measure.
pub measure_ind :
    (P : Measure → Type 0)
    → P null
    → ((m : Measure) → m ≢ null → ((c : ℕ) → P (child m c)) → P m)
    → (m : Measure) → P m
unfolding child
measure_ind P base step null = base
measure_ind P base step (measure vs k t o e l d v) =
    step (measure vs k t o e l d v) (λ e. cc)
      (λ c.
        at c (measure_ind P base step o) (measure_ind P base step e) (measure_ind P base step l)
          (measure_ind P base step d) (measure_ind P base step v))
  where
    at : (c : ℕ) → P o → P e → P l → P d → P v → P (child (measure vs k t o e l d v) c)
    at zero po pe pl pd pv = base
    at (suc zero) po pe pl pd pv = po
    at (suc (suc zero)) po pe pl pd pv = pe
    at (suc (suc (suc zero))) po pe pl pd pv = pl
    at (suc (suc (suc (suc zero)))) po pe pl pd pv = pd
    at (suc (suc (suc (suc (suc zero))))) po pe pl pd pv = pv
    at (suc (suc (suc (suc (suc (suc c)))))) po pe pl pd pv = base

pub depth-child : (m : Measure) (c : ℕ) → m ≢ null → depth (child m c) < depth m
unfolding child depth
depth-child null c ne = absurd (ne refl)
depth-child (measure vs k t o e l d v) zero ne = omega arith
depth-child (measure vs k t o e l d v) (suc zero) ne = omega arith
depth-child (measure vs k t o e l d v) (suc (suc zero)) ne = omega arith
depth-child (measure vs k t o e l d v) (suc (suc (suc zero))) ne = omega arith
depth-child (measure vs k t o e l d v) (suc (suc (suc (suc zero)))) ne = omega arith
depth-child (measure vs k t o e l d v) (suc (suc (suc (suc (suc zero))))) ne = omega arith
depth-child (measure vs k t o e l d v) (suc (suc (suc (suc (suc (suc c)))))) ne = omega arith

max_cases : (a b : ℕ) → (max a b ≡ a) ⊎ (max a b ≡ b)
max_cases a b = elim (Bool-cases (leb a b)) [
  | inl h ↦ let le : a ≤ b = ground arith in inr (omega arith)
  | inr h ↦ let lt : b < a = ground arith in inl (omega arith)
]

-- A measure below has all levels but one.
pub deepest : (m : Measure) → m ≢ null → (c : ℕ) × (depth m ≡ suc (depth (child m (suc c))))
unfolding child depth
deepest null ne = absurd (ne refl)
deepest (measure vs k t o e l d v) ne =
    elim (max_cases (depth o) (max (depth e) (max (depth l) (max (depth d) (depth v))))) [
      | inl h ↦ (0, ap suc h)
      | inr h ↦ elim (max_cases (depth e) (max (depth l) (max (depth d) (depth v)))) [
        | inl h' ↦ (1, omega arith)
        | inr h' ↦ elim (max_cases (depth l) (max (depth d) (depth v))) [
          | inl i ↦ (2, omega arith)
          | inr i ↦ elim (max_cases (depth d) (depth v)) [
            | inl j ↦ (3, omega arith)
            | inr j ↦ (4, omega arith)
          ]
        ]
      ]
    ]

pub entry-child :
    {A : Type 0} (own : ℕ → List ℕ → MClass → ℕ → Partial A) (n : ℕ) (m : Measure) (c : ℕ)
    (q : List ℕ)
    → entry own n m (suc c ∷ q) ≡ entry own (pred n) (child m (suc c)) q
unfolding child entry
entry-child own n null c q = refl
entry-child own n (measure vs k t o e l d v) zero q = refl
entry-child own n (measure vs k t o e l d v) (suc zero) q = refl
entry-child own n (measure vs k t o e l d v) (suc (suc zero)) q = refl
entry-child own n (measure vs k t o e l d v) (suc (suc (suc zero))) q = refl
entry-child own n (measure vs k t o e l d v) (suc (suc (suc (suc zero)))) q = refl
entry-child own n (measure vs k t o e l d v) (suc (suc (suc (suc (suc c))))) q = refl

pub not_null : (m : Measure) → depth m ≢ 0 → m ≢ null
not_null m h e = h (ap depth e ∙ (unfold depth in refl))

-- What is required of the entries that a measure itself has: with one level more they have one
-- coordinate more, which is 0.
pub record OwnLaws {A : Type 0} (own : ℕ → List ℕ → MClass → ℕ → Partial A) (extra : ℕ)
    : Type 0 where
  pub long :
      (n : ℕ) (vs : List ℕ) (k : MClass) (t : ℕ) (q : List ℕ)
      → is_some (own n vs k t q) ≡ true
      → length q ≡ n + extra
  pub shortens :
      (n j : ℕ) (vs : List ℕ) (k : MClass) (t : ℕ) (q : List ℕ)
      → is_some (own (n + j) vs k t q) ≡ true
      → (v : List ℕ) × (is_some (own n vs k t v) ≡ true) × (q ≡ v ++ zeros j)
  pub lengthens :
      (n j : ℕ) (vs : List ℕ) (k : MClass) (t : ℕ) (v : List ℕ)
      → is_some (own n vs k t v) ≡ true
      → is_some (own (n + j) vs k t (v ++ zeros j)) ≡ true
  pub some_own :
      (n : ℕ) (vs : List ℕ) (k : MClass) (t : ℕ)
      → 0 < length vs
      → (q : List ℕ) × (is_some (own n vs k t q) ≡ true)
