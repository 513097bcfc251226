-- ===== src/MeasRef/Initialize/Components.antt =====
-- The components of a reference, and what each one brings to a scan of them.
use legms.Prelude.{
  ℕ, zero, suc, ◌≤◌, ◌<◌, ◌≡◌, ◌≢◌, refl, ap₂, ◌∙◌, [], ◌∷◌, ◌++◌, arith, length, ok, inl, inr, ◌⊎◌,
  append_assoc, length-append,
}
use legms.MeasRef.Measure.{Measure, null, measure, MrBase, component}
use legms.MeasRef.Regions.{Point, Metadata, Regions}
use legms.MeasRef.Entries.{
  Partial, pred, entry, overlay, overlay-join, overlay-under, join, under, own_values, own_metadata,
  component_entries, component_entries_lem,
}
use legms.MeasRef.Points.{laid}
use legms.MeasRef.Initialize.States.{depth, InSpace, Visits}

-- A component that is there, or not.
abbrev pub Component : MrBase → ℕ → Type 0
Component r c = (component r c ≡ ok null) ⊎ ((cm : Measure) × (component r c ≡ ok cm) × (cm ≢ null))

there_or_null : (r : MrBase) (c : ℕ) (cm : Measure) → component r c ≡ ok cm → Component r c
there_or_null r c null h = inl h
there_or_null r c (measure vs k t o e l d v) h = inr (measure vs k t o e l d v, h, λ e. cc)

pub Component-cases : (r : MrBase) (c : ℕ) → 0 < c → c < 6 → Component r c
Component-cases r zero lo hi = absurd (omega arith)
Component-cases r (suc zero) lo hi = there_or_null r 1 r.offset (unfold component in refl)
Component-cases r (suc (suc zero)) lo hi = there_or_null r 2 r.epoch (unfold component in refl)
Component-cases r (suc (suc (suc zero))) lo hi =
    there_or_null r 3 r.position (unfold component in refl)
Component-cases r (suc (suc (suc (suc zero)))) lo hi =
    there_or_null r 4 r.direction (unfold component in refl)
Component-cases r (suc (suc (suc (suc (suc zero))))) lo hi =
    there_or_null r 5 r.radial_velocity (unfold component in refl)
Component-cases r (suc (suc (suc (suc (suc (suc c)))))) lo hi = absurd (omega arith)

pub laid-under :
    (pre : Point) (n c : ℕ) (r : MrBase) (cm : Measure) (f : Partial Metadata) (g : Partial ℕ)
    (rs : Regions)
    → component r c ≡ ok cm
    → laid
        (pre ++ c ∷ [])
        (entry own_metadata (pred n) cm)
        (entry own_values (pred n) cm)
        (laid pre f g rs)
      ≡ laid pre
          (join (under c (component_entries own_metadata n r c)) f)
          (join (under c (component_entries own_values n r c)) g)
          rs
unfolding laid
laid-under pre n c r cm f g rs h =
    rw (component_entries_lem own_metadata n r c cm h, component_entries_lem own_values n r c cm h)
      (ap₂ (λ md vals. record rs { metadata = md; values = vals })
        (overlay-under pre c (entry own_metadata (pred n) cm) (overlay pre f rs.metadata)
          ∙ overlay-join pre (under c (entry own_metadata (pred n) cm)) f rs.metadata)
        (overlay-under pre c (entry own_values (pred n) cm) (overlay pre g rs.values)
          ∙ overlay-join pre (under c (entry own_values (pred n) cm)) g rs.values))

-- What the components of a reference bring to a scan of them.
pub record Components (dim : ℕ) (pre : Point) (n : ℕ) (r : MrBase) (rs : Regions) : Type 0 where
  pub visits : (c : ℕ) (cm : Measure) → component r c ≡ ok cm → Visits dim cm
  pub fits : (c : ℕ) (cm : Measure) → component r c ≡ ok cm → depth cm ≤ n
  pub in_metadata :
      (c : ℕ) (cm : Measure)
      → component r c ≡ ok cm
      → InSpace rs.metadata_space (pre ++ c ∷ []) (entry own_metadata (pred n) cm)
  pub in_values :
      (c : ℕ) (cm : Measure)
      → component r c ≡ ok cm
      → InSpace rs.values_space (pre ++ c ∷ []) (entry own_values (pred n) cm)

pub suc-pred : (n d : ℕ) → d ≢ 0 → d ≤ n → suc (pred n) ≡ n
suc-pred zero d h le = absurd (h (omega arith))
suc-pred (suc n) d h le = refl

pub depth_nonzero : (m : Measure) → m ≢ null → depth m ≢ 0
unfolding depth
depth_nonzero null h = absurd (h refl)
depth_nonzero (measure vs k t o e l d v) h = λ e. omega arith

pub prefix_length : (pre : Point) (c : ℕ) → length (pre ++ c ∷ []) ≡ suc (length pre)
prefix_length pre c = length-append pre (c ∷ []) ∙ omega arith

pub regroup : (pre : Point) (c : ℕ) (tl : Point) → (pre ++ c ∷ []) ++ tl ≡ pre ++ c ∷ tl
regroup pre c tl = append_assoc pre (c ∷ []) tl
