-- ===== src/MeasRef/Trees/Levels.antt =====
-- The entries of a measure at more levels than it has, and from those of the measures below it.
use legms.Prelude.{
  ℕ, zero, suc, ◌+◌, ◌≤◌, ◌<◌, ◌≡◌, ◌≢◌, refl, ap, sym, ◌∙◌, subst, true, false, List, [], ◌∷◌,
  ◌++◌, arith, length,
}
use legms.MeasRef.Measure.{MClass, Measure, null, measure}
use legms.MeasRef.Entries.{Partial, pred, entry}
use legms.MeasRef.Points.{zeros}
use legms.MeasRef.Initialize.States.{depth}
use legms.MeasRef.Instantiate.States.{is_some}
use legms.MeasRef.Trees.Sets.{Indexes}
use legms.MeasRef.Trees.Children.{child, measure_ind, depth-child, entry-child, OwnLaws}

-- Each measure has a value.
abbrev pub HasValues : Measure → Type 0
HasValues null = Unit
HasValues (measure vs k t o e l d v) =
    (0 < length vs) × HasValues o × HasValues e × HasValues l × HasValues d × HasValues v

pub HasValues-child : (m : Measure) (c : ℕ) → HasValues m → HasValues (child m c)
unfolding child
HasValues-child null c h = tt
HasValues-child (measure vs k t o e l d v) zero h = tt
HasValues-child (measure vs k t o e l d v) (suc zero) h = h.1
HasValues-child (measure vs k t o e l d v) (suc (suc zero)) h = h.2
HasValues-child (measure vs k t o e l d v) (suc (suc (suc zero))) h = h.3
HasValues-child (measure vs k t o e l d v) (suc (suc (suc (suc zero)))) h = h.4
HasValues-child (measure vs k t o e l d v) (suc (suc (suc (suc (suc zero))))) h = h.5
HasValues-child (measure vs k t o e l d v) (suc (suc (suc (suc (suc (suc c)))))) h = tt

pub suc-pred_pos : (n : ℕ) → 0 < n → suc (pred n) ≡ n
suc-pred_pos zero h = absurd (omega arith)
suc-pred_pos (suc n) h = refl

module _ {A : Type 0} (own : ℕ → List ℕ → MClass → ℕ → Partial A) (extra : ℕ)
    (laws : OwnLaws own extra) where
  -- The indexes of the entries.
  abbrev pub at : ℕ → Measure → Indexes
  at n m q = is_some (entry own n m q)

  pub at_nil : (n : ℕ) (m : Measure) → at n m [] ≡ false
  unfolding entry is_some
  at_nil n null = refl
  at_nil n (measure vs k t o e l d v) = refl

  at_null : (n : ℕ) (q : List ℕ) → at n null q ≡ false
  unfolding entry is_some
  at_null n q = refl

  pub at_zero :
      (m : Measure)
      → m ≢ null
      → (vs : List ℕ) × (k : MClass) × (t : ℕ) × ((n : ℕ) (q : List ℕ)
          → at n m (0 ∷ q) ≡ is_some (own n vs k t q))
  unfolding entry
  at_zero null ne = absurd (ne refl)
  at_zero (measure vs k t o e l d v) ne = (vs, k, t, λ n q. refl)

  pub at_child :
      (n : ℕ) (m : Measure) (c : ℕ) (q : List ℕ)
      → at n m (suc c ∷ q) ≡ at (pred n) (child m (suc c)) q
  at_child n m c q = ap is_some (entry-child own n m c q)

  pub at-depth : (n : ℕ) (m : Measure) (q : List ℕ) → at n m q ≡ true → 0 < depth m
  unfolding entry is_some depth
  at-depth n null q h = cc
  at-depth n (measure vs k t o e l d v) q h = omega arith

  -- With enough levels the entries have one coordinate for each level.
  pub entry-length :
      (m : Measure) (n : ℕ) (q : List ℕ)
      → depth m ≤ suc n
      → at n m q ≡ true
      → length q ≡ suc (n + extra)
  entry-length =
      measure_ind
        (λ m. (n : ℕ) (q : List ℕ) → depth m ≤ suc n → at n m q ≡ true → length q ≡ suc (n + extra))
        (λ n q le h. cc (at_null n q)) step
    where
      step :
          (m : Measure)
          → m ≢ null
          → ((c n : ℕ) (q : List ℕ)
              → depth (child m c) ≤ suc n
              → at n (child m c) q ≡ true
              → length q ≡ suc (n + extra))
          → (n : ℕ) (q : List ℕ) → depth m ≤ suc n
          → at n m q ≡ true
          → length q ≡ suc (n + extra)
      step m ne below n [] le h = cc (at_nil n m)
      step m ne below n (zero ∷ q) le h =
          let (vs, k, t, own_at) = at_zero m ne in
          ap suc (laws.long n vs k t q (sym (own_at n q) ∙ h))
      step m ne below n (suc c ∷ q) le h =
          let inner : at (pred n) (child m (suc c)) q ≡ true = sym (at_child n m c q) ∙ h in
          let some_level : 0 < depth (child m (suc c)) =
            at-depth (pred n) (child m (suc c)) q inner in
          let room : depth (child m (suc c)) < depth m = depth-child m (suc c) ne in
          let same : suc (pred n) ≡ n = suc-pred_pos n (omega arith) in
          omega (arith, below (suc c) (pred n) q (omega arith) inner)

  pub entry_shortens :
      (m : Measure) (n j : ℕ) (q : List ℕ)
      → depth m ≤ suc n
      → at (n + j) m q ≡ true
      → (v : List ℕ) × (at n m v ≡ true) × (q ≡ v ++ zeros j)
  entry_shortens =
      measure_ind
        (λ m.
          (n j : ℕ) (q : List ℕ)
          → depth m ≤ suc n
          → at (n + j) m q ≡ true
          → (v : List ℕ) × (at n m v ≡ true) × (q ≡ v ++ zeros j))
        (λ n j q le h. cc (at_null (n + j) q)) step
    where
      step :
          (m : Measure)
          → m ≢ null
          → ((c n j : ℕ) (q : List ℕ)
              → depth (child m c) ≤ suc n
              → at (n + j) (child m c) q ≡ true
              → (v : List ℕ) × (at n (child m c) v ≡ true) × (q ≡ v ++ zeros j))
          → (n j : ℕ) (q : List ℕ) → depth m ≤ suc n
          → at (n + j) m q ≡ true
          → (v : List ℕ) × (at n m v ≡ true) × (q ≡ v ++ zeros j)
      step m ne below n j [] le h = cc (at_nil (n + j) m)
      step m ne below n j (zero ∷ q) le h =
          let (vs, k, t, own_at) = at_zero m ne in
          let (v, e, same) = laws.shortens n j vs k t q (sym (own_at (n + j) q) ∙ h) in
          (0 ∷ v, own_at n v ∙ e, ap (λ q. 0 ∷ q) same)
      step m ne below n j (suc c ∷ q) le h =
          let inner : at (pred (n + j)) (child m (suc c)) q ≡ true =
            sym (at_child (n + j) m c q) ∙ h in
          let some_level : 0 < depth (child m (suc c)) =
            at-depth (pred (n + j)) (child m (suc c)) q inner in
          let room : depth (child m (suc c)) < depth m = depth-child m (suc c) ne in
          let one : suc (pred n) ≡ n = suc-pred_pos n (omega arith) in
          let both : suc (pred (n + j)) ≡ n + j = suc-pred_pos (n + j) (omega arith) in
          let levels : pred (n + j) ≡ pred n + j = omega arith in
          let (v, e, same) =
            below (suc c) (pred n) j q (omega arith)
              (subst (λ i. at i (child m (suc c)) q ≡ true) levels inner) in
          (suc c ∷ v, at_child n m c v ∙ e, ap (λ q. suc c ∷ q) same)

  pub entry_lengthens :
      (m : Measure) (n j : ℕ) (v : List ℕ)
      → depth m ≤ suc n
      → at n m v ≡ true
      → at (n + j) m (v ++ zeros j) ≡ true
  entry_lengthens =
      measure_ind
        (λ m.
          (n j : ℕ) (v : List ℕ)
          → depth m ≤ suc n
          → at n m v ≡ true
          → at (n + j) m (v ++ zeros j) ≡ true)
        (λ n j v le h. cc (at_null n v)) step
    where
      step :
          (m : Measure)
          → m ≢ null
          → ((c n j : ℕ) (v : List ℕ)
              → depth (child m c) ≤ suc n
              → at n (child m c) v ≡ true
              → at (n + j) (child m c) (v ++ zeros j) ≡ true)
          → (n j : ℕ) (v : List ℕ) → depth m ≤ suc n
          → at n m v ≡ true
          → at (n + j) m (v ++ zeros j) ≡ true
      step m ne below n j [] le h = cc (at_nil n m)
      step m ne below n j (zero ∷ v) le h =
          let (vs, k, t, own_at) = at_zero m ne in
          own_at (n + j) (v ++ zeros j) ∙ laws.lengthens n j vs k t v (sym (own_at n v) ∙ h)
      step m ne below n j (suc c ∷ v) le h =
          let inner : at (pred n) (child m (suc c)) v ≡ true = sym (at_child n m c v) ∙ h in
          let some_level : 0 < depth (child m (suc c)) =
            at-depth (pred n) (child m (suc c)) v inner in
          let room : depth (child m (suc c)) < depth m = depth-child m (suc c) ne in
          let one : suc (pred n) ≡ n = suc-pred_pos n (omega arith) in
          let both : suc (pred (n + j)) ≡ n + j = suc-pred_pos (n + j) (omega arith) in
          let levels : pred n + j ≡ pred (n + j) = omega arith in
          at_child (n + j) m c (v ++ zeros j)
          ∙ subst (λ i. at i (child m (suc c)) (v ++ zeros j) ≡ true) levels
              (below (suc c) (pred n) j v (omega arith) inner)
