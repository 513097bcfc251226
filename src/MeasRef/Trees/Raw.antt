-- ===== src/MeasRef/Trees/Raw.antt =====
-- The indexes that `measure_index_trees` makes of a measure, before they are padded.
use legms.Prelude.{
  ℕ, zero, suc, ◌+◌, ◌-◌, ◌≤◌, ◌<◌, ◌≡◌, ◌≢◌, refl, ap, sym, ◌∙◌, subst, true, false, List, [], ◌∷◌,
  ◌++◌, arith, length,
}
use legms.MeasRef.Measure.{MClass, Measure, null, measure}
use legms.MeasRef.Entries.{Partial, pred, entry}
use legms.MeasRef.Points.{zeros}
use legms.MeasRef.Initialize.States.{depth}
use legms.MeasRef.Instantiate.States.{is_some}
use legms.MeasRef.Extend.Padded.{pad}
use legms.MeasRef.Trees.Sets.{Indexes, Pads, Longest}
use legms.MeasRef.Trees.Children.{child, depth-child, deepest, OwnLaws, not_null}
use legms.MeasRef.Trees.Levels.{
  HasValues, suc-pred_pos, at, at_nil, at_zero, at_child, at-depth, entry-length, entry_shortens,
  entry_lengthens,
}

pub pad-append : (v : List ℕ) (j d : ℕ) → d ≡ length v + j → pad d v ≡ v ++ zeros j
unfolding pad
pad-append v j d h = let same : d - length v ≡ j = omega arith in ap (λ i. v ++ zeros i) same

module _ {A : Type 0} (own : ℕ → List ℕ → MClass → ℕ → Partial A) (extra : ℕ)
    (laws : OwnLaws own extra) where
  -- The indexes below VALUE and below a component, as `measure_index_trees` makes them.
  unfoldable pub slots : Measure → ℕ → Indexes
  slots m zero q = at own extra laws 0 m (0 ∷ q)
  slots m (suc c) q = at own extra laws (pred (depth (child m (suc c)))) (child m (suc c)) q

  unfoldable pub raw : Measure → Indexes
  unfolding slots
  raw m [] = false
  raw m (c ∷ q) = slots m c q

  -- The levels of a component, and the zeros that its indexes get.
  component_levels :
      (m : Measure) (n c : ℕ)
      → m ≢ null
      → depth m ≡ suc n
      → 0 < depth (child m (suc c))
      → (j : ℕ) × (pred n ≡ pred (depth (child m (suc c))) + j)
        × (depth (child m (suc c)) ≡ suc (pred (depth (child m (suc c)))))
        × (n ≡ suc (pred n))
  component_levels m n c ne h some_level =
      let room : depth (child m (suc c)) < depth m = depth-child m (suc c) ne in
      let one : suc (pred n) ≡ n = suc-pred_pos n (omega arith) in
      let levels : suc (pred (depth (child m (suc c)))) ≡ depth (child m (suc c)) =
        suc-pred_pos (depth (child m (suc c))) some_level in
      (pred n - pred (depth (child m (suc c))), omega arith, sym levels, sym one)

  raw_padded :
      (m : Measure) (n : ℕ)
      → m ≢ null
      → depth m ≡ suc n
      → (cs : List ℕ) → at own extra laws n m cs ≡ true
      → (v : List ℕ) × (raw m v ≡ true) × (cs ≡ pad (suc (n + extra)) v)
  unfolding raw
  raw_padded m n ne h [] e = cc (at_nil own extra laws n m)
  raw_padded m n ne h (zero ∷ q) e =
      let (vs, k, t, own_at) = at_zero own extra laws m ne in
      let none_more : n ≡ 0 + n = omega arith in
      let (v, e', same) =
        laws.shortens 0 n vs k t q
          (subst (λ i. is_some (own i vs k t q) ≡ true) none_more (sym (own_at n q) ∙ e)) in
      (
        0 ∷ v,
        own_at 0 v ∙ e',
        ap (λ q. 0 ∷ q) same
            ∙ sym (pad-append (0 ∷ v) n (suc (n + extra)) (omega (arith, laws.long 0 vs k t v e'))),
      )
  raw_padded m n ne h (suc c ∷ q) e =
      let ch : Measure = child m (suc c) in
      let inner : at own extra laws (pred n) ch q ≡ true =
        sym (at_child own extra laws n m c q) ∙ e in
      let (j, levels, level, one) =
        component_levels m n c ne h (at-depth own extra laws (pred n) ch q inner) in
      let (v, e', same) =
        entry_shortens own extra laws ch (pred (depth ch)) j q (omega arith)
          (subst (λ i. at own extra laws i ch q ≡ true) levels inner) in
      (
        suc c ∷ v,
        e',
        ap (λ q. suc c ∷ q) same
            ∙ sym (
                pad-append (suc c ∷ v) j (suc (n + extra)) (
                  omega
                    (arith, entry-length own extra laws ch (pred (depth ch)) v (omega arith) e'))),
      )

  padded_raw :
      (m : Measure) (n : ℕ)
      → m ≢ null
      → depth m ≡ suc n
      → (v : List ℕ) → raw m v ≡ true
      → at own extra laws n m (pad (suc (n + extra)) v) ≡ true
  unfolding raw
  padded_raw m n ne h [] e = absurd cc
  padded_raw m n ne h (zero ∷ v) e =
      let (vs, k, t, own_at) = at_zero own extra laws m ne in
      let own_e : is_some (own 0 vs k t v) ≡ true = sym (own_at 0 v) ∙ e in
      let none_more : 0 + n ≡ n = omega arith in
      ap (at own extra laws n m)
        (pad-append (0 ∷ v) n (suc (n + extra)) (omega (arith, laws.long 0 vs k t v own_e)))
      ∙ own_at n (v ++ zeros n)
      ∙ subst (λ i. is_some (own i vs k t (v ++ zeros n)) ≡ true) none_more
          (laws.lengthens 0 n vs k t v own_e)
  padded_raw m n ne h (suc c ∷ v) e =
      let ch : Measure = child m (suc c) in
      let (j, levels, level, one) =
        component_levels m n c ne h (at-depth own extra laws (pred (depth ch)) ch v e) in
      ap (at own extra laws n m) (
        pad-append (suc c ∷ v) j (suc (n + extra))
          (omega (arith, entry-length own extra laws ch (pred (depth ch)) v (omega arith) e)))
      ∙ at_child own extra laws n m c (v ++ zeros j)
      ∙ subst (λ i. at own extra laws i ch (v ++ zeros j) ≡ true) (sym levels)
          (entry_lengthens own extra laws ch (pred (depth ch)) j v (omega arith) e)

  pub raw-Pads :
      (m : Measure) (n : ℕ)
      → m ≢ null
      → depth m ≡ suc n
      → Pads (suc (n + extra)) (raw m) (at own extra laws n m)
  raw-Pads m n ne h cs = (
    raw_padded m n ne h cs,
    λ (v, e, same). ap (at own extra laws n m) same ∙ padded_raw m n ne h v e,
  )

  -- A measure that has a value has entries.
  pub entry_exists :
      (n : ℕ) (m : Measure)
      → m ≢ null
      → HasValues m
      → (q : List ℕ) × (at own extra laws n m q ≡ true)
  unfolding entry
  entry_exists n null ne h = absurd (ne refl)
  entry_exists n (measure vs k t o e l d v) ne h =
      let (q, there) = laws.some_own n vs k t h.0 in (0 ∷ q, there)

  raw_no_longer :
      (m : Measure) (n : ℕ)
      → m ≢ null
      → depth m ≡ suc n
      → (v : List ℕ) → raw m v ≡ true
      → length v ≤ suc (n + extra)
  unfolding raw
  raw_no_longer m n ne h [] e = omega arith
  raw_no_longer m n ne h (zero ∷ v) e =
      let (vs, k, t, own_at) = at_zero own extra laws m ne in
      omega (arith, laws.long 0 vs k t v (sym (own_at 0 v) ∙ e))
  raw_no_longer m n ne h (suc c ∷ v) e =
      let ch : Measure = child m (suc c) in
      let (j, levels, level, one) =
        component_levels m n c ne h (at-depth own extra laws (pred (depth ch)) ch v e) in
      omega (arith, entry-length own extra laws ch (pred (depth ch)) v (omega arith) e)

  raw_some_long :
      (m : Measure) (n : ℕ)
      → m ≢ null
      → depth m ≡ suc n
      → ((c : ℕ) → HasValues (child m c))
      → (cs : List ℕ) → raw m cs ≡ true
      → (v : List ℕ) × (raw m v ≡ true) × (length v ≡ suc (n + extra))
  unfolding raw
  raw_some_long m zero ne h values [] e = absurd cc
  raw_some_long m zero ne h values (zero ∷ q) e =
      let (vs, k, t, own_at) = at_zero own extra laws m ne in
      (zero ∷ q, e, omega (arith, laws.long 0 vs k t q (sym (own_at 0 q) ∙ e)))
  raw_some_long m zero ne h values (suc c ∷ q) e =
      let ch : Measure = child m (suc c) in
      let some_level : 0 < depth ch = at-depth own extra laws (pred (depth ch)) ch q e in
      absurd (omega (arith, depth-child m (suc c) ne))
  raw_some_long m (suc n) ne h values cs e =
      let (c, deep) = deepest m ne in
      let ch : Measure = child m (suc c) in
      let (q, there) =
        entry_exists (pred (depth ch)) ch (not_null ch (λ z. omega arith)) (values (suc c)) in
      let level : suc (pred (depth ch)) ≡ depth ch = suc-pred_pos (depth ch) (omega arith) in
      (
        suc c ∷ q,
        there,
        omega (arith, entry-length own extra laws ch (pred (depth ch)) q (omega arith) there),
      )

  pub raw-Longest :
      (m : Measure) (n : ℕ)
      → m ≢ null
      → depth m ≡ suc n
      → ((c : ℕ) → HasValues (child m c))
      → Longest (suc (n + extra)) (raw m)
  raw-Longest m n ne h values = record {
    no_root = unfold raw in refl;
    no_longer = raw_no_longer m n ne h;
    some_long = raw_some_long m n ne h values;
  }
