-- ===== src/MeasRef/Instantiate/Attach.antt =====
-- The components of a reference that is built: each one that the regions hold is built and attached.
use legms.Prelude.{
  ℕ, zero, suc, ◌+◌, ◌≤◌, ◌<◌, ◌≡◌, ◌≢◌, refl, ap, sym, ◌∙◌, subst, true, false, List, [], ◌∷◌,
  ◌++◌, Option, arith, length, Result, ok, inl, inr, length-replicate,
}
use legms.Prelude.Loops.{here, Reaches-trans}
use legms.MeasRef.Measure.{MClass, Measure, null, MrBase, is_class, component}
use legms.MeasRef.Regions.{Point, Regions}
use legms.MeasRef.Entries.{pred}
use legms.MeasRef.Points.{zeros, put-at}
use legms.MeasRef.Initialize.States.{depth}
use legms.MeasRef.Initialize.Components.{
  Component-cases, suc-pred, depth_nonzero, prefix_length, regroup,
}
use legms.MeasRef.Initialize.Written.{measure_of}
use legms.MeasRef.Instantiate.{
  Msrp, holds_measure, Item, fresh, filled, State, offer, attach, body, going,
}
use legms.MeasRef.Instantiate.States.{
  Reaches, Reaches-step, Holds, OffsetOf, Pops, Restores, Holds-component, contained_null,
  contained_component, contained_end,
}
use legms.MeasRef.Instantiate.Filled.{
  partial, set_component-partial, outcome, attach_end, attach-offer, offer_next, offer_pushes,
  step-filled,
}

Reaches-at :
    (make_value : MClass → List ℕ → List ℕ) (dim : ℕ) (rs : Regions) {ms ms' : List Item}
    {held held' : Msrp} {p p' p1 p1' q q' q1 q1' : Point}
    → p ≡ p'
    → p1 ≡ p1'
    → q ≡ q'
    → q1 ≡ q1'
    → Reaches make_value dim rs
        (record { ms = ms; vmrb = held; p = p; p1 = p1 })
        (record { ms = ms'; vmrb = held'; p = q; p1 = q1 })
    → Reaches make_value dim rs
        (record { ms = ms; vmrb = held; p = p'; p1 = p1' })
        (record { ms = ms'; vmrb = held'; p = q'; p1 = q1' })
Reaches-at make_value dim rs e e1 h h1 reach = rw (← e, ← e1, ← h, ← h1) reach

-- What a reference brings to the loop over its components.
pub record Attachable (make_value : MClass → List ℕ → List ℕ) (dim : ℕ) (pre : Point) (n : ℕ)
    (vs : List ℕ) (r : MrBase) (k : MClass) (rs : Regions) : Type 0 where
  pub known : is_class k ≡ true
  pub offset_of : OffsetOf k r.offset
  pub restores : (c : ℕ) (cm : Measure) → component r c ≡ ok cm → Restores make_value dim rs cm
  pub fits : (c : ℕ) (cm : Measure) → component r c ≡ ok cm → depth cm ≤ n
  pub holds : Holds pre n (measure_of vs r) rs

module _ (make_value : MClass → List ℕ → List ℕ) (dim n : ℕ) (pre : Point) (vs : List ℕ)
    (r : MrBase) (k : MClass) (rs : Regions) (v : Option (List ℕ)) (rest : List Item)
    (able : Attachable make_value dim pre n vs r k rs) (hd : dim ≡ length pre + suc n)
    (hl : length pre ≡ suc (length rest)) where
  -- A call returns a state from which the level is popped.
  abbrev pub Finishes : Result State → Type 0
  Finishes result =
      (t : State) × (result ≡ ok t) × Pops make_value dim rs pre n rest t (outcome v r)

  -- The inner loop from the component `c` on, with the measure of that component in vmrb.
  abbrev pub Attaches : ℕ → ℕ → Type 0
  Attaches j c =
      (cm : Measure) (x y : ℕ) (tl1 : Point)
      → length tl1 ≡ suc n
      → (0 < j → component r c ≡ ok cm)
      → Finishes (
          attach j (length pre) c v (partial c r) k rest (holds_measure cm) (pre ++ x ∷ zeros n)
            (pre ++ y ∷ tl1) rs)

  -- A component that the regions hold is built, and the loop goes on with it.
  pushes :
      (j c : ℕ) (cm : Measure) (tl1 : Point)
      → length tl1 ≡ suc n
      → c + j ≡ 6
      → component r c ≡ ok cm
      → cm ≢ null
      → Attaches j c
      → Pops make_value dim rs pre n rest
          (record {
            ms = fresh ∷ filled v (partial c r) k c ∷ rest;
            vmrb = holds_measure null;
            p = pre ++ c ∷ zeros n;
            p1 = pre ++ c ∷ tl1;
          })
          (outcome v r)
  pushes j c cm tl1 ht hc e ne attaches =
      let room : suc (pred n) ≡ n =
        suc-pred n (depth cm) (depth_nonzero cm ne) (able.fits c cm e) in
      let (ql, ql1, hq, hq1, built) =
        able.restores c cm e (pre ++ c ∷ []) (pred n) (filled v (partial c r) k c ∷ rest) (zeros n)
          tl1 (omega (arith, prefix_length pre c)) (omega (arith, prefix_length pre c))
          (length-replicate n 0 ∙ sym room) (ht ∙ ap suc (sym room))
          (omega (arith, able.fits c cm e)) ne
          (Holds-component pre n c vs r cm rs e room able.holds) in
      let (t, attached, (pl, pl1, hp, hp1, rests)) =
        attaches cm c c (zeros (length ql1)) (length-replicate (length ql1) 0 ∙ hq1 ∙ ap suc room)
          (λ h. e) in
      (
        pl,
        pl1,
        hp,
        hp1,
        Reaches-trans going (body make_value dim rs)
            (Reaches-at make_value dim rs (regroup pre c (zeros n)) (regroup pre c tl1)
              (regroup pre c ql) (regroup pre c ql1) built)
            (Reaches-step make_value dim rs refl
              (step-filled make_value dim pre ql ql1 c c c j v (partial c r) k rest
                  (holds_measure cm) rs hl (omega arith) hc
                ∙ ap
                    (λ (i : ℕ).
                      attach j (length pre) c v (partial c r) k rest (holds_measure cm)
                        (pre ++ c ∷ zeros i) (pre ++ c ∷ zeros (length ql1)) rs)
                    (hq ∙ room)
                ∙ attached)
              rests),
      )

  pub offers :
      (j c : ℕ) (tl1 : Point)
      → length tl1 ≡ suc n
      → 0 < c
      → c + j ≡ 6
      → Attaches j c
      → Finishes (
          offer c v
            (partial c r)
            k
            rest
            (holds_measure null)
            (pre ++ c ∷ zeros n)
            (pre ++ c ∷ tl1)
            rs
            (attach j
              (length pre)
              c
              v
              (partial c r)
              k
              rest
              (holds_measure null)
              (pre ++ c ∷ zeros n)
              (pre ++ c ∷ tl1)
              rs))
  offers zero c tl1 ht lo hc attaches =
      let six : 6 ≡ c = omega arith in
      let (t, attached, popped) = attaches null c c tl1 ht (λ h. absurd (omega arith)) in
      (
        t,
        offer_next c v (partial c r) k rest (holds_measure null) (pre ++ c ∷ zeros n)
              (pre ++ c ∷ tl1) rs
              (attach 0 (length pre) c v (partial c r) k rest (holds_measure null)
                (pre ++ c ∷ zeros n) (pre ++ c ∷ tl1) rs)
              (subst (λ i. rs.metadata_space (pre ++ i ∷ zeros n) ≡ false) six
                (contained_end pre n vs r rs able.holds))
            ∙ attached,
        popped,
      )
  offers (suc j) c tl1 ht lo hc attaches = elim (Component-cases r c lo (omega arith)) [
    | inl e ↦
        let (t, attached, popped) = attaches null c c tl1 ht (λ h. e) in
        (
          t,
          offer_next c v (partial c r) k rest (holds_measure null) (pre ++ c ∷ zeros n)
                (pre ++ c ∷ tl1) rs
                (attach (suc j) (length pre) c v (partial c r) k rest (holds_measure null)
                  (pre ++ c ∷ zeros n) (pre ++ c ∷ tl1) rs)
                (contained_null pre n c vs r rs e able.holds)
              ∙ attached,
          popped,
        )
    | inr (cm, e, ne) ↦ (
      record {
        ms = fresh ∷ filled v (partial c r) k c ∷ rest;
        vmrb = holds_measure null;
        p = pre ++ c ∷ zeros n;
        p1 = pre ++ c ∷ tl1;
      },
      offer_pushes c v (partial c r) k rest (holds_measure null) (pre ++ c ∷ zeros n)
          (pre ++ c ∷ tl1) rs
          (attach (suc j) (length pre) c v (partial c r) k rest (holds_measure null)
            (pre ++ c ∷ zeros n) (pre ++ c ∷ tl1) rs)
          (contained_component pre n c vs r cm rs e ne
            (suc-pred n (depth cm) (depth_nonzero cm ne) (able.fits c cm e)) able.holds),
      pushes (suc j) c cm tl1 ht hc e ne attaches,
    )
  ]

  pub attaches_lem : (j c : ℕ) → 0 < c → c + j ≡ 6 → Attaches j c
  attaches_lem zero c lo hc cm x y tl1 ht e = (
    record { ms = rest; vmrb = outcome v r; p = pre ++ x ∷ zeros n; p1 = pre ++ y ∷ tl1 },
    attach_end (length pre) c v r k rest (holds_measure cm) (pre ++ x ∷ zeros n) (pre ++ y ∷ tl1) rs
        able.known (omega arith),
    (x ∷ zeros n, y ∷ tl1, ap suc (length-replicate n 0), ap suc ht, here),
  )
  attaches_lem (suc j) c lo hc cm x y tl1 ht e =
      rw
        (
          attach-offer j (length pre) c v (partial c r) (partial (suc c) r) k rest cm
              (pre ++ x ∷ zeros n) (pre ++ y ∷ tl1) rs
              (set_component-partial c cm k r (e (omega arith)) able.known able.offset_of),
          put-at pre (zeros n) x (suc c),
          put-at pre tl1 y (suc c),
        )
        (offers j (suc c) tl1 ht (omega arith) (omega arith)
          (attaches_lem j (suc c) (omega arith) (omega arith)))
