-- ===== src/MeasRef/Initialize/Scan.antt =====
-- The loop over the components of a reference: each one that is there is visited.
use legms.Prelude.{
  ℕ, zero, suc, ◌+◌, ◌-◌, ◌≤◌, ◌<◌, ◌≡◌, ◌≢◌, refl, ap, ◌∙◌, List, [], ◌∷◌, ◌++◌, ltb, arith,
  length, ok, inl, inr, if_true, length-replicate,
}
use legms.Prelude.Loops.{here, Reaches-trans}
use legms.MeasRef.Measure.{MClass, Measure, null, measure, MrBase, component}
use legms.MeasRef.Regions.{Point, Metadata, Regions, put}
use legms.MeasRef.Entries.{
  Partial, pred, entry, join, under, own_values, own_metadata, joined_entries, component_entries,
  join-under_null,
}
use legms.MeasRef.Points.{zeros, put-at, clear-above, laid}
use legms.MeasRef.Initialize.{Msr, is_measure, mc_mrbase, State, scan, round, step, body, going}
use legms.MeasRef.Initialize.States.{Reaches, Reaches-step, depth, Pops}
use legms.MeasRef.Initialize.Components.{
  Component-cases, laid-under, Components, suc-pred, depth_nonzero, prefix_length, regroup,
}

abbrev pub Scans :
    ℕ
    → Point
    → ℕ
    → MClass
    → MrBase
    → List (Msr × ℕ)
    → ℕ
    → ℕ
    → Point
    → Point
    → Partial Metadata
    → Partial ℕ
    → Regions
    → Type 0
Scans dim pre n k r rest j c pl pl1 f g rs =
    (t : State) × (scan j (length pre) c k r rest (pre ++ pl) (pre ++ pl1) (laid pre f g rs) ≡ ok t)
    × Pops dim pre n rest t (joined_entries own_metadata n r j c f)
        (joined_entries own_values n r j c g) rs

scan-null :
    (j level c : ℕ) (k : MClass) (r : MrBase) (rest : List (Msr × ℕ)) (p p1 : Point) (rs : Regions)
    → component r c ≡ ok null
    → scan (suc j) level c k r rest p p1 rs
      ≡ scan j level (suc c) k r rest (put level c p) (put level c p1) rs
unfolding scan
scan-null j level c k r rest p p1 rs h = rw h

scan-measure :
    (j level c : ℕ) (k : MClass) (r : MrBase) (rest : List (Msr × ℕ)) (p p1 : Point) (rs : Regions)
    (cm : Measure)
    → component r c ≡ ok cm
    → cm ≢ null
    → scan (suc j) level c k r rest p p1 rs
      ≡ ok (record {
        ms = (is_measure cm, 0) ∷ (mc_mrbase k r, suc c) ∷ rest;
        p = put level c p;
        p1 = put level c p1;
        regions = rs;
      })
unfolding scan
scan-measure j level c k r rest p p1 rs null h ne = absurd (ne refl)
scan-measure j level c k r rest p p1 rs (measure vs i t o e l d v) h ne = rw h

step-mc_mrbase :
    (dim : ℕ) (pre tl tl1 : Point) (x y c j : ℕ) (k : MClass) (r : MrBase) (rest : List (Msr × ℕ))
    (rs : Regions)
    → length pre ≡ suc (length rest)
    → length pre < dim
    → suc c + j ≡ 6
    → step dim ((mc_mrbase k r, suc c) ∷ rest) (pre ++ x ∷ tl) (pre ++ y ∷ tl1) rs
      ≡ scan j
          (length pre)
          (suc c)
          k
          r
          rest
          (pre ++ x ∷ zeros (length tl))
          (pre ++ y ∷ zeros (length tl1))
          rs
unfolding step round
step-mc_mrbase dim pre tl tl1 x y c j k r rest rs hl lt hc =
    let e : 6 - suc c ≡ j = omega arith in
    rw (← hl) (
      if_true (ltb (length pre) dim) _ _ (ground arith)
      ∙ rw (clear-above pre tl x, clear-above pre tl1 y, e) refl)

joined_entries-null :
    {A : Type 0} (own : ℕ → List ℕ → MClass → ℕ → Partial A) (n j c : ℕ) (r : MrBase)
    (f : Partial A)
    → component r c ≡ ok null
    → joined_entries own n r (suc j) c f ≡ joined_entries own n r j (suc c) f
unfolding joined_entries
joined_entries-null own n j c r f h =
    ap (joined_entries own n r j (suc c)) (join-under_null own n r c f h)

scan-skips :
    (dim n j c : ℕ) (pre : Point) (k : MClass) (r : MrBase) (rest : List (Msr × ℕ)) (x y : ℕ)
    (tl tl1 : Point) (f : Partial Metadata) (g : Partial ℕ) (rs : Regions)
    → component r c ≡ ok null
    → Scans dim pre n k r rest j (suc c) (c ∷ tl) (c ∷ tl1) f g rs
    → Scans dim pre n k r rest (suc j) c (x ∷ tl) (y ∷ tl1) f g rs
scan-skips dim n j c pre k r rest x y tl tl1 f g rs h later =
    rw
      (
        scan-null j (length pre) c k r rest (pre ++ x ∷ tl) (pre ++ y ∷ tl1) (laid pre f g rs) h,
        put-at pre tl x c,
        put-at pre tl1 y c,
        joined_entries-null own_metadata n j c r f h,
        joined_entries-null own_values n j c r g h,
      )
      later

-- The nested measure is visited, and its level popped.
component-Pops :
    (dim n c : ℕ) (pre : Point) (k : MClass) (r : MrBase) (rest : List (Msr × ℕ)) (tl tl1 : Point)
    (f : Partial Metadata) (g : Partial ℕ) (rs : Regions) (cm : Measure)
    → Components dim pre n r rs
    → component r c ≡ ok cm
    → cm ≢ null
    → dim ≡ length pre + suc n
    → length pre ≡ suc (length rest)
    → length tl ≡ n
    → length tl1 ≡ suc n
    → Pops dim
        (pre ++ c ∷ [])
        (pred n)
        ((mc_mrbase k r, suc c) ∷ rest)
        (record {
          ms = (is_measure cm, 0) ∷ (mc_mrbase k r, suc c) ∷ rest;
          p = (pre ++ c ∷ []) ++ tl;
          p1 = (pre ++ c ∷ []) ++ tl1;
          regions = laid pre f g rs;
        })
        (entry own_metadata (pred n) cm)
        (entry own_values (pred n) cm)
        (laid pre f g rs)
unfolding laid
component-Pops dim n c pre k r rest tl tl1 f g rs cm comps e ne hd hl ht ht1 =
    let fits : depth cm ≤ n = comps.fits c cm e in
    let room : suc (pred n) ≡ n = suc-pred n (depth cm) (depth_nonzero cm ne) fits in
    comps.visits c cm e (pre ++ c ∷ []) (pred n) ((mc_mrbase k r, suc c) ∷ rest) tl tl1
      (laid pre f g rs) (omega (arith, prefix_length pre c)) (omega (arith, prefix_length pre c))
      (omega arith) (omega arith) (omega arith) ne (comps.in_metadata c cm e)
      (comps.in_values c cm e)

Reaches-at :
    (dim : ℕ) {ms ms' : List (Msr × ℕ)} {p p' p1 p1' q q' q1 q1' : Point} {rs rs1 rs1' : Regions}
    → p ≡ p'
    → p1 ≡ p1'
    → q ≡ q'
    → q1 ≡ q1'
    → rs1 ≡ rs1'
    → Reaches dim
        (record { ms = ms; p = p; p1 = p1; regions = rs })
        (record { ms = ms'; p = q; p1 = q1; regions = rs1 })
    → Reaches dim
        (record { ms = ms; p = p'; p1 = p1'; regions = rs })
        (record { ms = ms'; p = q'; p1 = q1'; regions = rs1' })
Reaches-at dim e e1 h h1 k reach = rw (← e, ← e1, ← h, ← h1, ← k) reach

scan-pushes :
    (dim n j c : ℕ) (pre : Point) (k : MClass) (r : MrBase) (rest : List (Msr × ℕ)) (x y : ℕ)
    (tl tl1 : Point) (f : Partial Metadata) (g : Partial ℕ) (rs : Regions) (cm : Measure)
    → component r c ≡ ok cm
    → cm ≢ null
    → dim ≡ length pre + suc n
    → length pre ≡ suc (length rest)
    → c + suc j ≡ 6
    → Pops dim
        (pre ++ c ∷ [])
        (pred n)
        ((mc_mrbase k r, suc c) ∷ rest)
        (record {
          ms = (is_measure cm, 0) ∷ (mc_mrbase k r, suc c) ∷ rest;
          p = (pre ++ c ∷ []) ++ tl;
          p1 = (pre ++ c ∷ []) ++ tl1;
          regions = laid pre f g rs;
        })
        (entry own_metadata (pred n) cm)
        (entry own_values (pred n) cm)
        (laid pre f g rs)
    → suc (pred n) ≡ n
    → ((tl tl1 : Point)
        → length tl ≡ n
        → length tl1 ≡ suc n
        → Scans dim pre n k r rest j
            (suc c)
            (c ∷ tl)
            (c ∷ tl1)
            (join (under c (component_entries own_metadata n r c)) f)
            (join (under c (component_entries own_values n r c)) g)
            rs)
    → Scans dim pre n k r rest (suc j) c (x ∷ tl) (y ∷ tl1) f g rs
unfolding joined_entries
scan-pushes dim n j c pre k r rest x y tl tl1 f g rs cm e ne hd hl hc (ql, ql1, hq, hq1, popped)
      room later =
    let f' : Partial Metadata = join (under c (component_entries own_metadata n r c)) f in
    let g' : Partial ℕ = join (under c (component_entries own_values n r c)) g in
    let (t, scanned, (pl, pl1, hp, hp1, rests)) =
      later (zeros (length ql)) (zeros (length ql1)) (length-replicate (length ql) 0 ∙ hq ∙ room)
        (length-replicate (length ql1) 0 ∙ hq1 ∙ ap suc room) in
    let popped_at : Reaches dim
        (record {
          ms = (is_measure cm, 0) ∷ (mc_mrbase k r, suc c) ∷ rest;
          p = pre ++ c ∷ tl;
          p1 = pre ++ c ∷ tl1;
          regions = laid pre f g rs;
        })
        (record {
          ms = (mc_mrbase k r, suc c) ∷ rest;
          p = pre ++ c ∷ ql;
          p1 = pre ++ c ∷ ql1;
          regions = laid pre f' g' rs;
        }) =
      Reaches-at dim (regroup pre c tl) (regroup pre c tl1) (regroup pre c ql) (regroup pre c ql1)
        (laid-under pre n c r cm f g rs e) popped in
    (
      record {
        ms = (is_measure cm, 0) ∷ (mc_mrbase k r, suc c) ∷ rest;
        p = pre ++ c ∷ tl;
        p1 = pre ++ c ∷ tl1;
        regions = laid pre f g rs;
      },
      scan-measure j (length pre) c k r rest (pre ++ x ∷ tl) (pre ++ y ∷ tl1) (laid pre f g rs) cm e
            ne
          ∙ rw (put-at pre tl x c, put-at pre tl1 y c) refl,
      (
        pl,
        pl1,
        hp,
        hp1,
        Reaches-trans going (body dim) popped_at (
            Reaches-step dim refl
              (step-mc_mrbase dim pre ql ql1 c c c j k r rest (laid pre f' g' rs) hl (omega arith)
                  (omega arith)
                ∙ scanned)
              rests),
      ),
    )

pub scan-Pops :
    (dim n j c : ℕ) (pre : Point) (k : MClass) (r : MrBase) (rest : List (Msr × ℕ)) (x y : ℕ)
    (tl tl1 : Point) (f : Partial Metadata) (g : Partial ℕ) (rs : Regions)
    → Components dim pre n r rs
    → dim ≡ length pre + suc n
    → length pre ≡ suc (length rest)
    → length tl ≡ n
    → length tl1 ≡ suc n
    → 0 < c
    → c + j ≡ 6
    → Scans dim pre n k r rest j c (x ∷ tl) (y ∷ tl1) f g rs
scan-Pops dim n zero c pre k r rest x y tl tl1 f g rs comps hd hl ht ht1 lo hc = (
  record { ms = rest; p = pre ++ x ∷ tl; p1 = pre ++ y ∷ tl1; regions = laid pre f g rs },
  unfold scan in refl,
  (x ∷ tl, y ∷ tl1, ap suc ht, ap suc ht1, unfold joined_entries in here),
)
scan-Pops dim n (suc j) c pre k r rest x y tl tl1 f g rs comps hd hl ht ht1 lo hc =
    elim (Component-cases r c lo (omega arith)) [
      | inl e ↦ scan-skips dim n j c pre k r rest x y tl tl1 f g rs e (
          scan-Pops dim n j (suc c) pre k r rest c c tl tl1 f g rs comps hd hl ht ht1 (omega arith)
            (omega arith))
      | inr (cm, e, ne) ↦
          scan-pushes dim n j c pre k r rest x y tl tl1 f g rs cm e ne hd hl hc
            (component-Pops dim n c pre k r rest tl tl1 f g rs cm comps e ne hd hl ht ht1)
            (suc-pred n (depth cm) (depth_nonzero cm ne) (comps.fits c cm e))
            (λ ql ql1 hq hq1.
              scan-Pops dim n j (suc c) pre k r rest c c ql ql1
                (join (under c (component_entries own_metadata n r c)) f)
                (join (under c (component_entries own_values n r c)) g) rs comps hd hl hq hq1
                (omega arith) (omega arith))
    ]
