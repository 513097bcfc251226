-- ===== src/Utility/Redop/Rows.antt =====
-- The rows that the loop of acc_field_redop::combine makes of two vectors of rows.
use legms.Prelude.{
  ℕ, zero, suc, ◌+◌, ◌-◌, ◌*◌, ◌<◌, ◌≡◌, refl, ap, sym, subst, ◌∙◌, Bool, true, false, ◌||◌, List,
  [], ◌∷◌, ◌++◌, Option, none, some, leb, Result, ok, throws, length, get_elem?, arith, Bool-cases,
  ◌⊎◌, inl, inr, ◌≢◌,
}
use legms.Utility.Redop.{Comparison, insert_at, merge_rows, merge_at, join_rows}

length-insert_at {ℓ} :
    {A : Type ℓ} (k : ℕ) (r : A) (rows : List A) → length (insert_at k r rows) ≡ suc (length rows)
unfolding insert_at
length-insert_at zero r rows = refl
length-insert_at (suc k) r [] = refl
length-insert_at (suc k) r (x ∷ rows) = omega (arith, length-insert_at k r rows)

pub get_elem?-below {ℓ} :
    {A : Type ℓ} (rows : List A) (l : ℕ) {x : A} → get_elem? rows l ≡ some x → l < length rows
get_elem?-below [] l e = cc
get_elem?-below (y ∷ rows) zero e = omega arith
get_elem?-below (y ∷ rows) (suc l) e = omega (arith, get_elem?-below rows l e)

pub throws_ne_ok {ℓ} : {A : Type ℓ} (a : A) → throws ≢ ok a
throws_ne_ok a = cc

module _ {ℓ} {R : Type ℓ} (c : Comparison R) where
  unfoldable pub elem : R → List R → Bool
  elem x [] = false
  elem x (r ∷ rows) = c.beq x r || elem x rows

  elem-insert_at :
      (x : R) (k : ℕ) (r : R) (rows : List R)
      → elem x (insert_at k r rows) ≡ (c.beq x r || elem x rows)
  unfolding elem insert_at
  elem-insert_at x zero r rows = refl
  elem-insert_at x (suc k) r [] = refl
  elem-insert_at x (suc k) r (y ∷ rows) = ground (arith, elem-insert_at x k r rows)

  elem-append : (x : R) (rows more : List R) → elem x (rows ++ more) ≡ (elem x rows || elem x more)
  unfolding elem
  elem-append x [] more = refl
  elem-append x (y ∷ rows) more = ground (arith, elem-append x rows more)

  elem-get_elem? :
      (x : R) (rows : List R) (l : ℕ)
      → get_elem? rows l ≡ some x
      → (y : R) → c.beq y x ≡ true
      → elem y rows ≡ true
  unfolding elem
  elem-get_elem? x [] l e y h = cc
  elem-get_elem? x (z ∷ rows) zero e y h = ground arith
  elem-get_elem? x (z ∷ rows) (suc l) e y h = ground (arith, elem-get_elem? x rows l e y h)

  -- The loop runs into an iterator in front of the vector, or gives the rows of both vectors.
  abbrev pub Joins : List R → List R → Result (List R) → Type ℓ
  Joins lrns rns res =
      (res ≡ throws)
      ⊎ ((rows : List R) × (res ≡ ok rows) × ((x : R) → elem x rows ≡ (elem x lrns || elem x rns)))

  no_rows : (x : R) (rows : List R) → elem x rows ≡ (elem x rows || elem x [])
  unfolding elem
  no_rows x rows = ground arith

  inserted-Joins :
      (l : ℕ) (lrns : List R) (r : R) (rns : List R) {res : Result (List R)}
      → Joins (insert_at l r lrns) rns res
      → Joins lrns (r ∷ rns) res
  unfolding elem
  inserted-Joins l lrns r rns (inl e) = inl e
  inserted-Joins l lrns r rns (inr (rows, e, h)) =
      inr (rows, e, λ x. ground (arith, h x, elem-insert_at x l r lrns))

  found-Joins :
      (l : ℕ) (lrns : List R) (r y : R) (rns : List R) {res : Result (List R)}
      → get_elem? lrns l ≡ some y
      → c.beq r y ≡ true
      → Joins lrns rns res
      → Joins lrns (r ∷ rns) res
  unfolding elem
  found-Joins l lrns r y rns at same (inl e) = inl e
  found-Joins l lrns r y rns at same (inr (rows, e, h)) =
      let r_y = (c.beq_iff r y).0 same in
      inr (rows, e, λ x. ground (arith, h x, ap (c.beq x) r_y, elem-get_elem? y lrns l at x))

  -- The rounds, one equation for each branch.
  module _ (again : ℕ → List R → List R → Result (List R)) (l : ℕ) (lrns : List R) (r x : R)
      (rns : List R) where
    before :
        c.lt r x ≡ true
        → leb l 1 ≡ true
        → merge_at c again l lrns r rns (some x) ≡ again (1 - l) (insert_at l r lrns) rns
    unfolding merge_at insert_at
    before less near = rw (merge_at, less, near) refl

    before_far : c.lt r x ≡ true → leb l 1 ≡ false → merge_at c again l lrns r rns (some x) ≡ throws
    unfolding merge_at
    before_far less far = rw (merge_at, less, far) refl

    pub same_row :
        c.lt r x ≡ false
        → c.beq r x ≡ true
        → merge_at c again l lrns r rns (some x) ≡ again l lrns rns
    unfolding merge_at
    same_row not_less same = rw (merge_at, not_less, same) refl

    behind :
        c.lt r x ≡ false
        → c.beq r x ≡ false
        → merge_at c again l lrns r rns (some x) ≡ again (suc l) lrns (r ∷ rns)
    unfolding merge_at
    behind not_less apart = rw (merge_at, not_less, apart) refl

  along :
      (lrns rns : List R) {res res' : Result (List R)}
      → res ≡ res'
      → Joins lrns rns res'
      → Joins lrns rns res
  along lrns rns e joins = subst (Joins lrns rns) (sym e) joins

  merge_at-Joins :
      (again : ℕ → List R → List R → Result (List R)) (m l : ℕ) (lrns : List R) (r : R)
      (rns : List R) (o : Option R)
      → ((k : ℕ) (lrns' rns' : List R)
          → 3 * length rns' + (length lrns' - k) < m
          → Joins lrns' rns' (again k lrns' rns'))
      → get_elem? lrns l ≡ o
      → 3 * suc (length rns) + (length lrns - l) < suc m
      → Joins lrns (r ∷ rns) (merge_at c again l lrns r rns o)
  unfolding merge_at
  merge_at-Joins again m l lrns r rns none rounds e h =
      inr (lrns ++ r ∷ rns, refl, λ x. elem-append x lrns (r ∷ rns))
  merge_at-Joins again m l lrns r rns (some y) rounds e h =
      let room : l < length lrns = get_elem?-below lrns l e in
      elim (Bool-cases (c.lt r y)) [
        | inl less ↦ elim (Bool-cases (leb l 1)) [
          | inl near ↦ along lrns (r ∷ rns) (before again l lrns r y rns less near) (
              inserted-Joins l lrns r rns (
                rounds (1 - l) (insert_at l r lrns) rns
                  (ground (arith, length-insert_at l r lrns))))
          | inr far ↦ inl (before_far again l lrns r y rns less far)
        ]
        | inr not_less ↦ elim (Bool-cases (c.beq r y)) [
          | inl same ↦
              along lrns (r ∷ rns) (same_row again l lrns r y rns not_less same)
                (found-Joins l lrns r y rns e same (rounds l lrns rns (omega arith)))
          | inr apart ↦
              along lrns (r ∷ rns) (behind again l lrns r y rns not_less apart)
                (rounds (suc l) lrns (r ∷ rns) (omega arith))
        ]
      ]

  merge_rows-Joins :
      (f l : ℕ) (lrns rns : List R)
      → 3 * length rns + (length lrns - l) < f
      → Joins lrns rns (merge_rows c f l lrns rns)
  unfolding merge_rows
  merge_rows-Joins zero l lrns rns h = absurd (omega arith)
  merge_rows-Joins (suc f) l lrns [] h = inr (lrns, refl, λ x. no_rows x lrns)
  merge_rows-Joins (suc f) l lrns (r ∷ rns) h =
      merge_at-Joins (λ k lrns' rns'. merge_rows c f k lrns' rns') f l lrns r rns (get_elem? lrns l)
        (merge_rows-Joins f) refl (omega arith)

  -- The loop that joins two vectors of rows ends. It gives a vector with the rows of both, unless it
  -- moves its iterator in front of the first row.
  pub join_rows-Joins : (lrns rns : List R) → Joins lrns rns (join_rows c lrns rns)
  unfolding join_rows
  join_rows-Joins lrns rns =
      merge_rows-Joins (suc (3 * length rns + length lrns)) 0 lrns rns (omega arith)

  pub pass :
      (f l : ℕ) (lrns : List R) (r x : R) (rns : List R)
      → get_elem? lrns l ≡ some x
      → c.lt r x ≡ false
      → c.beq r x ≡ false
      → merge_rows c (suc f) l lrns (r ∷ rns) ≡ merge_rows c f (suc l) lrns (r ∷ rns)
  unfolding merge_rows
  pass f l lrns r x rns at not_less apart =
      ap (merge_at c (λ k lrns' rns'. merge_rows c f k lrns' rns') l lrns r rns) at
      ∙ behind (λ k lrns' rns'. merge_rows c f k lrns' rns') l lrns r x rns not_less apart

  stop :
      (f l : ℕ) (lrns : List R) (r x : R) (rns : List R)
      → get_elem? lrns l ≡ some x
      → c.lt r x ≡ true
      → leb l 1 ≡ false
      → merge_rows c (suc f) l lrns (r ∷ rns) ≡ throws
  unfolding merge_rows
  stop f l lrns r x rns at less far =
      ap (merge_at c (λ k lrns' rns'. merge_rows c f k lrns' rns') l lrns r rns) at
      ∙ before_far (λ k lrns' rns'. merge_rows c f k lrns' rns') l lrns r x rns less far

  -- A row that is neither less than nor equal to each of the first two rows, and less than the
  -- third one, moves the iterator of the loop in front of the first row.
  pub join_rows-throws :
      (r x y z : R) (lrns rns : List R)
      → c.lt r x ≡ false
      → c.beq r x ≡ false
      → c.lt r y ≡ false
      → c.beq r y ≡ false
      → c.lt r z ≡ true
      → join_rows c (x ∷ y ∷ z ∷ lrns) (r ∷ rns) ≡ throws
  unfolding join_rows
  join_rows-throws r x y z lrns rns rx rx' ry ry' rz =
      let rows = x ∷ y ∷ z ∷ lrns in
      let fuel : ℕ = 3 * length rns + length lrns + 1 in
      let enough : suc (3 * length (r ∷ rns) + length rows)
          ≡ suc (suc (suc (suc (suc (suc fuel))))) =
        omega arith in
      ap (λ f. merge_rows c f 0 rows (r ∷ rns)) enough
      ∙ pass (suc (suc (suc (suc (suc fuel))))) 0 rows r x rns refl rx rx'
      ∙ pass (suc (suc (suc (suc fuel)))) 1 rows r y rns refl ry ry'
      ∙ stop (suc (suc (suc fuel))) 2 rows r z rns refl rz refl
