-- ===== src/Utility/Redop/Late.antt =====
-- The rows of two vectors, where the loop of acc_field_redop::combine inserts none.
use legms.Prelude.{
  ℕ, zero, suc, ◌+◌, ◌-◌, ◌*◌, ◌<◌, ◌≡◌, refl, ap, sym, ◌∙◌, true, false, ◌||◌, List, [], ◌∷◌, ◌++◌,
  none, some, Result, ok, length, get_elem?, arith, Bool-cases, inl, inr, All, Option-cases,
}
use legms.Utility.Redop.{Comparison, merge_rows, merge_at, join_rows}
use legms.Utility.Redop.Rows.{
  elem, get_elem?-below, throws_ne_ok, same_row, pass, Joins, join_rows-Joins,
}

module _ {ℓ} {R : Type ℓ} (c : Comparison R) where
  -- No row stands in front of a row of the vector.
  abbrev pub NoneBefore : List R → List R → Type ℓ
  NoneBefore lrns rns =
      All (λ r. (j : ℕ) (y : R) → get_elem? lrns j ≡ some y → c.lt r y ≡ false) rns

  at_end :
      (f l : ℕ) (lrns : List R) (r : R) (rns : List R)
      → get_elem? lrns l ≡ none
      → merge_rows c (suc f) l lrns (r ∷ rns) ≡ ok (lrns ++ r ∷ rns)
  unfolding merge_rows merge_at
  at_end f l lrns r rns at =
      ap (merge_at c (λ k lrns' rns'. merge_rows c f k lrns' rns') l lrns r rns) at

  skip :
      (f l : ℕ) (lrns : List R) (r x : R) (rns : List R)
      → get_elem? lrns l ≡ some x
      → c.lt r x ≡ false
      → c.beq r x ≡ true
      → merge_rows c (suc f) l lrns (r ∷ rns) ≡ merge_rows c f l lrns rns
  unfolding merge_rows
  skip f l lrns r x rns at not_less same =
      ap (merge_at c (λ k lrns' rns'. merge_rows c f k lrns' rns') l lrns r rns) at
      ∙ same_row c (λ k lrns' rns'. merge_rows c f k lrns' rns') l lrns r x rns not_less same

  merge_rows_returns :
      (f l : ℕ) (lrns rns : List R)
      → NoneBefore lrns rns
      → 3 * length rns + (length lrns - l) < f
      → (rows : List R) × (merge_rows c f l lrns rns ≡ ok rows)
  unfolding merge_rows
  merge_rows_returns zero l lrns rns late h = absurd (omega arith)
  merge_rows_returns (suc f) l lrns [] late h = (lrns, refl)
  merge_rows_returns (suc f) l lrns (r ∷ rns) late h = elim (Option-cases (get_elem? lrns l)) [
    | inl e ↦ (lrns ++ r ∷ rns, at_end f l lrns r rns e)
    | inr (y, e) ↦
        let room : l < length lrns = get_elem?-below lrns l e in
        let not_less = late.0 l y e in
        elim (Bool-cases (c.beq r y)) [
          | inl same ↦
              let (rows, done) = merge_rows_returns f l lrns rns late.1 (omega arith) in
              (rows, skip f l lrns r y rns e not_less same ∙ done)
          | inr apart ↦
              let (rows, done) = merge_rows_returns f (suc l) lrns (r ∷ rns) late (omega arith) in
              (rows, pass c f l lrns r y rns e not_less apart ∙ done)
        ]
  ]

  join_rows_returns :
      (lrns rns : List R) → NoneBefore lrns rns → (rows : List R) × (join_rows c lrns rns ≡ ok rows)
  unfolding join_rows
  join_rows_returns lrns rns late =
      merge_rows_returns (suc (3 * length rns + length lrns)) 0 lrns rns late (omega arith)

  union_of :
      (lrns rns : List R) (res : Result (List R))
      → ((rows : List R) × (res ≡ ok rows))
      → Joins c lrns rns res
      → (rows : List R) × (res ≡ ok rows)
        × ((x : R) → elem c x rows ≡ (elem c x lrns || elem c x rns))
  union_of lrns rns res (rows, done) (inl stopped) = absurd (throws_ne_ok rows (sym stopped ∙ done))
  union_of lrns rns res (rows, done) (inr found) = found

  -- The loop that joins two vectors of rows gives a vector with the rows of both, if no row of the
  -- second one is less than a row of the first one.
  pub join_rows_union :
      (lrns rns : List R)
      → NoneBefore lrns rns
      → (rows : List R) × (join_rows c lrns rns ≡ ok rows)
        × ((x : R) → elem c x rows ≡ (elem c x lrns || elem c x rns))
  join_rows_union lrns rns late =
      union_of lrns rns (join_rows c lrns rns) (join_rows_returns lrns rns late)
        (join_rows-Joins c lrns rns)
