-- ===== src/Utility/Redop/Combine.antt =====
-- The rows of every value after acc_field_redop::combine.
use legms.Prelude.{
  ◌≡◌, refl, ap, sym, ◌∙◌, true, false, ◌||◌, List, [], ◌∷◌, ltb, Result, ok, throws, ◌>>=◌,
  if◌then◌else◌, length, arith, Bool-cases, ◌⊎◌, inl, inr, ◌≢◌,
}
use legms.Utility.Redop.{Comparison, join_rows, add_rows, add_fields, combine}
use legms.Utility.Redop.Rows.{elem, Joins, join_rows-Joins}
use legms.Utility.Redop.Sorted.{IsOrder, Entry, IsSorted, has_row}

module _ {T R : Type 0} (ct : Comparison T) (c : Comparison R) where
  -- A sorted vector with the rows of both vectors, for every value; or an iterator in front of its vector,
  -- for which there is a value of both vectors where the loop that joins the rows moves it there.
  abbrev pub Combines : List (T × List R) → List (T × List R) → Result (List (T × List R)) → Type 0
  Combines lhs v res =
      ((fields : List (T × List R)) × (res ≡ ok fields)
        × IsSorted ct fields
        × ((t : T) (x : R)
            → has_row ct c t x fields ≡ (has_row ct c t x lhs || has_row ct c t x v)))
      ⊎ ((res ≡ throws)
          × ((t : T) × (lrns : List R) × (rns : List R) × Entry t lrns lhs
              × Entry t rns v
              × (join_rows c lrns rns ≡ throws)))

  -- The same after one value, where each value of the new vector is an old one or `t`.
  abbrev Adds : T → List R → List (T × List R) → Result (List (T × List R)) → Type 0
  Adds t rns lhs res =
      ((fields : List (T × List R)) × (res ≡ ok fields)
        × IsSorted ct fields
        × ((s : T) (rows : List R) → Entry s rows fields → Entry s rows lhs ⊎ (s ≡ t))
        × ((s : T) (x : R)
            → has_row ct c s x fields ≡ (has_row ct c s x lhs || has_row ct c s x ((t, rns) ∷ []))))
      ⊎ ((res ≡ throws) × ((lrns : List R) × Entry t lrns lhs × (join_rows c lrns rns ≡ throws)))

  kept-Adds :
      (u t : T) (lrns rns : List R) (lhs : List (T × List R)) (res : Result (List (T × List R)))
      → ct.lt u t ≡ true
      → IsSorted ct ((u, lrns) ∷ lhs)
      → Adds t rns lhs res
      → Adds t rns ((u, lrns) ∷ lhs) (res >>= λ lhs'. ok ((u, lrns) ∷ lhs'))
  unfolding has_row IsSorted Entry
  kept-Adds u t lrns rns lhs res less (front, sorted) (inl (fields, e, sorted', from, h)) = inl (
    (u, lrns) ∷ fields,
    rw e refl,
    (
      λ s rows at. elim (from s rows at) [ inl old ↦ front s rows old | inr same ↦ rw same less ],
      sorted',
    ),
    kept,
    λ s x. ground (arith, h s x),
  )
    where
      kept :
          (s : T) (rows : List R)
          → Entry s rows ((u, lrns) ∷ fields)
          → Entry s rows ((u, lrns) ∷ lhs) ⊎ (s ≡ t)
      kept s rows (inl here) = inl (inl here)
      kept s rows (inr at) = elim (from s rows at) [ inl old ↦ inl (inr old) | inr same ↦ inr same ]
  kept-Adds u t lrns rns lhs res less sorted (inr (e, (rows, at, stops))) =
      inr (rw e refl, (rows, inr at, stops))

  joined-Adds :
      (u t : T) (lrns rns : List R) (lhs : List (T × List R)) (res : Result (List R))
      → join_rows c lrns rns ≡ res
      → ct.beq u t ≡ true
      → IsSorted ct ((u, lrns) ∷ lhs)
      → Joins c lrns rns res
      → Adds t rns ((u, lrns) ∷ lhs) (res >>= λ both. ok ((u, both) ∷ lhs))
  unfolding has_row IsSorted Entry
  joined-Adds u t lrns rns lhs res join same sorted (inl e) =
      let u_t = (ct.beq_iff u t).0 same in
      inr (rw e refl, (lrns, inl (ap (λ w. (w, lrns)) (sym u_t)), join ∙ e))
  joined-Adds u t lrns rns lhs res join same sorted (inr (both, e, h)) =
      let u_t = (ct.beq_iff u t).0 same in
      inl
        ((u, both) ∷ lhs, rw e refl, sorted, joined, λ s x. ground (arith, h x, ap (ct.beq s) u_t))
    where
      joined :
          (s : T) (rows : List R)
          → Entry s rows ((u, both) ∷ lhs)
          → Entry s rows ((u, lrns) ∷ lhs) ⊎ (s ≡ t)
      joined s rows (inl here) = inr (ap (λ field. field.0) here ∙ (ct.beq_iff u t).0 same)
      joined s rows (inr at) = inl (inr at)

  new_from :
      (t : T) (rns : List R) (lhs : List (T × List R)) (s : T) (rows : List R)
      → Entry s rows ((t, rns) ∷ lhs)
      → Entry s rows lhs ⊎ (s ≡ t)
  unfolding Entry
  new_from t rns lhs s rows (inl here) = inr (ap (λ field. field.0) here)
  new_from t rns lhs s rows (inr at) = inl at

  new-Adds :
      (t : T) (rns : List R) (lhs : List (T × List R))
      → IsSorted ct ((t, rns) ∷ lhs)
      → Adds t rns lhs (ok ((t, rns) ∷ lhs))
  unfolding has_row
  new-Adds t rns lhs sorted =
      inl ((t, rns) ∷ lhs, refl, sorted, new_from t rns lhs, λ s x. ground arith)

  no_rows-Adds :
      (t : T) (rns : List R) (lhs : List (T × List R))
      → ltb 0 (length rns) ≡ false
      → IsSorted ct lhs
      → Adds t rns lhs (ok lhs)
  unfolding has_row elem
  no_rows-Adds t [] lhs e sorted = inl (lhs, refl, sorted, λ s rows at. inl at, λ s x. ground arith)
  no_rows-Adds t (r ∷ rns) lhs e sorted = absurd (ground arith)

  module _ (order : IsOrder ct) where
    -- A value less than the first one of a sorted vector goes in front of it.
    in_front :
        (t u : T) (rns lrns : List R) (lhs : List (T × List R))
        → ct.lt t u ≡ true
        → IsSorted ct ((u, lrns) ∷ lhs)
        → IsSorted ct ((t, rns) ∷ (u, lrns) ∷ lhs)
    unfolding IsSorted Entry
    in_front t u rns lrns lhs less (front, sorted) = (behind, (front, sorted))
      where
        behind : (s : T) (rows : List R) → Entry s rows ((u, lrns) ∷ lhs) → ct.lt t s ≡ true
        behind s rows (inl here) = rw (ap (λ field. field.0) here) less
        behind s rows (inr at) = order.transitive t u s less (front s rows at)

    add_rows-Adds :
        (t : T) (rns : List R) (lhs : List (T × List R))
        → IsSorted ct lhs
        → Adds t rns lhs (add_rows ct c t rns lhs)
    unfolding add_rows IsSorted Entry
    add_rows-Adds t rns [] sorted = new-Adds t rns [] (λ s rows at. absurd at, tt)
    add_rows-Adds t rns ((u, lrns) ∷ lhs) sorted = elim (Bool-cases (ct.lt u t)) [
      | inl before ↦ rw before (
          kept-Adds u t lrns rns lhs (add_rows ct c t rns lhs) before sorted
            (add_rows-Adds t rns lhs sorted.1))
      | inr here ↦ elim (Bool-cases (ct.beq u t)) [
        | inl same ↦ rw here (
            rw same (
              joined-Adds u t lrns rns lhs (join_rows c lrns rns) refl same sorted
                (join_rows-Joins c lrns rns)))
        | inr apart ↦ rw here (
            rw apart (
              new-Adds t rns ((u, lrns) ∷ lhs)
                (in_front t u rns lrns lhs (order.total u t here apart) sorted)))
      ]
    ]

    not_again : (s t : T) → ct.lt t s ≡ true → s ≢ t
    not_again s t less same = cc (order.irreflexive s, ap (λ u. ct.lt u s) same)

    in_turn :
        (lhs v : List (T × List R)) (t : T) (rns : List R) (res : Result (List (T × List R)))
        (more : List (T × List R) → Result (List (T × List R)))
        → IsSorted ct ((t, rns) ∷ v)
        → Adds t rns lhs res
        → ((lhs' : List (T × List R)) → IsSorted ct lhs' → Combines lhs' v (more lhs'))
        → Combines lhs ((t, rns) ∷ v) (res >>= more)
    unfolding has_row IsSorted Entry
    in_turn lhs v t rns res more sorted (inr (e, (lrns, at, stops))) rest =
        inr (rw e refl, (t, lrns, rns, at, inl refl, stops))
    in_turn lhs v t rns res more (front, sorted) (inl (fields, e, sorted', from, h)) rest =
        elim (rest fields sorted') [
          | inl (last, done, sorted'', same) ↦
              inl (last, rw e done, sorted'', λ s x. ground (arith, h s x, same s x))
          | inr (stopped, (s, lrns, rows, at, at', stops)) ↦ elim (from s lrns at) [
            | inl old ↦ inr (rw e stopped, (s, lrns, rows, old, inr at', stops))
            | inr same ↦ absurd (not_again s t (front s rows at') same)
          ]
        ]

    no_fields :
        (t : T) (x : R) (lhs : List (T × List R))
        → has_row ct c t x lhs ≡ (has_row ct c t x lhs || has_row ct c t x [])
    unfolding has_row
    no_fields t x lhs = ground arith

    add_fields-Combines :
        (lhs v : List (T × List R))
        → IsSorted ct lhs
        → IsSorted ct v
        → Combines lhs v (add_fields ct c lhs v)
    unfolding add_fields IsSorted
    add_fields-Combines lhs [] sorted sorted' = inl (lhs, refl, sorted, λ t x. no_fields t x lhs)
    add_fields-Combines lhs ((t, rns) ∷ v) sorted sorted' =
        in_turn lhs v t rns (if ltb 0 (length rns) then add_rows ct c t rns lhs else ok lhs)
          (λ lhs'. add_fields ct c lhs' v) sorted'
          (elim (Bool-cases (ltb 0 (length rns))) [
            | inl some_rows ↦ rw some_rows (add_rows-Adds t rns lhs sorted)
            | inr none ↦ rw none (no_rows-Adds t rns lhs none sorted)
          ])
          (λ lhs' sorted''. add_fields-Combines lhs' v sorted'' sorted'.1)

    -- For a strict order of the values and two vectors in that order, combine ends. It gives a vector in
    -- that order, which has each value once and for every value the rows of both vectors; or it moves an
    -- iterator in front of the first row, and then there is a value of both vectors for which the loop
    -- that joins its rows does so.
    pub combine-Combines :
        (lhs v : List (T × List R))
        → IsSorted ct lhs
        → IsSorted ct v
        → Combines lhs v (combine ct c lhs v)
    unfolding combine has_row
    combine-Combines [] v sorted sorted' = inl (v, refl, sorted', λ t x. refl)
    combine-Combines (field ∷ lhs) v sorted sorted' =
        add_fields-Combines (field ∷ lhs) v sorted sorted'
