-- ===== src/Utility/Redop.antt =====
-- hyperion/utility.h: `acc_field_redop`, which joins vectors of values with the rows where each value
-- stands, sorted by value. The comparisons of values and of rows (DomainPoints of Legion) are given.
pub mod Rows
pub mod Late
pub mod Sorted
pub mod Combine
use legms.Prelude.{
  ℕ, zero, suc, ◌+◌, ◌-◌, ◌*◌, ◌≡◌, ◌↔◌, Bool, true, false, List, [], ◌∷◌, ◌++◌, Option, none, some,
  leb, ltb, if◌then◌else◌, Result, ok, throws, out_of_fuel, ◌>>=◌, length, get_elem?,
}

-- operator< and operator== of a type.
pub record Comparison {ℓ} (A : Type ℓ) : Type ℓ where
  pub lt : A → A → Bool
  pub beq : A → A → Bool
  pub beq_iff : (a b : A) → (beq a b ≡ true) ↔ (a ≡ b)

-- lrns.insert(lrns.begin() + k, r)
unfoldable pub insert_at {ℓ} : {A : Type ℓ} → ℕ → A → List A → List A
insert_at zero r lrns = r ∷ lrns
insert_at (suc k) r [] = r ∷ []
insert_at (suc k) r (x ∷ lrns) = x ∷ insert_at k r lrns

module _ {ℓ} {R : Type ℓ} (c : Comparison R) where
  -- One round of the loop, with `l` as an offset in `lrns`, the row there, and `again` for the rounds
  -- that follow; the copy behind the loop. After an insertion the code sets `lo` to
  -- std::distance(l, lrns.begin()), which is -l, and the iterator to lrns.begin() + lo + 1; in front
  -- of the first element its use is undefined, and the model stops.
  unfoldable pub merge_at :
      (ℕ → List R → List R → Result (List R)) → ℕ → List R → R → List R → Option R → Result (List R)
  unfolding insert_at
  merge_at again l lrns r rns none = ok (lrns ++ r ∷ rns)
  merge_at again l lrns r rns (some x) = elim (c.lt r x) [
    | true ↦ elim (leb l 1) [ true ↦ again (1 - l) (insert_at l r lrns) rns | false ↦ throws ]
    | false ↦ elim (c.beq r x) [ true ↦ again l lrns rns | false ↦ again (suc l) lrns (r ∷ rns) ]
  ]

  unfoldable pub merge_rows : ℕ → ℕ → List R → List R → Result (List R)
  unfolding merge_at
  merge_rows zero l lrns rns = out_of_fuel
  merge_rows (suc f) l lrns [] = ok lrns
  merge_rows (suc f) l lrns (r ∷ rns) =
      merge_at (λ l' lrns' rns'. merge_rows f l' lrns' rns') l lrns r rns (get_elem? lrns l)

  -- The loop from lrns.begin(), with fuel for every step.
  unfoldable pub join_rows : List R → List R → Result (List R)
  unfolding merge_rows
  join_rows lrns rns = merge_rows (suc (3 * length rns + length lrns)) 0 lrns rns

module _ {ℓ κ} {T : Type ℓ} {R : Type κ} (ct : Comparison T) (c : Comparison R) where
  -- One value of the loop: std::lower_bound, and what is done at the place that it finds. It wants the
  -- values less than `t` to stand in front of the others, as in a sorted vector, and finds the first
  -- place that has none of them; here the places are tried in turn.
  unfoldable pub add_rows : T → List R → List (T × List R) → Result (List (T × List R))
  unfolding join_rows
  add_rows t rns [] = ok ((t, rns) ∷ [])
  add_rows t rns ((u, lrns) ∷ lhs) =
      let further = add_rows t rns lhs >>= λ lhs'. ok ((u, lrns) ∷ lhs') in
      let joined = join_rows c lrns rns >>= λ both. ok ((u, both) ∷ lhs) in
      if ct.lt u t then further else if ct.beq u t then joined else ok ((t, rns) ∷ (u, lrns) ∷ lhs)

  -- std::for_each over rhs.v
  unfoldable pub add_fields : List (T × List R) → List (T × List R) → Result (List (T × List R))
  unfolding add_rows
  add_fields lhs [] = ok lhs
  add_fields lhs ((t, rns) ∷ v) =
      (if ltb 0 (length rns) then add_rows t rns lhs else ok lhs) >>= λ lhs'. add_fields lhs' v

  unfoldable pub combine : List (T × List R) → List (T × List R) → Result (List (T × List R))
  unfolding add_fields
  combine [] v = ok v
  combine (field ∷ lhs) v = add_fields (field ∷ lhs) v
