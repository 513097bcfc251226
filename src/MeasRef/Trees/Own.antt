-- ===== src/MeasRef/Trees/Own.antt =====
-- The entries that a measure itself has, at different numbers of levels.
use legms.Prelude.{
  ℕ, zero, suc, ◌+◌, ◌<◌, ◌≡◌, refl, ap, sym, ◌∙◌, subst, true, false, List, [], ◌∷◌, ◌++◌, arith,
  length, Option, none, get_elem?, if◌then◌else◌, Bool-cases, inl, inr, if_true, if_false,
  length-replicate,
}
use legms.IndexTree.Iterator.Coverage.{list_eq}
use legms.MeasRef.Measure.{MClass}
use legms.MeasRef.Entries.{own_metadata, own_values}
use legms.MeasRef.Points.{zeros, list_eq_refl}
use legms.MeasRef.Instantiate.States.{is_some}
use legms.MeasRef.Extend.Prefixes.{list_eq_sound}
use legms.MeasRef.Trees.Children.{OwnLaws}

zeros_add : (n j : ℕ) → zeros (n + j) ≡ zeros n ++ zeros j
zeros_add zero j = ap zeros (zero_add j)
  where
    zero_add : (j : ℕ) → 0 + j ≡ j
    zero_add j = omega arith
zeros_add (suc n) j = ap zeros (suc_add n j) ∙ ap (λ q. 0 ∷ q) (zeros_add n j)
  where
    suc_add : (n j : ℕ) → suc n + j ≡ suc (n + j)
    suc_add n j = omega arith

-- A value that stands where coordinates are 0.
at_zeros : {A : Type 0} (n : ℕ) (q : List ℕ) (o : Option A) → Option A
at_zeros n q o = if list_eq (zeros n) q then o else none

at_zeros_some :
    {A : Type 0} (n : ℕ) (q : List ℕ) (o : Option A)
    → is_some (at_zeros n q o) ≡ true
    → (q ≡ zeros n) × (is_some o ≡ true)
unfolding at_zeros
at_zeros_some n q o h = elim (Bool-cases (list_eq (zeros n) q)) [
  | inl e ↦ (
    sym (list_eq_sound (zeros n) q e),
    ap is_some (sym (if_true (list_eq (zeros n) q) o none e)) ∙ h,
  )
  | inr e ↦
      let nothing : is_some none ≡ true =
        ap is_some (sym (if_false (list_eq (zeros n) q) o none e)) ∙ h in
      absurd (unfold is_some in cc)
]

at_zeros_there :
    {A : Type 0} (n : ℕ) (q : List ℕ) (o : Option A)
    → q ≡ zeros n
    → is_some o ≡ true
    → is_some (at_zeros n q o) ≡ true
unfolding at_zeros
at_zeros_there n q o e h =
    ap is_some (
      if_true (list_eq (zeros n) q) o none
        (subst (λ p. list_eq (zeros n) p ≡ true) (sym e) (list_eq_refl (zeros n))))
    ∙ h

-- VALUE of the metadata, at 0 … 0.
pub own_metadata-laws : OwnLaws own_metadata 0
unfolding own_metadata at_zeros
own_metadata-laws = record {
  long = λ n vs k t q h.
      let (e, there) = at_zeros_some n q _ h in ap length e ∙ length-replicate n 0 ∙ omega arith;
  shortens = λ n j vs k t q h.
      let (e, there) = at_zeros_some (n + j) q _ h in
      (zeros n, at_zeros_there n (zeros n) _ refl there, e ∙ zeros_add n j);
  lengthens = λ n j vs k t v h.
      let (e, there) = at_zeros_some n v _ h in
      at_zeros_there (n + j) (v ++ zeros j) _ (ap (λ q. q ++ zeros j) e ∙ sym (zeros_add n j))
        there;
  some_own = λ n vs k t h. (zeros n, at_zeros_there n (zeros n) _ refl (unfold is_some in refl));
}

no_value : (n : ℕ) (vs : List ℕ) (k : MClass) (t : ℕ) → is_some (own_values n vs k t []) ≡ false
unfolding own_values is_some
no_value n vs k t = refl

value_at :
    (n : ℕ) (vs : List ℕ) (k : MClass) (t i : ℕ) (q : List ℕ)
    → own_values n vs k t (i ∷ q) ≡ at_zeros n q (get_elem? vs i)
unfolding own_values at_zeros
value_at n vs k t i q = refl

value_some :
    (n : ℕ) (vs : List ℕ) (k : MClass) (t : ℕ) (q : List ℕ)
    → is_some (own_values n vs k t q) ≡ true
    → (i : ℕ) × (q ≡ i ∷ zeros n) × (is_some (get_elem? vs i) ≡ true)
value_some n vs k t [] h = cc (no_value n vs k t)
value_some n vs k t (i ∷ q) h =
    let (e, there) =
      at_zeros_some n q (get_elem? vs i) (ap is_some (sym (value_at n vs k t i q)) ∙ h) in
    (i, ap (λ q. i ∷ q) e, there)

value_there :
    (n : ℕ) (vs : List ℕ) (k : MClass) (t i : ℕ) (q : List ℕ)
    → q ≡ i ∷ zeros n
    → is_some (get_elem? vs i) ≡ true
    → is_some (own_values n vs k t q) ≡ true
value_there n vs k t i q e h =
    ap (λ q. is_some (own_values n vs k t q)) e
    ∙ ap is_some (value_at n vs k t i (zeros n))
    ∙ at_zeros_there n (zeros n) (get_elem? vs i) refl h

first_value : (vs : List ℕ) → 0 < length vs → is_some (get_elem? vs 0) ≡ true
unfolding is_some
first_value [] h = absurd (omega arith)
first_value (v ∷ vs) h = refl

-- The values, at i, 0 … 0.
pub own_values-laws : OwnLaws own_values 1
own_values-laws = record {
  long = λ n vs k t q h.
      let (i, e, there) = value_some n vs k t q h in
      ap length e ∙ ap suc (length-replicate n 0) ∙ omega arith;
  shortens = λ n j vs k t q h.
      let (i, e, there) = value_some (n + j) vs k t q h in
      (
        i ∷ zeros n,
        value_there n vs k t i (i ∷ zeros n) refl there,
        e ∙ ap (λ q. i ∷ q) (zeros_add n j),
      );
  lengthens = λ n j vs k t v h.
      let (i, e, there) = value_some n vs k t v h in
      value_there (n + j) vs k t i (v ++ zeros j)
        (ap (λ q. q ++ zeros j) e ∙ ap (λ q. i ∷ q) (sym (zeros_add n j))) there;
  some_own =
      λ n vs k t h. (0 ∷ zeros n, value_there n vs k t 0 (0 ∷ zeros n) refl (first_value vs h));
}
