-- ===== src/MeasRef/Points.antt =====
-- Coordinates of points after a prefix, and contents of regions that are changed there.
use mathlib.Core.Path.{fun_ext}
use legms.Prelude.{
  ℕ, zero, suc, ◌+◌, ◌<◌, ◌≡◌, refl, ap, ◌∙◌, true, List, [], ◌∷◌, ◌++◌, if◌then◌else◌, none, arith,
  length, get_elem?, replicate, Bool-cases, inl, inr, if_true,
}
use legms.IndexTree.Iterator.Coverage.{list_eq}
use legms.MeasRef.Measure.{MClass}
use legms.MeasRef.Regions.{Point, Metadata, Regions, update, put, clear}
use legms.MeasRef.Entries.{
  Partial, overlay, or_else, single, under, first_of, own_values, own_metadata,
}

abbrev pub zeros : ℕ → Point
zeros n = replicate n 0

pub put-at : (pre tl : Point) (x c : ℕ) → put (length pre) c (pre ++ x ∷ tl) ≡ pre ++ c ∷ tl
unfolding put
put-at [] tl x c = refl
put-at (y ∷ pre) tl x c = ap (λ p. y ∷ p) (put-at pre tl x c)

pub put-next :
    (pre tl : Point) (w x c : ℕ) → put (suc (length pre)) c (pre ++ w ∷ x ∷ tl) ≡ pre ++ w ∷ c ∷ tl
unfolding put
put-next [] tl w x c = refl
put-next (y ∷ pre) tl w x c = ap (λ p. y ∷ p) (put-next pre tl w x c)

clear_all : (p : Point) → clear 0 p ≡ zeros (length p)
unfolding clear
clear_all [] = refl
clear_all (x ∷ p) = ap (λ p. 0 ∷ p) (clear_all p)

pub clear-above :
    (pre tl : Point) (x : ℕ)
    → clear (suc (length pre)) (pre ++ x ∷ tl) ≡ pre ++ x ∷ zeros (length tl)
unfolding clear
clear-above [] tl x = ap (λ p. x ∷ p) (clear_all tl)
clear-above (y ∷ pre) tl x = ap (λ p. y ∷ p) (clear-above pre tl x)

pub list_eq_refl : (p : Point) → list_eq p p ≡ true
unfolding list_eq
list_eq_refl [] = refl
list_eq_refl (x ∷ p) = ground (arith, list_eq_refl p)

pub update_same : {A : Type 0} (p : Point) (a : A) (s : Point → A) → update p a s p ≡ a
unfolding update
update_same p a s = if_true (list_eq p p) _ _ (list_eq_refl p)

pub update_twice :
    {A : Type 0} (p : Point) (a b : A) (s : Point → A) → update p b (update p a s) ≡ update p b s
unfolding update
update_twice p a b s =
    fun_ext (λ q. elim (Bool-cases (list_eq p q)) [ inl e ↦ rw e | inr e ↦ rw e ])

overlay-none_at :
    {A : Type 0} (pre : Point) (f : Partial A) (s : Point → A) (q : Point)
    → ((q : Point) → f q ≡ none)
    → overlay pre f s q ≡ s q
unfolding overlay or_else
overlay-none_at [] f s q h = ap (λ o. or_else o (s q)) (h q)
overlay-none_at (x ∷ pre) f s [] h = refl
overlay-none_at (x ∷ pre) f s (y ∷ q) h = ground (arith, overlay-none_at pre f (λ q. s (y ∷ q)) q h)

pub overlay-none :
    {A : Type 0} (pre : Point) (f : Partial A) (s : Point → A)
    → ((q : Point) → f q ≡ none)
    → overlay pre f s ≡ s
overlay-none pre f s h = fun_ext (λ q. overlay-none_at pre f s q h)

-- Regions with entries laid over their contents, below a prefix.
unfoldable pub laid : Point → Partial Metadata → Partial ℕ → Regions → Regions
laid pre f g rs = record rs {
  metadata = overlay pre f rs.metadata;
  values = overlay pre g rs.values;
}

-- The values j, j + 1, … of a measure.
unfoldable pub values_from : ℕ → ℕ → List ℕ → Partial ℕ
unfolding first_of single
values_from n j [] q = none
values_from n j (v ∷ vs) q = first_of (values_from n (suc j) vs q) (single (j ∷ zeros n) v q)

values_from_below :
    (n j : ℕ) (vs : List ℕ) (x : ℕ) (q : Point) → x < j → values_from n j vs (x ∷ q) ≡ none
unfolding values_from list_eq
values_from_below n j [] x q h = refl
values_from_below n j (v ∷ vs) x q h =
    rw (values_from_below n (suc j) vs x q (omega arith)) (ground arith)

values_from_at :
    (n j : ℕ) (vs : List ℕ) (x : ℕ) (q : Point)
    → values_from n j vs ((j + x) ∷ q) ≡ (if list_eq (zeros n) q then get_elem? vs x else none)
unfolding values_from list_eq
values_from_at n j [] x q = ground arith
values_from_at n j (v ∷ vs) zero q =
    rw (values_from_below n (suc j) vs (j + 0) q (omega arith)) (ground arith)
values_from_at n j (v ∷ vs) (suc x) q =
    rw (ap (λ y. values_from n (suc j) vs (y ∷ q)) (shift_lem) ∙ values_from_at n (suc j) vs x q)
      (ground arith)
  where
    shift_lem : j + suc x ≡ suc j + x
    shift_lem = omega arith

values_from_nil : (n j : ℕ) (vs : List ℕ) → values_from n j vs [] ≡ none
unfolding values_from list_eq
values_from_nil n j [] = refl
values_from_nil n j (v ∷ vs) = rw (values_from_nil n (suc j) vs)

pub values_from-own :
    (n : ℕ) (vs : List ℕ) (k : MClass) (t : ℕ) → values_from n 0 vs ≡ own_values n vs k t
unfolding own_values
values_from-own n vs k t = fun_ext at_point
  where
    at_point : (q : Point) → values_from n 0 vs q ≡ own_values n vs k t q
    at_point [] = values_from_nil n 0 vs
    at_point (x ∷ q) =
        ap (λ j. values_from n 0 vs (j ∷ q)) (omega arith) ∙ values_from_at n 0 vs x q

single-own_at :
    (n : ℕ) (vs : List ℕ) (k : MClass) (t : ℕ) (q : Point)
    → single (0 ∷ zeros n) (record { measure_class = k; ref_type = t; num_values = length vs }) q
      ≡ under 0 (own_metadata n vs k t) q
unfolding single under own_metadata list_eq
single-own_at n vs k t [] = refl
single-own_at n vs k t (x ∷ q) = ground arith

pub single-own :
    (n : ℕ) (vs : List ℕ) (k : MClass) (t : ℕ)
    → single (0 ∷ zeros n) (record { measure_class = k; ref_type = t; num_values = length vs })
      ≡ under 0 (own_metadata n vs k t)
single-own n vs k t = fun_ext (single-own_at n vs k t)
