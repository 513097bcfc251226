-- ===== src/MeasRef/Extend/Prefixes.antt =====
-- Membership in a list of indexes, and prefixes of its members.
use legms.Prelude.{
  ℕ, ◌≤◌, ◌≡◌, ◌≢◌, refl, sym, subst, Bool, true, false, ◌||◌, List, [], ◌∷◌, ◌++◌, map, arith,
  length, Bool-cases, inl, inr, ◌⊎◌, All,
}
use legms.IndexTree.Iterator.Coverage.{list_eq, occurrences}
use legms.MeasRef.Points.{list_eq_refl}
use legms.MeasRef.Extend.Padded.{pad, is_prefix, any_prefix}

unfoldable pub any_eq : List ℕ → List (List ℕ) → Bool
unfolding list_eq
any_eq cs [] = false
any_eq cs (p ∷ ps) = list_eq p cs || any_eq cs ps

pub list_eq_sound : (p cs : List ℕ) → list_eq p cs ≡ true → p ≡ cs
unfolding list_eq
list_eq_sound [] [] h = refl
list_eq_sound [] (c ∷ cs) h = cc
list_eq_sound (x ∷ p) [] h = cc
list_eq_sound (x ∷ p) (c ∷ cs) h = ground (arith, list_eq_sound p cs)

pub or_cases : (a b : Bool) → (a || b) ≡ true → (a ≡ true) ⊎ (b ≡ true)
or_cases true b h = inl refl
or_cases false b h = inr h

pub or_right : (a b : Bool) → b ≡ true → (a || b) ≡ true
or_right true b h = refl
or_right false b h = h

pub or_left : (a b : Bool) → a ≡ true → (a || b) ≡ true
or_left a b h = rw h

is_prefix-rest :
    (cs p : List ℕ) → is_prefix cs p ≡ true → (ys : List ℕ) × (list_eq p (cs ++ ys) ≡ true)
unfolding is_prefix list_eq
is_prefix-rest [] p h = (p, list_eq_refl p)
is_prefix-rest (x ∷ cs) [] h = cc
is_prefix-rest (x ∷ cs) (y ∷ p) h =
    let (ys, e) = is_prefix-rest cs p (ground arith) in (ys, ground arith)

list_eq-is_prefix : (cs p : List ℕ) → list_eq p cs ≡ true → is_prefix cs p ≡ true
unfolding is_prefix list_eq
list_eq-is_prefix [] p h = refl
list_eq-is_prefix (x ∷ cs) [] h = cc
list_eq-is_prefix (x ∷ cs) (y ∷ p) h = ground (arith, list_eq-is_prefix cs p)

pub any_prefix-rest :
    (cs : List ℕ) (ps : List (List ℕ))
    → any_prefix cs ps ≡ true
    → (ys : List ℕ) × (any_eq (cs ++ ys) ps ≡ true)
unfolding any_prefix any_eq
any_prefix-rest cs [] h = cc
any_prefix-rest cs (p ∷ ps) h = elim (or_cases (is_prefix cs p) (any_prefix cs ps) h) [
  | inl e ↦ let (ys, k) = is_prefix-rest cs p e in (ys, or_left _ _ k)
  | inr e ↦ let (ys, k) = any_prefix-rest cs ps e in (ys, or_right _ _ k)
]

pub any_eq-any_prefix :
    (cs : List ℕ) (ps : List (List ℕ)) → any_eq cs ps ≡ true → any_prefix cs ps ≡ true
unfolding any_prefix any_eq
any_eq-any_prefix cs [] h = cc
any_eq-any_prefix cs (p ∷ ps) h = elim (or_cases (list_eq p cs) (any_eq cs ps) h) [
  | inl e ↦ or_left _ _ (list_eq-is_prefix cs p e)
  | inr e ↦ or_right _ _ (any_eq-any_prefix cs ps e)
]

pub any_eq-pad :
    (depth : ℕ) (cs : List ℕ) (xs : List (List ℕ))
    → any_eq cs (map (pad depth) xs) ≡ true
    → (v : List ℕ) × (any_eq v xs ≡ true) × (cs ≡ pad depth v)
unfolding any_eq
any_eq-pad depth cs [] h = cc
any_eq-pad depth cs (x ∷ xs) h =
    elim (or_cases (list_eq (pad depth x) cs) (any_eq cs (map (pad depth) xs)) h) [
      | inl e ↦ (x, or_left _ _ (list_eq_refl x), sym (list_eq_sound (pad depth x) cs e))
      | inr e ↦ let (v, k, same) = any_eq-pad depth cs xs e in (v, or_right _ _ k, same)
    ]

pub pad-any_eq :
    (depth : ℕ) (v : List ℕ) (xs : List (List ℕ))
    → any_eq v xs ≡ true
    → any_eq (pad depth v) (map (pad depth) xs) ≡ true
unfolding any_eq
pad-any_eq depth v [] h = cc
pad-any_eq depth v (x ∷ xs) h = elim (or_cases (list_eq x v) (any_eq v xs) h) [
  | inl e ↦ or_left _ _ (
      subst (λ u. list_eq (pad depth x) (pad depth u) ≡ true) (list_eq_sound x v e)
        (list_eq_refl (pad depth x)))
  | inr e ↦ or_right _ _ (pad-any_eq depth v xs e)
]

pub any_eq-occurrences :
    (v : List ℕ) (xs : List (List ℕ)) → any_eq v xs ≡ true → occurrences v xs ≢ 0
unfolding any_eq occurrences
any_eq-occurrences v [] h = cc
any_eq-occurrences v (x ∷ xs) h = elim (or_cases (list_eq x v) (any_eq v xs) h) [
  | inl e ↦ λ k. ground arith
  | inr e ↦ λ k. any_eq-occurrences v xs e (omega arith)
]

pub occurrences-any_eq :
    (v : List ℕ) (xs : List (List ℕ)) → occurrences v xs ≢ 0 → any_eq v xs ≡ true
unfolding any_eq occurrences
occurrences-any_eq v [] h = absurd (h refl)
occurrences-any_eq v (x ∷ xs) h = elim (Bool-cases (list_eq x v)) [
  | inl e ↦ or_left _ _ e
  | inr e ↦ or_right _ _ (occurrences-any_eq v xs (λ k. h (ground arith)))
]

pub short_member :
    (depth : ℕ) (v : List ℕ) (xs : List (List ℕ))
    → All (λ v. length v ≤ depth) xs
    → any_eq v xs ≡ true
    → length v ≤ depth
unfolding any_eq
short_member depth v [] short h = cc
short_member depth v (x ∷ xs) short h = elim (or_cases (list_eq x v) (any_eq v xs) h) [
  | inl e ↦ subst (λ v. length v ≤ depth) (list_eq_sound x v e) short.0
  | inr e ↦ short_member depth v xs short.1 e
]

pub All-occurrences :
    (P : List ℕ → Type 0) (xs : List (List ℕ))
    → ((v : List ℕ) → any_eq v xs ≡ true → P v)
    → All P xs
unfolding any_eq
All-occurrences P [] h = tt
All-occurrences P (x ∷ xs) h =
    (h x (or_left _ _ (list_eq_refl x)), All-occurrences P xs (λ v e. h v (or_right _ _ e)))

pub nil-any_prefix : (ps : List (List ℕ)) → ps ≢ [] → any_prefix [] ps ≡ true
unfolding any_prefix is_prefix
nil-any_prefix [] h = absurd (h refl)
nil-any_prefix (p ∷ ps) h = refl
