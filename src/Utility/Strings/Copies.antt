-- ===== src/Utility/Strings/Copies.antt =====
-- What fstrcpy keeps of a name, and what `hyperion::string` compares.
use legms.Prelude.{
  ℕ, zero, suc, ◌+◌, ◌-◌, ◌≤◌, ◌<◌, ◌≡◌, ◌↔◌, refl, sym, ap, subst, ◌∙◌, true, List, [], ◌∷◌, ◌++◌,
  leb, min, length, take, drop, All, Bool-cases, inl, inr, ◌≢◌, arith, length-append,
}
use legms.Utility.Strings.{set_elem, fstrcpy, c_string, strlen, strncmp_eq}

-- No character of a name is the terminator.
abbrev pub HasNoNul : List ℕ → Type 0
HasNoNul str = All (λ c. 0 < c) str

set_elem-take :
    (k : ℕ) (ss rest : List ℕ)
    → k < length ss
    → set_elem k 0 (take (suc k) ss ++ rest) ≡ take k ss ++ 0 ∷ rest
unfolding set_elem
set_elem-take k [] rest h = absurd (omega arith)
set_elem-take zero (s ∷ ss) rest h = refl
set_elem-take (suc k) (s ∷ ss) rest h = ap (λ xs. s ∷ xs) (set_elem-take k ss rest (omega arith))

take-ended : (k : ℕ) (src : List ℕ) → k ≤ length src → take k (src ++ 0 ∷ []) ≡ take k src
take-ended zero src h = refl
take-ended (suc k) [] h = absurd (omega arith)
take-ended (suc k) (s ∷ src) h = ap (λ xs. s ∷ xs) (take-ended k src (omega arith))

take_all : (k : ℕ) (src : List ℕ) → length src ≤ k → take k src ≡ src
take_all zero [] h = refl
take_all (suc k) [] h = refl
take_all zero (s ∷ src) h = absurd (omega arith)
take_all (suc k) (s ∷ src) h = ap (λ xs. s ∷ xs) (take_all k src (omega arith))

take-HasNoNul : (k : ℕ) (src : List ℕ) → HasNoNul src → HasNoNul (take k src)
take-HasNoNul zero src h = tt
take-HasNoNul (suc k) [] h = tt
take-HasNoNul (suc k) (s ∷ src) h = (h.0, take-HasNoNul k src h.1)

pub c_string-ended : (str rest : List ℕ) → HasNoNul str → c_string (str ++ 0 ∷ rest) ≡ str
unfolding c_string
c_string-ended [] rest h = refl
c_string-ended (zero ∷ str) rest h = absurd (omega arith)
c_string-ended (suc c ∷ str) rest h = ap (λ xs. suc c ∷ xs) (c_string-ended str rest h.1)

-- The copy in the array: the part of the name that has room, its end, and what stood behind.
copied :
    (dest src : List ℕ) (k : ℕ)
    → k ≤ length src
    → suc k ≡ min (length dest) (length src + 1)
    → fstrcpy dest src ≡ take k src ++ 0 ∷ drop (suc k) dest
unfolding fstrcpy
copied dest src k small e =
    subst
      (λ n.
        set_elem (n - 1) 0 (take n (src ++ 0 ∷ []) ++ drop n dest)
        ≡ take k src ++ 0 ∷ drop (suc k) dest)
      e
      (subst
        (λ j.
          set_elem j 0 (take (suc k) (src ++ 0 ∷ []) ++ drop (suc k) dest)
          ≡ take k src ++ 0 ∷ drop (suc k) dest)
        (omega arith)
        (set_elem-take k (src ++ 0 ∷ []) (drop (suc k) dest)
            (omega (arith, length-append src (0 ∷ [])))
          ∙ ap (λ xs. xs ++ 0 ∷ drop (suc k) dest) (take-ended k src small)))

-- A name without a terminator in it that is copied to an array of N > 0 characters reads back as
-- its first N - 1 characters.
pub c_string-fstrcpy :
    (dest src : List ℕ)
    → 0 < length dest
    → HasNoNul src
    → c_string (fstrcpy dest src) ≡ take (length dest - 1) src
c_string-fstrcpy dest src pos h = elim (Bool-cases (leb (length dest) (length src + 1))) [
  | inl full ↦
      rw (copied dest src (length dest - 1) (ground arith) (ground arith))
        (c_string-ended (take (length dest - 1) src) _ (take-HasNoNul (length dest - 1) src h))
  | inr room ↦ rw (copied dest src (length src) (omega arith) (ground arith)) (
      c_string-ended (take (length src) src) _ (take-HasNoNul (length src) src h)
      ∙ take_all (length src) src (omega arith)
      ∙ sym (take_all (length dest - 1) src (ground arith)))
]

strlen-c_string : (val : List ℕ) → strlen val ≡ length (c_string val)
unfolding strlen c_string
strlen-c_string [] = refl
strlen-c_string (zero ∷ val) = refl
strlen-c_string (suc c ∷ val) = ap suc (strlen-c_string val)

ends_early : (c : ℕ) (str : List ℕ) → [] ≢ c ∷ str
ends_early c str = cc

-- operator== of two hyperion::strings, on arrays of N characters, tells whether their std::strings
-- are equal.
pub strncmp_eq-c_string :
    (n : ℕ) (val other : List ℕ)
    → length val ≡ n
    → length other ≡ n
    → (strncmp_eq n val other ≡ true) ↔ (c_string val ≡ c_string other)
unfolding strncmp_eq c_string
strncmp_eq-c_string zero [] [] e e' = (λ h. refl, λ h. refl)
strncmp_eq-c_string zero (c ∷ val) other e e' = absurd (omega arith)
strncmp_eq-c_string zero [] (d ∷ other) e e' = absurd (omega arith)
strncmp_eq-c_string (suc n) [] other e e' = absurd (omega arith)
strncmp_eq-c_string (suc n) (c ∷ val) [] e e' = absurd (omega arith)
strncmp_eq-c_string (suc n) (zero ∷ val) (zero ∷ other) e e' = (λ h. refl, λ h. refl)
strncmp_eq-c_string (suc n) (zero ∷ val) (suc d ∷ other) e e' =
    (λ h. ground arith, λ h. absurd (ends_early (suc d) (c_string other) h))
strncmp_eq-c_string (suc n) (suc c ∷ val) (zero ∷ other) e e' =
    (λ h. ground arith, λ h. absurd (ends_early (suc c) (c_string val) (sym h)))
strncmp_eq-c_string (suc n) (suc c ∷ val) (suc d ∷ other) e e' =
    let sub = strncmp_eq-c_string n val other (omega arith) (omega arith) in
    (λ h. ground (arith, sub.0), λ h. ground (arith, sub.1))
