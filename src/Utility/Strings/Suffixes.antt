-- ===== src/Utility/Strings/Suffixes.antt =====
-- has_suffix and add_name_prefix.
use legms.Prelude.{
  ℕ, zero, suc, ◌-◌, ◌≡◌, ◌↔◌, refl, sym, ap, subst, true, ◌&&◌, List, [], ◌∷◌, ◌++◌, ltb, not,
  ◌==◌, if◌then◌else◌, length, take, drop, arith, length-append, drop-append, ◌⊎◌, inl, inr,
  Bool-cases, if_true, if_false,
}
use legms.Utility.Strings.{str_eq, has_suffix, back, slash, add_name_prefix}

pub str_eq_sound : (str other : List ℕ) → str_eq str other ≡ true → str ≡ other
unfolding str_eq
str_eq_sound [] [] h = refl
str_eq_sound [] (d ∷ other) h = cc
str_eq_sound (c ∷ str) [] h = cc
str_eq_sound (c ∷ str) (d ∷ other) h = ground (arith, str_eq_sound str other)

pub str_eq_refl : (str : List ℕ) → str_eq str str ≡ true
unfolding str_eq
str_eq_refl [] = refl
str_eq_refl (c ∷ str) = ground (arith, str_eq_refl str)

take++drop : (k : ℕ) (str : List ℕ) → take k str ++ drop k str ≡ str
take++drop zero str = refl
take++drop (suc k) [] = refl
take++drop (suc k) (c ∷ str) = ap (λ xs. c ∷ xs) (take++drop k str)

drop-front :
    (front suffix : List ℕ)
    → drop (length (front ++ suffix) - length suffix) (front ++ suffix) ≡ suffix
drop-front front suffix =
    let cut : length front ≡ length (front ++ suffix) - length suffix =
      omega (arith, length-append front suffix) in
    subst (λ k. drop k (front ++ suffix) ≡ suffix) cut (drop-append front suffix)

-- has_suffix tells whether a name is some name followed by the suffix.
pub has_suffix_iff :
    (str suffix : List ℕ)
    → (has_suffix str suffix ≡ true) ↔ ((front : List ℕ) × (front ++ suffix ≡ str))
unfolding has_suffix
has_suffix_iff str suffix =
    let k = length str - length suffix in
    (
      λ h. (
        take k str,
        subst (λ s. take k str ++ s ≡ str) (str_eq_sound (drop k str) suffix h) (take++drop k str),
      ),
      λ found.
          subst (λ s. str_eq (drop (length s - length suffix) s) suffix ≡ true) found.1
            (subst (λ s. str_eq s suffix ≡ true) (sym (drop-front found.0 suffix))
              (str_eq_refl suffix)),
    )

back-append : (prefix : List ℕ) (c : ℕ) → back (prefix ++ c ∷ []) ≡ c
unfolding back
back-append [] c = refl
back-append (x ∷ []) c = refl
back-append (x ∷ y ∷ prefix) c = back-append (y ∷ prefix) c

-- The front of a prefixed name is empty, or ends in a slash.
ended_front :
    (prefix : List ℕ)
    → (front : List ℕ) × ((length prefix ≡ 0) ⊎ (back front ≡ slash))
      × ((if ltb 0 (length prefix) && not (back prefix == slash)
            then prefix ++ slash ∷ []
            else prefix)
          ≡ front)
ended_front [] = ([], inl refl, refl)
ended_front (x ∷ prefix) = elim (Bool-cases (back (x ∷ prefix) == slash)) [
  | inl e ↦ (
    x ∷ prefix,
    inr (ground arith),
    if_false (ltb 0 (length (x ∷ prefix)) && not (back (x ∷ prefix) == slash)) _ _ (ground arith),
  )
  | inr e ↦ (
    x ∷ prefix ++ slash ∷ [],
    inr (back-append (x ∷ prefix) slash),
    if_true (ltb 0 (length (x ∷ prefix)) && not (back (x ∷ prefix) == slash)) _ _ (ground arith),
  )
]

-- A name with a prefix in front of it has the name as a suffix. What stands in front of the name ends
-- in a slash, if the prefix is not empty.
pub add_name_prefix-front :
    (prefix str : List ℕ)
    → (has_suffix (add_name_prefix prefix str) str ≡ true)
      × ((front : List ℕ) × ((length prefix ≡ 0) ⊎ (back front ≡ slash))
          × (add_name_prefix prefix str ≡ front ++ str))
unfolding add_name_prefix
add_name_prefix-front prefix str =
    let (front, ended, e) = ended_front prefix in
    let whole = ap (λ s. s ++ str) e in
    ((has_suffix_iff _ str).1 (front, sym whole), (front, ended, whole))
