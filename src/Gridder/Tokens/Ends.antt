-- ===== src/Gridder/Tokens/Ends.antt =====
-- The loop over the command line ends.
use legms.Prelude.{
  ℕ, zero, suc, ◌≤◌, ◌<◌, ◌≡◌, refl, ◌∙◌, ◌⊎◌, List, [], ◌∷◌, Option, none, some, length, take,
  drop, Text, arith, if_true, if_false, Bool-cases, inl, inr, ◌==◌,
}
use legms.Utility.Strings.{str_eq}
use legms.Gridder.Checked.{Checked, failed, done, no_value}
use legms.Gridder.Tokens.{
  dashes, take_value, separate_value, split_at, read_option, add_pair, tokenize,
}

take_value_shorter : (argv : List Text) → length (take_value argv).1 ≤ length argv
unfolding take_value
take_value_shorter [] = omega arith
take_value_shorter (v ∷ argv) = omega arith

separate_shorter : (argv : List Text) → length (separate_value argv).1 ≤ length argv
unfolding separate_value
separate_shorter [] = omega arith
separate_shorter (v ∷ argv) = ground (arith, take_value_shorter argv)

split_at_shorter :
    (tag : Text) (argv : List Text) (place : Option ℕ)
    → length (split_at tag argv place).2 ≤ length argv
unfolding split_at
split_at_shorter tag argv none = separate_shorter argv
split_at_shorter tag argv (some k) = elim (Bool-cases (length (drop (suc k) tag) == 0)) [
  | inl e ↦ rw e (take_value_shorter argv)
  | inr e ↦ rw e (omega arith)
]

-- The pairs of a command line, or an option without a value.
abbrev pub Ends : Checked (List (Text × Text)) → Type 0
Ends res =
    ((found : List (Text × Text)) × (res ≡ done found))
    ⊎ ((tag : Text) × (res ≡ failed (no_value tag)))

along : (res res' : Checked (List (Text × Text))) → res ≡ res' → Ends res' → Ends res
along res res' e (inl (found, d)) = inl (found, e ∙ d)
along res res' e (inr (tag, d)) = inr (tag, e ∙ d)

add_pair-Ends :
    (more : List Text → Checked (List (Text × Text))) (option : Text × Option Text × List Text)
    → Ends (more option.2)
    → Ends (add_pair more option)
unfolding add_pair
add_pair-Ends more (tag, none, argv) h = inr (tag, refl)
add_pair-Ends more (tag, some val, argv) (inl (found, e)) = inl ((tag, val) ∷ found, rw e refl)
add_pair-Ends more (tag, some val, argv) (inr (missing, e)) = inr (missing, rw e refl)

read_option_shorter :
    (tag : Text) (argv : List Text) → length (read_option tag argv).2 ≤ length argv
unfolding read_option
read_option_shorter tag argv = split_at_shorter tag argv _

-- The loop over the command line ends with fuel above the number of arguments: it makes pairs, or it
-- finds an option without a value.
pub tokenize-Ends : (f : ℕ) (argv : List Text) → length argv < f → Ends (tokenize f argv)
unfolding tokenize
tokenize-Ends zero argv h = absurd (omega arith)
tokenize-Ends (suc f) [] h = inl ([], refl)
tokenize-Ends (suc f) (arg ∷ argv) h =
    let option = read_option (drop 2 arg) argv in
    let shorter : length option.2 ≤ length argv = read_option_shorter (drop 2 arg) argv in
    elim (Bool-cases (str_eq (take 2 arg) dashes)) [
      | inl e ↦
          along _ (add_pair (λ rest. tokenize f rest) option)
            (if_true (str_eq (take 2 arg) dashes) _ _ e)
            (add_pair-Ends (λ rest. tokenize f rest) option
              (tokenize-Ends f option.2 (omega arith)))
      | inr e ↦
          along _ (tokenize f argv) (if_false (str_eq (take 2 arg) dashes) _ _ e)
            (tokenize-Ends f argv (omega arith))
    ]
