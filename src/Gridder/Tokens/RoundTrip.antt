-- ===== src/Gridder/Tokens/RoundTrip.antt =====
-- The pairs of a command line.
use legms.Prelude.{
  ℕ, zero, suc, ◌<◌, ◌≡◌, ◌≢◌, refl, ap, ◌∙◌, false, List, [], ◌∷◌, ◌++◌, none, some, ◌==◌, length,
  take, drop, Text, codes, All, arith, if_false, Bool-cases, inl, inr, take-append,
}
use mathlib.Core.Option
use legms.Utility.Strings.{str_eq}
use legms.Utility.Strings.Suffixes.{str_eq_sound}
use legms.Gridder.Checked.{done, ◌>>=◌}
use legms.Gridder.Tokens.{equals_sign, dashes, find, read_option, add_pair, tokenize}

-- The ways to write an option, and an argument that is none.
pub data Item : Type 0 where
  joined : Text → Text → Item  -- --tag=value
  dangling : Text → Text → Item  -- --tag= value
  apart : Text → Text → Item  -- --tag value
  spaced : Text → Text → Item  -- --tag = value
  other : Text → Item

abbrev pub print : List Item → List Text
print [] = []
print (joined tag val ∷ items) = (dashes ++ (tag ++ equals_sign ∷ val)) ∷ print items
print (dangling tag val ∷ items) = (dashes ++ (tag ++ equals_sign ∷ [])) ∷ val ∷ print items
print (apart tag val ∷ items) = (dashes ++ tag) ∷ val ∷ print items
print (spaced tag val ∷ items) = (dashes ++ tag) ∷ codes "=" ∷ val ∷ print items
print (other word ∷ items) = word ∷ print items

abbrev pub pairs : List Item → List (Text × Text)
pairs [] = []
pairs (joined tag val ∷ items) = (tag, val) ∷ pairs items
pairs (dangling tag val ∷ items) = (tag, val) ∷ pairs items
pairs (apart tag val ∷ items) = (tag, val) ∷ pairs items
pairs (spaced tag val ∷ items) = (tag, val) ∷ pairs items
pairs (other word ∷ items) = pairs items

-- A tag has no "=" in it. A joined value is not empty, and one that stands apart is not "=". An
-- argument that is no option does not start with two dashes.
abbrev pub IsReadable : Item → Type 0
IsReadable (joined tag val) = All (λ c. c ≢ equals_sign) tag × (val ≢ [])
IsReadable (dangling tag val) = All (λ c. c ≢ equals_sign) tag
IsReadable (apart tag val) = All (λ c. c ≢ equals_sign) tag × (val ≢ codes "=")
IsReadable (spaced tag val) = All (λ c. c ≢ equals_sign) tag
IsReadable (other word) = take 2 word ≢ dashes

find-none : (tag : Text) → All (λ c. c ≢ equals_sign) tag → find equals_sign tag ≡ none
unfolding find
find-none [] h = refl
find-none (c ∷ tag) h = ground (arith, find-none tag h.1, h.0)

find-some :
    (tag val : Text)
    → All (λ c. c ≢ equals_sign) tag
    → find equals_sign (tag ++ equals_sign ∷ val) ≡ some (length tag)
unfolding find
find-some [] val h = refl
find-some (c ∷ tag) val h =
    if_false (c == equals_sign) _ _ (ground (arith, h.0))
    ∙ ap (Option.map suc) (find-some tag val h.1)

str_eq-false : (str with_str : Text) → str ≢ with_str → str_eq str with_str ≡ false
str_eq-false str with_str ne = elim (Bool-cases (str_eq str with_str)) [
  | inl e ↦ absurd (ne (str_eq_sound str with_str e))
  | inr e ↦ e
]

drop_behind : (tag val : Text) → drop (suc (length tag)) (tag ++ equals_sign ∷ val) ≡ val
drop_behind [] val = refl
drop_behind (c ∷ tag) val = drop_behind tag val

not-length-zero : (val : Text) → val ≢ [] → (length val == 0) ≡ false
not-length-zero [] ne = absurd (ne refl)
not-length-zero (c ∷ val) ne = ground arith

read_joined :
    (tag val : Text) (argv : List Text)
    → All (λ c. c ≢ equals_sign) tag
    → val ≢ []
    → read_option (tag ++ equals_sign ∷ val) argv ≡ (tag, some val, argv)
unfolding read_option
read_joined tag val argv h ne = rw (find-some tag val h) (
    rw (drop_behind tag val, take-append tag (equals_sign ∷ val))
      (if_false (length val == 0) _ _ (not-length-zero val ne)))

read_dangling :
    (tag val : Text) (argv : List Text)
    → All (λ c. c ≢ equals_sign) tag
    → read_option (tag ++ equals_sign ∷ []) (val ∷ argv) ≡ (tag, some val, argv)
unfolding read_option
read_dangling tag val argv h =
    rw (find-some tag [] h) (rw (drop_behind tag [], take-append tag (equals_sign ∷ [])) refl)

read_apart :
    (tag val : Text) (argv : List Text)
    → All (λ c. c ≢ equals_sign) tag
    → val ≢ codes "="
    → read_option tag (val ∷ argv) ≡ (tag, some val, argv)
unfolding read_option
read_apart tag val argv h ne = rw (find-none tag h) (rw (str_eq-false val (codes "=") ne) refl)

read_spaced :
    (tag val : Text) (argv : List Text)
    → All (λ c. c ≢ equals_sign) tag
    → read_option tag (codes "=" ∷ val ∷ argv) ≡ (tag, some val, argv)
unfolding read_option str_eq
read_spaced tag val argv h = rw (find-none tag h) refl

-- One round of the loop on an option.
option_round :
    (f : ℕ) (body : Text) (argv rest : List Text) (tag val : Text) (found : List (Text × Text))
    → read_option body argv ≡ (tag, some val, rest)
    → tokenize f rest ≡ done found
    → tokenize (suc f) ((dashes ++ body) ∷ argv) ≡ done ((tag, val) ∷ found)
unfolding tokenize str_eq add_pair
option_round f body argv rest tag val found e more =
    ap (add_pair (λ argv'. tokenize f argv')) e
    ∙ ap (λ pairs_behind. pairs_behind >>= λ arg_pairs. done ((tag, val) ∷ arg_pairs)) more

other_round :
    (f : ℕ) (word : Text) (argv : List Text)
    → take 2 word ≢ dashes
    → tokenize (suc f) (word ∷ argv) ≡ tokenize f argv
unfolding tokenize
other_round f word argv ne =
    if_false (str_eq (take 2 word) dashes) _ _ (str_eq-false (take 2 word) dashes ne)

tokenize_nil : (f : ℕ) → tokenize (suc f) [] ≡ done []
unfolding tokenize
tokenize_nil f = refl

-- The loop makes the pairs of a command line, whichever way each option is written and whatever else
-- stands between them, with fuel above the number of arguments.
pub tokenize-print :
    (f : ℕ) (items : List Item)
    → All IsReadable items
    → length (print items) < f
    → tokenize f (print items) ≡ done (pairs items)
tokenize-print zero items h more = absurd (omega arith)
tokenize-print (suc f) [] h more = tokenize_nil f
tokenize-print (suc f) (joined tag val ∷ items) h more =
    option_round f (tag ++ equals_sign ∷ val) (print items) (print items) tag val (pairs items)
      (read_joined tag val (print items) h.0.0 h.0.1) (tokenize-print f items h.1 (omega arith))
tokenize-print (suc f) (dangling tag val ∷ items) h more =
    option_round f (tag ++ equals_sign ∷ []) (val ∷ print items) (print items) tag val (pairs items)
      (read_dangling tag val (print items) h.0) (tokenize-print f items h.1 (omega arith))
tokenize-print (suc f) (apart tag val ∷ items) h more =
    option_round f tag (val ∷ print items) (print items) tag val (pairs items)
      (read_apart tag val (print items) h.0.0 h.0.1) (tokenize-print f items h.1 (omega arith))
tokenize-print (suc f) (spaced tag val ∷ items) h more =
    option_round f tag (codes "=" ∷ val ∷ print items) (print items) tag val (pairs items)
      (read_spaced tag val (print items) h.0) (tokenize-print f items h.1 (omega arith))
tokenize-print (suc f) (other word ∷ items) h more =
    other_round f word (print items) h.0 ∙ tokenize-print f items h.1 (omega arith)
