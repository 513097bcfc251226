-- ===== src/Gridder/Tokens.antt =====
-- hyperion/gridder/args.cc: the part of `get_args` that makes pairs of a tag and a value of the command
-- line, and `has_help_flag`. The arguments are those behind the name of the program.
pub mod RoundTrip
pub mod Ends
use legms.Prelude.{
  ℕ, zero, suc, ◌+◌, Bool, true, false, ◌||◌, List, [], ◌∷◌, ◌++◌, Option, none, some, ◌==◌,
  if◌then◌else◌, length, take, drop, Text, codes,
}
use mathlib.Core.Option
use legms.Utility.Strings.{str_eq}
use legms.Gridder.Checked.{Checked, failed, out_of_fuel, done, no_value, ◌>>=◌}

abbrev pub equals_sign : ℕ
equals_sign = 61

abbrev pub dashes : Text
dashes = codes "--"

-- tag.find('=')
unfoldable pub find : ℕ → Text → Option ℕ
find c [] = none
find c (d ∷ tag) = if d == c then some 0 else Option.map suc (find c tag)

-- val = args.argv[i++], if there is one
unfoldable pub take_value : List Text → Option Text × List Text
take_value [] = (none, [])
take_value (v ∷ argv) = (some v, argv)

-- The value behind a tag: the next argument, or the one after an argument "=".
unfoldable pub separate_value : List Text → Option Text × List Text
unfolding take_value str_eq
separate_value [] = (none, [])
separate_value (v ∷ argv) = if str_eq v (codes "=") then take_value argv else (some v, argv)

-- What is done with the place of the first "=", if there is one.
unfoldable pub split_at : Text → List Text → Option ℕ → Text × Option Text × List Text
unfolding separate_value take_value
split_at tag argv none = (tag, (separate_value argv).0, (separate_value argv).1)
split_at tag argv (some eq) =
    if length (drop (suc eq) tag) == 0
    then (take eq tag, (take_value argv).0, (take_value argv).1)
    else (take eq tag, some (drop (suc eq) tag), argv)

-- One option without its dashes: the tag, its value and the arguments behind.
unfoldable pub read_option : Text → List Text → Text × Option Text × List Text
unfolding find split_at
read_option tag argv = split_at tag argv (find equals_sign tag)

-- if (val) arg_pairs.emplace_back(tag, val.value()); `more` goes on with the arguments behind.
unfoldable pub add_pair :
    (List Text → Checked (List (Text × Text)))
    → Text × Option Text × List Text
    → Checked (List (Text × Text))
add_pair more (tag, none, argv) = failed (no_value tag)
add_pair more (tag, some val, argv) = more argv >>= λ arg_pairs. done ((tag, val) ∷ arg_pairs)

-- for (int i = 1; i < args.argc;)
unfoldable pub tokenize : ℕ → List Text → Checked (List (Text × Text))
unfolding read_option add_pair
tokenize zero argv = out_of_fuel
tokenize (suc f) [] = done []
tokenize (suc f) (arg ∷ argv) =
    let option = add_pair (λ rest. tokenize f rest) (read_option (drop 2 arg) argv) in
    let skip = tokenize f argv in if str_eq (take 2 arg) dashes then option else skip

-- has_help_flag(args), on all of argv
unfoldable pub has_help_flag : List Text → Bool
unfolding str_eq
has_help_flag [] = false
has_help_flag (arg ∷ argv) = str_eq arg (codes "--help") || has_help_flag argv
