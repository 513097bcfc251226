-- ===== src/Gridder/Examples.antt =====
-- The theorems about the gridder's arguments, at concrete command lines, files and nodes.
use legms.Prelude.{
  ℕ, suc, ◌≡◌, refl, ◌↔◌, Bool, true, false, List, [], ◌∷◌, Option, none, some, ◌⊎◌, inr, Text,
  codes, All, ok, ◌>>=◌, if◌then◌else◌, length, leb, arith, replicate, throws,
}
use legms.Prelude.Int.{ℤ, pos, negsuc}
use legms.Utility.Strings.{str_eq}
use legms.Gridder.Args.{Args, value_args}
use legms.Gridder.Fields.{StringArgs, Field, field}
use legms.Gridder.Fields.Values.{or_else, last_value}
use legms.Gridder.Checked.{done, failed, bad_config}
use legms.Gridder.Tokens.{tokenize}
use legms.Gridder.Tokens.RoundTrip.{
  Item, joined, apart, spaced, other, IsReadable, print, pairs, tokenize-print,
}
use legms.Gridder.Tokens.Ends.{Ends, tokenize-Ends}
use legms.Gridder.Nodes.{Scalar, Yaml, as_node, as_args}
use legms.Gridder.Nodes.RoundTrip.{as_args-as_node}
use legms.Gridder.Config.{load_config}
use legms.Gridder.Config.Overrides.{
  assignments, unknown_keys, tags_text, load_config-last_value, load_config-unknown_keys,
}
use legms.Gridder.Command.{matching, load_configs, load_environment, get_args}
use legms.Gridder.Command.Assigned.{Resolved, nothing, option}
use legms.Gridder.Command.Precedence.{get_args-last_value, get_args-Resolved}
use legms.Gridder.Validate.{Platform, fp_normal, validate_args}
use legms.Gridder.Validate.Valid.{IsValid, validate_args-IsValid}
use legms.Gridder.Startup.{default_config, process_arguments}
use legms.Gridder.Startup.Starts.{Answers, process_arguments-Answers}

-- Nodes as functions; paths are texts, and angles are numbers of degrees.
abbrev text_scalar : Scalar Text
text_scalar = record { show = λ t. t; parse = λ t. some t; parse_show = λ t. refl }

abbrev parse_number : Text → Option ℕ
parse_number [] = none
parse_number (n ∷ more) = some n

abbrev number_scalar : Scalar ℕ
number_scalar = record { show = λ n. n ∷ []; parse = parse_number; parse_show = λ n. refl }

abbrev show_flag : Bool → Text
show_flag true = codes "true"
show_flag false = codes "false"

abbrev parse_flag : Text → Option Bool
parse_flag [] = none
parse_flag (c ∷ more) = some (if str_eq (c ∷ more) (codes "true") then true else false)

parse_flag-show_flag : (b : Bool) → parse_flag (show_flag b) ≡ some b
unfolding str_eq
parse_flag-show_flag true = refl
parse_flag-show_flag false = refl

abbrev flag_scalar : Scalar Bool
flag_scalar = record { show = show_flag; parse = parse_flag; parse_show = parse_flag-show_flag }

abbrev show_integer : ℤ → Text
show_integer (pos n) = n ∷ []
show_integer (negsuc n) = 45 ∷ n ∷ []

abbrev parse_integer : Text → Option ℤ
parse_integer [] = none
parse_integer (n ∷ []) = some (pos n)
parse_integer (sign ∷ n ∷ more) = some (negsuc n)

parse_integer-show_integer : (z : ℤ) → parse_integer (show_integer z) ≡ some z
parse_integer-show_integer (pos n) = refl
parse_integer-show_integer (negsuc n) = refl

abbrev integer_scalar : Scalar ℤ
integer_scalar = record {
  show = show_integer;
  parse = parse_integer;
  parse_show = parse_integer-show_integer;
}

abbrev function_nodes : Yaml Text ℕ
function_nodes = record {
  Node = Text → Option Text;
  empty_node = λ tag. none;
  put = λ tag text node other. if str_eq tag other then some text else node other;
  get = λ tag node. node tag;
  get_empty = λ tag. refl;
  get_put = λ tag other text node. refl;
  path_scalar = text_scalar;
  bool_scalar = flag_scalar;
  size_scalar = number_scalar;
  angle_scalar = number_scalar;
  int_scalar = integer_scalar;
}

abbrev some_args : Args Text ℕ value_args
some_args = record {
  h5_path = codes "a.h5";
  config_path = some (codes "grid.yml");
  echo = true;
  min_block = 1000;
  pa_step = 90;
  pa_block = 10;
  w_planes = pos 3;
}

as_args-as_node_example :
    (as_node function_nodes value_args some_args >>= as_args function_nodes) ≡ ok some_args
as_args-as_node_example = as_args-as_node function_nodes some_args

abbrev platform : Platform Text ℕ
platform = record {
  is_regular_file = λ path. if leb (length path) 255 then some true else none;
  fpclassify = λ angle. fp_normal;
  exceeds_360 = λ angle. false;
  show_path = λ path. path;
  show_angle = λ n. n ∷ [];
  show_size = λ n. n ∷ [];
  show_int = show_integer;
}

-- A name that is too long for the file system
abbrev long_path : Args Text ℕ value_args
long_path = record some_args { h5_path = replicate 300 97 }

validate_args_long : validate_args platform long_path ≡ throws
unfolding validate_args
validate_args_long = refl

validate_args-IsValid_example :
    (validate_args platform some_args ≡ ok none) ↔ IsValid platform some_args
validate_args-IsValid_example = validate_args-IsValid platform some_args

-- --h5=a.h5 --configuration grid.yml word --echo = true
abbrev items : List Item
items =
    joined (codes "h5") (codes "a.h5")
    ∷ apart (codes "conf") (codes "grid.yml")
    ∷ other (codes "word")
    ∷ spaced (codes "echo") (codes "true")
    ∷ []

abbrev line : List Text
line = print items

tokenize-Ends_example : Ends (tokenize 8 line)
tokenize-Ends_example = tokenize-Ends 8 line (omega arith)

-- The only file, with two entries for one tag, and any other one with a key that is no tag.
abbrev files : Text → Text ⊎ List (Text × Text)
files path =
    if str_eq path (codes "grid.yml")
    then inr (
        (codes "echo", codes "false")
        ∷ (codes "h5", codes "b.h5")
        ∷ (codes "echo", codes "no")
        ∷ [])
    else inr (
        (codes "echoes", codes "1")
        ∷ (codes "h5", codes "b.h5")
        ∷ (codes "configuration", codes "c")
        ∷ [])

abbrev defaults : StringArgs Text ℕ
defaults = default_config

abbrev grid_entries : List (Text × Text)
grid_entries =
    (codes "echo", codes "false") ∷ (codes "h5", codes "b.h5") ∷ (codes "echo", codes "no") ∷ []

abbrev bad_entries : List (Text × Text)
bad_entries =
    (codes "echoes", codes "1")
    ∷ (codes "h5", codes "b.h5")
    ∷ (codes "configuration", codes "c")
    ∷ []

grid_file : files (codes "grid.yml") ≡ inr grid_entries
unfolding str_eq
grid_file = refl

bad_file : files (codes "bad.yml") ≡ inr bad_entries
unfolding str_eq
bad_file = refl

grid_known : unknown_keys [] grid_entries ≡ []
unfolding unknown_keys str_eq
grid_known = refl

bad_unknown : unknown_keys [] bad_entries ≡ codes "configuration" ∷ codes "echoes" ∷ []
unfolding unknown_keys str_eq
bad_unknown = refl

load_config-last_value_example :
    (found : StringArgs Text ℕ) × (load_config
        (λ path. path)
        files
        (codes "grid.yml")
        (codes "a test")
        defaults
      ≡ done found)
    × ((f : Field)
        → field f found ≡ or_else (last_value f (assignments grid_entries)) (field f defaults))
load_config-last_value_example =
    load_config-last_value (λ path. path) files (codes "grid.yml") (codes "a test") defaults
      grid_entries grid_file grid_known

load_config-unknown_keys_example :
    load_config (λ path. path) files (codes "bad.yml") (codes "a test") defaults
    ≡ failed (
        bad_config (
          tags_text
            (λ path. path)
            (codes "bad.yml")
            (codes "a test")
            (unknown_keys [] bad_entries)))
load_config-unknown_keys_example =
    load_config-unknown_keys (λ path. path) files (codes "bad.yml") (codes "a test") defaults
      bad_entries (codes "configuration") (codes "echoes" ∷ []) bad_file bad_unknown

process_arguments-Answers_example :
    Answers platform
      (λ n. n)
      function_nodes
      (process_arguments platform
        (λ n. n)
        function_nodes
        (λ path. path)
        files
        none
        (codes "gridder")
        line)
process_arguments-Answers_example =
    process_arguments-Answers platform (λ n. n) function_nodes (λ path. path) files none
      (codes "gridder") line

items-IsReadable : All IsReadable items
items-IsReadable = ground arith

tokenize-print_example : tokenize 8 line ≡ done (pairs items)
tokenize-print_example = tokenize-print 8 items items-IsReadable (omega arith)

abbrev assigned : List (Field × Text)
assigned =
    (Field.h5_path, codes "a.h5")
    ∷ (Field.config_path, codes "grid.yml")
    ∷ (Field.echo, codes "true")
    ∷ []

items-Resolved : Resolved (pairs items) assigned
unfolding matching str_eq
items-Resolved =
    option Field.h5_path refl (option Field.config_path refl (option Field.echo refl nothing))

abbrev with_grid : StringArgs Text ℕ
with_grid = record defaults { h5_path = some (codes "b.h5"); echo = some (codes "no") }

line_tokens : tokenize (suc (length line)) line ≡ done (pairs items)
unfolding tokenize str_eq
line_tokens = refl

grid_loads : load_configs (λ path. path) files (pairs items) defaults ≡ done with_grid
unfolding load_configs str_eq
grid_loads = refl

no_environment : load_environment (λ path. path) files none defaults ≡ done defaults
unfolding load_environment
no_environment = refl

abbrev found_args : StringArgs Text ℕ
found_args = record with_grid {
  h5_path = some (codes "a.h5");
  config_path = some (codes "grid.yml");
  echo = some (codes "true");
}

args_found : get_args (λ path. path) files none line defaults ≡ done found_args
unfolding get_args str_eq
args_found = refl

get_args-last_value_example :
    (found : StringArgs Text ℕ) × (get_args (λ path. path) files none line defaults ≡ done found)
    × ((f : Field) → field f found ≡ or_else (last_value f assigned) (field f with_grid))
get_args-last_value_example =
    get_args-last_value (λ path. path) files none line defaults defaults with_grid (pairs items)
      assigned no_environment line_tokens items-Resolved grid_loads

get_args-Resolved_example :
    (arg_pairs : List (Text × Text)) × (assigned : List (Field × Text))
    × (with_environment : StringArgs Text ℕ) × (with_files : StringArgs Text ℕ) × (load_environment
          (λ path. path)
          files
          none
          defaults
        ≡ done with_environment)
    × (tokenize (suc (length line)) line ≡ done arg_pairs)
    × Resolved arg_pairs assigned
    × (load_configs (λ path. path) files arg_pairs with_environment ≡ done with_files)
    × ((f : Field) → field f found_args ≡ or_else (last_value f assigned) (field f with_files))
get_args-Resolved_example =
    get_args-Resolved (λ path. path) files none line defaults found_args args_found
