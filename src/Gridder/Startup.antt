-- ===== src/Gridder/Startup.antt =====
-- hyperion/gridder/gridder.cc: the default arguments, and how `gridder_task` comes to the arguments that
-- it runs with, before it opens a table.
pub mod Starts
use legms.Prelude.{
  ℕ, Bool, true, false, List, [], ◌∷◌, ◌⊎◌, Option, none, some, if◌then◌else◌, Text, codes, Result,
  ok, throws,
}
use legms.Prelude.Int.{ℤ}
use legms.Gridder.Args.{Args, value_args, string_args, opt_string_args, as_complete, has_value}
use legms.Gridder.Fields.{StringArgs}
use legms.Gridder.Checked
use legms.Gridder.Checked.{Checked, Failure}
use legms.Gridder.Tokens.{has_help_flag}
use legms.Gridder.Nodes.{Yaml, as_node, as_args}
use legms.Gridder.Command.{get_args}
use legms.Gridder.Validate.{Platform, validate_args}

abbrev pub default_config : {FilePath Angle : Type 0} → StringArgs FilePath Angle
default_config = record {
  h5_path = none;
  config_path = none;
  echo = some (codes "false");
  min_block = some (codes "100000");
  pa_step = some (codes "360.0");
  pa_block = some (codes "1000");
  w_planes = some (codes "1");
}

-- How the argument processing of gridder_task ends. Those from `helps` to `invalid` return from the task,
-- after the help or a message; `unparsed` is a YAML::Exception that the task catches, `file_error` a
-- filesystem_error about the path that nothing catches, and `aborts` a failed assertion or another
-- exception that nothing catches. `out_of_fuel` has no counterpart in the code.
pub data Outcome (FilePath Angle : Type 0) : Type 0 where
  helps : Outcome FilePath Angle
  rejects : Failure → Outcome FilePath Angle
  lacks_h5_path : Outcome FilePath Angle
  unparsed : Outcome FilePath Angle
  invalid : Text → Outcome FilePath Angle
  starts : Args FilePath Angle value_args → Outcome FilePath Angle
  file_error : FilePath → Outcome FilePath Angle
  aborts : Outcome FilePath Angle
  out_of_fuel : Outcome FilePath Angle

module _ {FilePath Angle : Type 0} (platform : Platform FilePath Angle) (abs : Angle → Angle)
    (yaml : Yaml FilePath Angle) where
  -- What follows the call of validate_args: if (errstr) ..., and the absolute value of the step
  unfoldable pub start_task :
      Args FilePath Angle value_args → Result (Option Text) → Outcome FilePath Angle
  start_task args throws = file_error args.h5_path
  start_task args Result.out_of_fuel = out_of_fuel
  start_task args (ok none) = starts (record args { pa_step = abs args.pa_step })
  start_task args (ok (some errstr)) = invalid errstr

  -- The arguments as values, and their validation.
  unfoldable pub use_values : Result (Args FilePath Angle value_args) → Outcome FilePath Angle
  unfolding start_task validate_args
  use_values throws = unparsed
  use_values Result.out_of_fuel = out_of_fuel
  use_values (ok args) = start_task args (validate_args platform args)

  unfoldable pub use_node : Result yaml.Node → Outcome FilePath Angle
  unfolding use_values as_args
  use_node throws = aborts
  use_node Result.out_of_fuel = out_of_fuel
  use_node (ok node) = use_values (as_args yaml node)

  -- assert(str_args), and what is done with it
  unfoldable pub use_complete :
      Result (Option (Args FilePath Angle string_args)) → Outcome FilePath Angle
  unfolding use_node as_node
  use_complete throws = aborts
  use_complete Result.out_of_fuel = out_of_fuel
  use_complete (ok none) = aborts
  use_complete (ok (some str_args)) = use_node (as_node yaml string_args str_args)

  unfoldable pub use_args : Checked (StringArgs FilePath Angle) → Outcome FilePath Angle
  unfolding use_complete as_complete has_value
  use_args (Checked.failed why) = rejects why
  use_args Checked.out_of_fuel = out_of_fuel
  use_args Checked.aborted = aborts
  use_args (Checked.done some_str_args) =
      if has_value some_str_args.h5_path
      then use_complete (as_complete opt_string_args some_str_args)
      else lacks_h5_path

  -- The block "process command line arguments" and what follows it, up to the effective parameters.
  unfoldable pub process_arguments :
      (Text → Text)
      → (Text → Text ⊎ List (Text × Text))
      → Option Text
      → Text
      → List Text
      → Outcome FilePath Angle
  unfolding has_help_flag use_args get_args
  process_arguments quoted load_file environment program argv =
      if has_help_flag (program ∷ argv)
      then helps
      else use_args (get_args quoted load_file environment argv default_config)
