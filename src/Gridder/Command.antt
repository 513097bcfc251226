-- ===== src/Gridder/Command.antt =====
-- hyperion/gridder/args.cc: `get_args` behind the tokens of the command line: options by prefixes of
-- their tags, first the configuration files, then the other options.
pub mod Assigned
pub mod Precedence
pub mod Kept
use legms.Prelude.{
  ℕ, suc, Bool, true, false, ◌||◌, List, [], ◌∷◌, ◌++◌, ◌⊎◌, Option, none, some, if◌then◌else◌,
  length, take, Text, codes,
}
use legms.Utility.Strings.{str_eq}
use legms.Gridder.Args.{
  Args, tags, h5_path_tag, config_path_tag, echo_tag, min_block_tag, pa_step_tag, pa_block_tag,
  w_planes_tag,
}
use legms.Gridder.Fields
use legms.Gridder.Fields.{StringArgs, Field, set_field}
use legms.Gridder.Checked.{Checked, failed, aborted, done, unrecognized, ambiguous, ◌>>=◌}
use legms.Gridder.Tokens.{tokenize}
use legms.Gridder.Config.{load_config}

-- for (auto& tg : gridder_args.tags()) if (tg.substr(0, tag.size()) == tag) matches.push_back(tg);
unfoldable pub matching : Text → List Text → List Text
unfolding str_eq
matching tag [] = []
matching tag (tg ∷ tgs) =
    let matches = matching tag tgs in
    if str_eq (take (length tag) tg) tag then tg ∷ matches else matches

-- std::find(matches.begin(), matches.end(), tag) != matches.end()
unfoldable pub contains : Text → List Text → Bool
unfolding str_eq
contains tag [] = false
contains tag (m ∷ matches) = str_eq m tag || contains tag matches

abbrev pub environment_provenance : Text
environment_provenance = codes "HYPERION_GRIDDER_CONFIG environment variable"

abbrev pub argument_provenance : Text
argument_provenance = codes "command line argument '" ++ (config_path_tag ++ codes "' value")

module _ {FilePath Angle : Type 0} where
  -- The chain of comparisons of the only match with the tags.
  unfoldable pub assign_match :
      Text → Text → StringArgs FilePath Angle → Checked (StringArgs FilePath Angle)
  unfolding str_eq set_field
  assign_match match_tag val gridder_args =
      if str_eq match_tag h5_path_tag
      then done (set_field Field.h5_path val gridder_args)
      else if str_eq match_tag pa_step_tag
      then done (set_field Field.pa_step val gridder_args)
      else if str_eq match_tag pa_block_tag
      then done (set_field Field.pa_block val gridder_args)
      else if str_eq match_tag w_planes_tag
      then done (set_field Field.w_planes val gridder_args)
      else if str_eq match_tag min_block_tag
      then done (set_field Field.min_block val gridder_args)
      else if str_eq match_tag echo_tag
      then done (set_field Field.echo val gridder_args)
      else if str_eq match_tag config_path_tag
      then done (set_field Field.config_path val gridder_args)
      else aborted

  -- One pair in the last loop, by the matches of its tag.
  unfoldable pub apply_matches :
      Text → Text → StringArgs FilePath Angle → List Text → Checked (StringArgs FilePath Angle)
  unfolding assign_match
  apply_matches tag val gridder_args [] = failed (unrecognized tag)
  apply_matches tag val gridder_args (m ∷ []) = assign_match m val gridder_args
  apply_matches tag val gridder_args (m ∷ m' ∷ ms) = failed (ambiguous tag)

  unfoldable pub apply_pairs :
      List (Text × Text) → StringArgs FilePath Angle → Checked (StringArgs FilePath Angle)
  unfolding apply_matches matching
  apply_pairs [] gridder_args = done gridder_args
  apply_pairs ((tag, val) ∷ pairs) gridder_args =
      apply_matches tag val gridder_args (matching tag tags) >>= λ next. apply_pairs pairs next

module _ {FilePath Angle : Type 0} (quoted : Text → Text)
    (load_file : Text → Text ⊎ List (Text × Text)) where
  -- matches.size() == 1, where the configuration file's tag is a match
  unfoldable pub load_match :
      Text → Text → StringArgs FilePath Angle → List Text → Checked (StringArgs FilePath Angle)
  unfolding load_config
  load_match tag val gridder_args (m ∷ []) =
      load_config quoted load_file val argument_provenance gridder_args
  load_match tag val gridder_args matches = failed (ambiguous tag)

  -- The loop over the pairs that loads the configuration files.
  unfoldable pub load_configs :
      List (Text × Text) → StringArgs FilePath Angle → Checked (StringArgs FilePath Angle)
  unfolding matching contains load_match
  load_configs [] gridder_args = done gridder_args
  load_configs ((tag, val) ∷ pairs) gridder_args =
      (if contains config_path_tag (matching tag tags)
        then load_match tag val gridder_args (matching tag tags)
        else done gridder_args)
      >>= λ next. load_configs pairs next

  -- The file that the environment names.
  unfoldable pub load_environment :
      Option Text → StringArgs FilePath Angle → Checked (StringArgs FilePath Angle)
  unfolding load_config
  load_environment none gridder_args = done gridder_args
  load_environment (some path) gridder_args =
      load_config quoted load_file path environment_provenance gridder_args

  -- get_args(args, gridder_args), with the value of std::getenv("HYPERION_GRIDDER_CONFIG").
  unfoldable pub get_args :
      Option Text → List Text → StringArgs FilePath Angle → Checked (StringArgs FilePath Angle)
  unfolding load_environment tokenize load_configs apply_pairs
  get_args environment argv gridder_args =
      load_environment environment gridder_args >>= λ with_environment.
      tokenize (suc (length argv)) argv >>= λ arg_pairs.
      load_configs arg_pairs with_environment >>= λ with_files. apply_pairs arg_pairs with_files
