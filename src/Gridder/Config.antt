-- ===== src/Gridder/Config.antt =====
-- hyperion/gridder/args.cc: `read_config` and `load_config`. Loading a YAML file is the yaml-cpp
-- library's: a function from paths to the entries of the file, or to the text of an exception.
pub mod Overrides
use legms.Prelude.{
  ℕ, Bool, true, false, List, [], ◌∷◌, ◌++◌, ◌⊎◌, inl, inr, Option, none, some, if◌then◌else◌, Text,
  codes, ◌≡◌,
}
use legms.Utility.Strings.{str_eq}
use legms.Gridder.Args.{
  Args, blank, h5_path_tag, echo_tag, min_block_tag, pa_step_tag, pa_block_tag, w_planes_tag,
}
use legms.Gridder.Fields
use legms.Gridder.Fields.{StringArgs, Field, field, set_field}
use legms.Gridder.Checked.{Checked, failed, done, bad_config, endl}

-- The result of read_config: a list of tags, or arguments.
pub data ReadConfig (FilePath Angle : Type 0) : Type 0 where
  strings : Text → List Text → ReadConfig FilePath Angle
  args : StringArgs FilePath Angle → ReadConfig FilePath Angle

module _ {FilePath Angle : Type 0} where
  -- The chain of comparisons of a key with the tags; `none` is its last `else`.
  unfoldable pub set_entry :
      Text → Text → StringArgs FilePath Angle → Option (StringArgs FilePath Angle)
  unfolding str_eq set_field
  set_entry key val config =
      if str_eq key h5_path_tag
      then some (set_field Field.h5_path val config)
      else if str_eq key echo_tag
      then some (set_field Field.echo val config)
      else if str_eq key min_block_tag
      then some (set_field Field.min_block val config)
      else if str_eq key pa_step_tag
      then some (set_field Field.pa_step val config)
      else if str_eq key pa_block_tag
      then some (set_field Field.pa_block val config)
      else if str_eq key w_planes_tag
      then some (set_field Field.w_planes val config)
      else none

  -- The loop of read_config, and its end.
  unfoldable pub read_entries :
      List Text → StringArgs FilePath Angle → List (Text × Text) → ReadConfig FilePath Angle
  unfolding set_entry
  read_entries [] config [] = args config
  read_entries (tag ∷ invalid_tags) config [] = strings tag invalid_tags
  read_entries invalid_tags config ((key, val) ∷ entries) = elim (set_entry key val config) [
    | none ↦ read_entries (key ∷ invalid_tags) config entries
    | some config' ↦ read_entries invalid_tags config' entries
  ]

  unfoldable pub read_config : List (Text × Text) → ReadConfig FilePath Angle
  unfolding read_entries
  read_config entries = read_entries [] blank entries

  -- if (args.f) gridder_args.f = args.f.value();
  unfoldable pub override_field :
      Field → StringArgs FilePath Angle → StringArgs FilePath Angle → StringArgs FilePath Angle
  unfolding field set_field
  override_field f config gridder_args = elim (field f config) [
    | none ↦ gridder_args
    | some val ↦ set_field f val gridder_args
  ]

  unfoldable pub override :
      StringArgs FilePath Angle → StringArgs FilePath Angle → StringArgs FilePath Angle
  unfolding override_field
  override config gridder_args = override_field Field.w_planes config (
      override_field Field.pa_block config (
        override_field Field.pa_step config (
          override_field Field.min_block config
            (override_field Field.echo config (override_field Field.h5_path config gridder_args)))))

-- The other invalid tags, each behind a comma.
unfoldable pub comma_separated : List Text → Text
comma_separated [] = []
comma_separated (tag ∷ tags) = codes ", " ++ (tag ++ comma_separated tags)

unfoldable pub invalid_tags_text : (Text → Text) → Text → Text → Text → List Text → Text
unfolding comma_separated
invalid_tags_text quoted path config_provenance tag tags =
    codes "Invalid configuration variable tags in file named by "
    ++ (config_provenance
        ++ (endl
            ++ (codes " at '"
                ++ (quoted path
                    ++ (codes "': " ++ (endl ++ (tag ++ (comma_separated tags ++ endl))))))))

unfoldable pub exception_text : (Text → Text) → Text → Text → Text → Text
exception_text quoted path config_provenance what =
    codes "Failed to parse configuration file named by "
    ++ (config_provenance
        ++ (endl ++ (codes " at '" ++ (quoted path ++ (codes "':" ++ (endl ++ (what ++ endl)))))))

-- load_config(path, config_provenance, gridder_args); `quoted` is what std::ostream writes for a path.
-- A failure has the text that the code returns.
module _ {FilePath Angle : Type 0} (quoted : Text → Text) where
  unfoldable pub use_config :
      Text
      → Text
      → StringArgs FilePath Angle
      → ReadConfig FilePath Angle
      → Checked (StringArgs FilePath Angle)
  unfolding override invalid_tags_text
  use_config path config_provenance gridder_args (strings tag tags) =
      failed (bad_config (invalid_tags_text quoted path config_provenance tag tags))
  use_config path config_provenance gridder_args (args config) = done (override config gridder_args)

  unfoldable pub load_config :
      (Text → Text ⊎ List (Text × Text))
      → Text
      → Text
      → StringArgs FilePath Angle
      → Checked (StringArgs FilePath Angle)
  unfolding read_config use_config exception_text
  load_config load_file path config_provenance gridder_args = elim (load_file path) [
    | inl what ↦ failed (bad_config (exception_text quoted path config_provenance what))
    | inr entries ↦ use_config path config_provenance gridder_args (read_config entries)
  ]
