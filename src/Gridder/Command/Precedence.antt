-- ===== src/Gridder/Command/Precedence.antt =====
-- What `get_args` returns: the command line before the configuration files.
use legms.Prelude.{suc, ◌≡◌, sym, ap, ◌∙◌, List, ◌⊎◌, Option, length, Text}
use legms.Gridder.Fields.{StringArgs, Field, field}
use legms.Gridder.Fields.Values.{or_else, last_value, set_all, field-set_all}
use legms.Gridder.Checked.{done, returned_first, done-injective}
use legms.Gridder.Tokens.{tokenize}
use legms.Gridder.Command.{load_configs, load_environment, get_args}
use legms.Gridder.Command.Assigned.{Resolved, apply_pairs-Resolved, apply_pairs_done}

module _ {FilePath Angle : Type 0} (quoted : Text → Text)
    (load_file : Text → Text ⊎ List (Text × Text)) where
  -- If the command line has options whose tags are each a prefix of one tag of the program only, and
  -- the configuration files of the environment and of the command line load, then `get_args`
  -- succeeds, and each of its arguments is the last value that the command line gives it, or, without
  -- one, what it is after the files: the files do not override an option, not even one before them.
  pub get_args-last_value :
      (environment : Option Text) (argv : List Text)
      (args with_environment with_files : StringArgs FilePath Angle)
      (arg_pairs : List (Text × Text)) (assigned : List (Field × Text))
      → load_environment quoted load_file environment args ≡ done with_environment
      → tokenize (suc (length argv)) argv ≡ done arg_pairs
      → Resolved arg_pairs assigned
      → load_configs quoted load_file arg_pairs with_environment ≡ done with_files
      → (found : StringArgs FilePath Angle) × (get_args quoted load_file environment argv args
          ≡ done found)
        × ((f : Field) → field f found ≡ or_else (last_value f assigned) (field f with_files))
  unfolding get_args
  get_args-last_value environment argv args with_environment with_files arg_pairs assigned env line
        resolved files =
      (
        set_all assigned with_files,
        rw (env, line, files) (apply_pairs-Resolved with_files resolved),
        λ f. field-set_all f assigned with_files,
      )

  -- If `get_args` succeeds, then the command line has pairs of tags and values, each tag is a prefix of
  -- one tag of the program only, the configuration files load, and each argument is the last value that
  -- the command line gives it, or, without one, what it is after the files.
  pub get_args-Resolved :
      (environment : Option Text) (argv : List Text) (args found : StringArgs FilePath Angle)
      → get_args quoted load_file environment argv args ≡ done found
      → (arg_pairs : List (Text × Text)) × (assigned : List (Field × Text))
        × (with_environment : StringArgs FilePath Angle) × (with_files : StringArgs FilePath Angle)
        × (load_environment quoted load_file environment args ≡ done with_environment)
        × (tokenize (suc (length argv)) argv ≡ done arg_pairs)
        × Resolved arg_pairs assigned
        × (load_configs quoted load_file arg_pairs with_environment ≡ done with_files)
        × ((f : Field) → field f found ≡ or_else (last_value f assigned) (field f with_files))
  unfolding get_args
  get_args-Resolved environment argv args found e =
      let (with_environment, env, e1) =
        returned_first (load_environment quoted load_file environment args) _ e in
      let (arg_pairs, line, e2) = returned_first (tokenize (suc (length argv)) argv) _ e1 in
      let (with_files, files, e3) =
        returned_first (load_configs quoted load_file arg_pairs with_environment) _ e2 in
      let (assigned, resolved) = apply_pairs_done arg_pairs with_files found e3 in
      (
        arg_pairs,
        assigned,
        with_environment,
        with_files,
        env,
        line,
        resolved,
        files,
        λ f.
            ap (field f) (done-injective (sym e3 ∙ apply_pairs-Resolved with_files resolved))
            ∙ field-set_all f assigned with_files,
      )
