-- ===== src/Gridder/Startup/Starts.antt =====
-- What the task starts with.
use legms.Prelude.{
  ℕ, ◌≡◌, refl, sym, subst, ◌⊎◌, inl, inr, Bool, true, List, ◌∷◌, Option, none, some, Text,
  Bool-cases, Option-cases, Result, ok, throws, ◌>>=◌, if_true, if_false,
}
use legms.Prelude.Int.{ℤ}
use legms.Gridder.Args.{
  h5_path_tag, config_path_tag, echo_tag, min_block_tag, pa_step_tag, pa_block_tag, w_planes_tag,
  Args, value_args, string_args, opt_string_args, has_value, as_complete,
}
use legms.Gridder.Fields.{StringArgs, Field, field}
use legms.Gridder.Checked.{Checked, Returns}
use legms.Gridder.Tokens.{has_help_flag}
use legms.Gridder.Nodes.{Yaml, as_node, as_args, read_scalar, Scalar}
use legms.Gridder.Command.{get_args}
use legms.Gridder.Command.Kept.{Kept, get_args-Returns}
use legms.Gridder.Validate.{Platform, validate_args}
use legms.Gridder.Validate.Valid.{
  IsValid, validate_args-IsValid, validate_args-throws, validate_args_ends,
}
use legms.Gridder.Startup.{
  Outcome, default_config, helps, rejects, lacks_h5_path, unparsed, invalid, starts, file_error,
  aborts, start_task, use_values, use_node, use_complete, use_args, process_arguments,
}

given : {A : Type 0} (o : Option A) → has_value o ≡ true → (a : A) × (o ≡ some a)
unfolding has_value
given none h = cc
given (some a) h = (a, refl)

abbrev HasValue : {A : Type 0} → Result A → Type 0
HasValue throws = ⊥
HasValue Result.out_of_fuel = ⊥
HasValue (ok a) = Unit

abbrev HasSome : {A : Type 0} → Result (Option A) → Type 0
HasSome throws = ⊥
HasSome Result.out_of_fuel = ⊥
HasSome (ok none) = ⊥
HasSome (ok (some a)) = Unit

-- The code returns or throws.
unfoldable Halts : {A : Type 0} → Result A → Type 0
Halts throws = Unit
Halts Result.out_of_fuel = ⊥
Halts (ok a) = Unit

ok-Halts : {A : Type 0} (a : A) → Halts (ok a)
unfolding Halts
ok-Halts a = tt

bind-Halts :
    {A B : Type 0} (first : Result A) (next : A → Result B)
    → Halts first
    → ((a : A) → Halts (next a))
    → Halts (first >>= next)
unfolding Halts
bind-Halts throws next h hs = h
bind-Halts Result.out_of_fuel next h hs = h
bind-Halts (ok a) next h hs = hs a

module _ {FilePath Angle : Type 0} (platform : Platform FilePath Angle) (abs : Angle → Angle)
    (yaml : Yaml FilePath Angle) where
  -- The task returns, or it starts with arguments that are valid but for the sign of the step, or the
  -- file system cannot tell what a path is.
  abbrev pub Answers : Outcome FilePath Angle → Type 0
  Answers helps = Unit
  Answers (rejects why) = Unit
  Answers lacks_h5_path = Unit
  Answers unparsed = Unit
  Answers (invalid errstr) = Unit
  Answers (starts args) =
      (valid : Args FilePath Angle value_args) × IsValid platform valid
      × (args ≡ record valid { pa_step = abs valid.pa_step })
  Answers (file_error path) = platform.is_regular_file path ≡ none
  Answers aborts = ⊥
  Answers Outcome.out_of_fuel = ⊥

  start_task-Answers :
      (args : Args FilePath Angle value_args) (errstr : Result (Option Text))
      → validate_args platform args ≡ errstr
      → Answers (start_task platform abs yaml args errstr)
  unfolding start_task
  start_task-Answers args throws e = validate_args-throws platform args e
  start_task-Answers args Result.out_of_fuel e = absurd (validate_args_ends platform args e)
  start_task-Answers args (ok none) e = (args, (validate_args-IsValid platform args).0 e, refl)
  start_task-Answers args (ok (some text)) e = tt

  use_values-Answers :
      (values : Result (Args FilePath Angle value_args))
      → Halts values
      → Answers (use_values platform abs yaml values)
  unfolding use_values Halts
  use_values-Answers throws h = tt
  use_values-Answers Result.out_of_fuel h = h
  use_values-Answers (ok args) h = start_task-Answers args (validate_args platform args) refl

  read_scalar-Halts :
      (T : Type 0) (s : Scalar T) (text : Option Text) → Halts (read_scalar yaml T s text)
  unfolding read_scalar Halts
  read_scalar-Halts T s none = tt
  read_scalar-Halts T s (some text) = elim (Option-cases (s.parse text)) [
    | inl e ↦ rw (read_scalar, e) tt
    | inr (t, e) ↦ rw (read_scalar, e) tt
  ]

  config_path-Halts :
      (text : Option Text)
      → Halts (elim text as (λ x. Result (Option FilePath)) [
        | none ↦ ok none
        | some text ↦
            read_scalar yaml FilePath yaml.path_scalar (some text) >>= λ path. ok (some path)
      ])
  unfolding Halts
  config_path-Halts none = tt
  config_path-Halts (some text) =
      bind-Halts (read_scalar yaml FilePath yaml.path_scalar (some text)) _
        (read_scalar-Halts FilePath yaml.path_scalar (some text)) (λ path. tt)

  as_args-Halts : (node : yaml.Node) → Halts (as_args yaml node)
  unfolding as_args
  as_args-Halts node =
      bind-Halts _ _ (read_scalar-Halts FilePath yaml.path_scalar (yaml.get h5_path_tag node))
        (λ h5_path.
          bind-Halts _ _ (config_path-Halts (yaml.get config_path_tag node)) (λ config_path.
            bind-Halts _ _ (read_scalar-Halts Bool yaml.bool_scalar (yaml.get echo_tag node))
              (λ echo.
                bind-Halts _ _ (read_scalar-Halts ℕ yaml.size_scalar (yaml.get min_block_tag node))
                  (λ min_block.
                    bind-Halts _ _
                      (read_scalar-Halts Angle yaml.angle_scalar (yaml.get pa_step_tag node))
                      (λ pa_step.
                        bind-Halts _ _
                          (read_scalar-Halts ℕ yaml.size_scalar (yaml.get pa_block_tag node))
                          (λ pa_block.
                            bind-Halts _ _
                              (read_scalar-Halts ℤ yaml.int_scalar (yaml.get w_planes_tag node))
                              (λ w_planes. ok-Halts _)))))))

  as_node_returns :
      (args : Args FilePath Angle string_args) → HasValue (as_node yaml string_args args)
  unfolding as_node
  as_node_returns args = elim (Option-cases args.config_path) [
    | inl e ↦ rw (as_node, e) tt
    | inr (path, e) ↦ rw (as_node, e) tt
  ]

  as_complete_returns :
      (a : StringArgs FilePath Angle)
      → has_value a.h5_path ≡ true
      → has_value a.echo ≡ true
      → has_value a.min_block ≡ true
      → has_value a.pa_step ≡ true
      → has_value a.pa_block ≡ true
      → has_value a.w_planes ≡ true
      → HasSome (as_complete opt_string_args a)
  unfolding as_complete
  as_complete_returns a h1 h2 h3 h4 h5 h6 =
      let (v1, e1) = given a.h5_path h1 in
      let (v2, e2) = given a.echo h2 in
      let (v3, e3) = given a.min_block h3 in
      let (v4, e4) = given a.pa_step h4 in
      let (v5, e5) = given a.pa_block h5 in
      let (v6, e6) = given a.w_planes h6 in
      elim (Option-cases a.config_path) [
        | inl e ↦ rw (as_complete, e1, e2, e3, e4, e5, e6, e) tt
        | inr (path, e) ↦ rw (as_complete, e1, e2, e3, e4, e5, e6, e) tt
      ]

  use_node-Answers :
      (node : Result yaml.Node) → HasValue node → Answers (use_node platform abs yaml node)
  unfolding use_node
  use_node-Answers throws h = h
  use_node-Answers Result.out_of_fuel h = h
  use_node-Answers (ok node) h = use_values-Answers (as_args yaml node) (as_args-Halts node)

  use_complete-Answers :
      (str_args : Result (Option (Args FilePath Angle string_args)))
      → HasSome str_args
      → Answers (use_complete platform abs yaml str_args)
  unfolding use_complete
  use_complete-Answers throws h = h
  use_complete-Answers Result.out_of_fuel h = h
  use_complete-Answers (ok none) h = h
  use_complete-Answers (ok (some str_args)) h =
      use_node-Answers (as_node yaml string_args str_args) (as_node_returns str_args)

  use_args-Answers :
      (c : Checked (StringArgs FilePath Angle))
      → Returns (Kept default_config) c
      → Answers (use_args platform abs yaml c)
  unfolding use_args has_value field
  use_args-Answers (Checked.failed why) r = tt
  use_args-Answers Checked.out_of_fuel r = r
  use_args-Answers Checked.aborted r = r
  use_args-Answers (Checked.done a) r = elim (Bool-cases (has_value a.h5_path)) [
    | inl e ↦ subst Answers (sym (if_true (has_value a.h5_path) _ _ e)) (
        use_complete-Answers (as_complete opt_string_args a) (
          as_complete_returns a e (r Field.echo refl) (r Field.min_block refl)
            (r Field.pa_step refl) (r Field.pa_block refl) (r Field.w_planes refl)))
    | inr e ↦ subst Answers (sym (if_false (has_value a.h5_path) _ _ e)) tt
  ]

  -- On every command line, environment and configuration files, the argument processing ends: the task
  -- returns, or it goes on with arguments that the validation accepts, with the absolute value of the
  -- step, or the test for a regular file throws for a path. No assertion fails, and no other exception
  -- leaves the task: those of YAML are caught.
  pub process_arguments-Answers :
      (quoted : Text → Text) (load_file : Text → Text ⊎ List (Text × Text))
      (environment : Option Text) (program : Text) (argv : List Text)
      → Answers (process_arguments platform abs yaml quoted load_file environment program argv)
  unfolding process_arguments
  process_arguments-Answers quoted load_file environment program argv =
      elim (Bool-cases (has_help_flag (program ∷ argv))) [
        | inl e ↦ rw (process_arguments, e) tt
        | inr e ↦
            rw (process_arguments, e)
              (use_args-Answers (get_args quoted load_file environment argv default_config)
                (get_args-Returns quoted load_file environment argv default_config))
      ]
