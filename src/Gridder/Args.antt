-- ===== src/Gridder/Args.antt =====
-- hyperion/gridder/args.h: the arguments of the gridder, as values or as texts, with or without all of
-- them given. `ArgType` holds a value with its tag and its description; both are constants of
-- `ArgsBase`, which every constructor of `Args` passes on, so that only the value is kept here.
use legms.Prelude.{
  ℕ, Bool, true, false, ◌&&◌, List, [], ◌∷◌, Option, none, some, if◌then◌else◌, Result, ok, throws,
  ◌>>=◌, Text, codes,
}
use legms.Prelude.Int.{ℤ}

-- args_t
pub data ArgsKind : Type 0 where
  value_args string_args opt_value_args opt_string_args : ArgsKind

-- ArgsCompletion
unfoldable pub completion : ArgsKind → ArgsKind
completion value_args = value_args
completion string_args = string_args
completion opt_value_args = value_args
completion opt_string_args = string_args

-- The type of `val` in ArgType<T, OPT, G>.
abbrev pub Val : Type 0 → Bool → ArgsKind → Type 0
Val T false value_args = T
Val T true value_args = Option T
Val T false string_args = Text
Val T true string_args = Option Text
Val T opt opt_value_args = Option T
Val T opt opt_string_args = Option Text

-- The type of `value()`.
abbrev pub Value : Type 0 → ArgsKind → Type 0
Value T value_args = T
Value T string_args = Text
Value T opt_value_args = T
Value T opt_string_args = Text

-- std::optional::value
unfoldable pub optional_value : {A : Type 0} → Option A → Result A
optional_value none = throws
optional_value (some v) = ok v

-- value(). In ArgType<T, false, OPT_VALUE_ARGS> the code returns the optional itself, which does not
-- compile where it is used; it is read as in the other specialisations.
unfoldable pub value : (T : Type 0) (opt : Bool) (G : ArgsKind) → Val T opt G → Result (Value T G)
unfolding optional_value
value T false value_args val = ok val
value T true value_args val = optional_value val
value T false string_args val = ok val
value T true string_args val = optional_value val
value T false opt_value_args val = optional_value val
value T true opt_value_args val = optional_value val
value T false opt_string_args val = optional_value val
value T true opt_string_args val = optional_value val

unfoldable pub has_value : {A : Type 0} → Option A → Bool
has_value none = false
has_value (some v) = true

-- operator bool
unfoldable pub is_set : (T : Type 0) (opt : Bool) (G : ArgsKind) → Val T opt G → Bool
unfolding has_value
is_set T false value_args val = true
is_set T true value_args val = has_value val
is_set T false string_args val = true
is_set T true string_args val = has_value val
is_set T false opt_value_args val = has_value val
is_set T true opt_value_args val = has_value val
is_set T false opt_string_args val = has_value val
is_set T true opt_string_args val = has_value val

-- operator=(const T&) and operator=(const std::string&)
unfoldable pub assign : (T : Type 0) (opt : Bool) (G : ArgsKind) → Value T G → Val T opt G
assign T false value_args t = t
assign T true value_args t = some t
assign T false string_args str = str
assign T true string_args str = some str
assign T false opt_value_args t = some t
assign T true opt_value_args t = some t
assign T false opt_string_args str = some str
assign T true opt_string_args str = some str

-- A value is one of the completed kind, too.
unfoldable pub completed : (T : Type 0) (G : ArgsKind) → Value T G → Val T false (completion G)
unfolding completion
completed T value_args v = v
completed T string_args v = v
completed T opt_value_args v = v
completed T opt_string_args v = v

unfoldable pub completed_optional :
    (T : Type 0) (G : ArgsKind) → Option (Value T G) → Val T true (completion G)
unfolding completion
completed_optional T value_args v = v
completed_optional T string_args v = v
completed_optional T opt_value_args v = v
completed_optional T opt_string_args v = v

abbrev pub h5_path_tag : Text
h5_path_tag = codes "h5"

abbrev pub config_path_tag : Text
config_path_tag = codes "configuration"

abbrev pub echo_tag : Text
echo_tag = codes "echo"

abbrev pub min_block_tag : Text
min_block_tag = codes "min_block"

abbrev pub pa_step_tag : Text
pa_step_tag = codes "pa_step"

abbrev pub pa_block_tag : Text
pa_block_tag = codes "pa_block"

abbrev pub w_planes_tag : Text
w_planes_tag = codes "w_proj_planes"

abbrev pub tags : List Text
tags =
    h5_path_tag ∷ config_path_tag ∷ echo_tag ∷ min_block_tag ∷ pa_step_tag ∷ pa_block_tag
    ∷ w_planes_tag ∷ []

-- Args<G>. `FilePath` is CXX_FILESYSTEM_NAMESPACE::path, `Angle` is PARALLACTIC_ANGLE_TYPE, a float.
pub record Args (FilePath Angle : Type 0) (G : ArgsKind) : Type 0 where
  pub h5_path : Val FilePath false G
  pub config_path : Val FilePath true G
  pub echo : Val Bool false G
  pub min_block : Val ℕ false G
  pub pa_step : Val Angle false G
  pub pa_block : Val ℕ false G
  pub w_planes : Val ℤ false G

module _ {FilePath Angle : Type 0} where
  -- Args(), at the kind for which the program calls it
  abbrev pub blank : Args FilePath Angle opt_string_args
  blank = record {
    h5_path = none;
    config_path = none;
    echo = none;
    min_block = none;
    pa_step = none;
    pa_block = none;
    w_planes = none;
  }

  unfoldable pub is_complete : (G : ArgsKind) → Args FilePath Angle G → Bool
  unfolding is_set
  is_complete G args =
      is_set FilePath false G args.h5_path
      && (is_set Bool false G args.echo
          && (is_set ℕ false G args.min_block
              && (is_set Angle false G args.pa_step
                  && (is_set ℕ false G args.pa_block && is_set ℤ false G args.w_planes))))

  -- The new Args of as_complete().
  unfoldable pub complete :
      (G : ArgsKind) → Args FilePath Angle G → Result (Args FilePath Angle (completion G))
  unfolding value is_set completed completed_optional
  complete G args = do
    h5_path ← value FilePath false G args.h5_path
    config_path ←
        if is_set FilePath true G args.config_path
        then (value FilePath true G args.config_path >>= λ v. ok (some v))
        else ok none
    echo ← value Bool false G args.echo
    min_block ← value ℕ false G args.min_block
    pa_step ← value Angle false G args.pa_step
    pa_block ← value ℕ false G args.pa_block
    w_planes ← value ℤ false G args.w_planes
    ok (record {
      h5_path = completed FilePath G h5_path;
      config_path = completed_optional FilePath G config_path;
      echo = completed Bool G echo;
      min_block = completed ℕ G min_block;
      pa_step = completed Angle G pa_step;
      pa_block = completed ℕ G pa_block;
      w_planes = completed ℤ G w_planes;
    })

  unfoldable pub as_complete :
      (G : ArgsKind) → Args FilePath Angle G → Result (Option (Args FilePath Angle (completion G)))
  unfolding is_complete complete
  as_complete G args =
      if is_complete G args then (complete G args >>= λ result. ok (some result)) else ok none
