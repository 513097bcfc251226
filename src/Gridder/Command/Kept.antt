-- ===== src/Gridder/Command/Kept.antt =====
-- `get_args` returns, and an argument that has a value before has one after it.
use legms.Prelude.{
  suc, ◌≡◌, refl, sym, ap, ◌∙◌, subst, ◌⊎◌, inl, inr, Bool, true, false, List, [], ◌∷◌, Option,
  none, some, length, Text, All, Bool-cases, if◌then◌else◌, if_true, if_false, arith,
}
use legms.Gridder.Args.{tags, has_value, config_path_tag}
use legms.Gridder.Fields.{StringArgs, Field, same_field, field, set_field, field-set_field}
use legms.Gridder.Fields.Values.{or_else}
use legms.Gridder.Checked.{
  Checked, failed, done, ◌>>=◌, Returns, bind-Returns, weaken-Returns, bad_config,
}
use legms.Gridder.Config.{
  ReadConfig, strings, args, read_config, override_field, override, use_config, load_config,
  exception_text,
}
use legms.Gridder.Config.Overrides.{field-override_field}
use legms.Gridder.Tokens.{tokenize}
use legms.Gridder.Tokens.Ends.{tokenize-Ends}
use legms.Gridder.Command.{
  matching, contains, assign_match, apply_matches, apply_pairs, load_match, load_configs,
  load_environment, get_args, argument_provenance, environment_provenance,
}
use legms.Gridder.Command.Assigned.{IsTag, tags-IsTag, matching-All, assign_match_tag}

has_value-or_else : (a b : Option Text) → has_value b ≡ true → has_value (or_else a b) ≡ true
unfolding has_value
has_value-or_else none b h = h
has_value-or_else (some v) b h = refl

tokenize-Returns :
    (argv : List Text) → Returns (λ arg_pairs. Unit) (tokenize (suc (length argv)) argv)
tokenize-Returns argv = elim (tokenize-Ends (suc (length argv)) argv (omega arith)) [
  | inl (arg_pairs, e) ↦ rw e tt
  | inr (tag, e) ↦ rw e tt
]

module _ {FilePath Angle : Type 0} where
  -- What has a value in the first arguments has one in the second ones.
  abbrev pub Kept : StringArgs FilePath Angle → StringArgs FilePath Angle → Type 0
  Kept before after =
      (f : Field) → has_value (field f before) ≡ true → has_value (field f after) ≡ true

  Kept-set_field :
      (f : Field) (val : Text) (a : StringArgs FilePath Angle) → Kept a (set_field f val a)
  unfolding has_value
  Kept-set_field f val a g h = elim (Bool-cases (same_field f g)) [
    | inl e ↦ ap has_value (field-set_field f g val a ∙ if_true (same_field f g) _ _ e)
    | inr e ↦ ap has_value (field-set_field f g val a ∙ if_false (same_field f g) _ _ e) ∙ h
  ]

  Kept-override_field :
      (g : Field) (config a : StringArgs FilePath Angle) → Kept a (override_field g config a)
  Kept-override_field g config a f h = elim (Bool-cases (same_field g f)) [
    | inl e ↦
        ap has_value (field-override_field f g config a ∙ if_true (same_field g f) _ _ e)
        ∙ has_value-or_else (field g config) (field f a) h
    | inr e ↦ ap has_value (field-override_field f g config a ∙ if_false (same_field g f) _ _ e) ∙ h
  ]

  Kept-override : (config a : StringArgs FilePath Angle) → Kept a (override config a)
  unfolding override
  Kept-override config a f h = Kept-override_field Field.w_planes config _ f (
      Kept-override_field Field.pa_block config _ f (
        Kept-override_field Field.pa_step config _ f (
          Kept-override_field Field.min_block config _ f (
            Kept-override_field Field.echo config _ f
              (Kept-override_field Field.h5_path config a f h)))))

  bind-Kept :
      (a : StringArgs FilePath Angle) (first : Checked (StringArgs FilePath Angle))
      (next : StringArgs FilePath Angle → Checked (StringArgs FilePath Angle))
      → Returns (Kept a) first
      → ((b : StringArgs FilePath Angle) → Returns (Kept b) (next b))
      → Returns (Kept a) (first >>= next)
  bind-Kept a first next r rs = bind-Returns (Kept a) (Kept a) first next r (λ b kept.
      weaken-Returns (Kept b) (Kept a) (next b) (λ c kept' f h. kept' f (kept f h)) (rs b))

  assign_match-Returns :
      (tag val : Text) (a : StringArgs FilePath Angle)
      → IsTag tag
      → Returns (Kept a) (assign_match tag val a)
  assign_match-Returns tag val a (f, e) =
      subst (Returns (Kept a)) (sym (ap (λ t. assign_match t val a) e ∙ assign_match_tag f val a))
        (Kept-set_field f val a)

  apply_matches-Returns :
      (tag val : Text) (a : StringArgs FilePath Angle) (matches : List Text)
      → All IsTag matches
      → Returns (Kept a) (apply_matches tag val a matches)
  unfolding apply_matches
  apply_matches-Returns tag val a [] h = tt
  apply_matches-Returns tag val a (m ∷ []) (is_tag, h) = assign_match-Returns m val a is_tag
  apply_matches-Returns tag val a (m ∷ m' ∷ matches) h = tt

  apply_pairs-Returns :
      (arg_pairs : List (Text × Text)) (a : StringArgs FilePath Angle)
      → Returns (Kept a) (apply_pairs arg_pairs a)
  unfolding apply_pairs
  apply_pairs-Returns [] a = λ f h. h
  apply_pairs-Returns ((tag, val) ∷ arg_pairs) a =
      bind-Kept a (apply_matches tag val a (matching tag tags)) _
        (apply_matches-Returns tag val a (matching tag tags) (matching-All tag tags tags-IsTag))
        (apply_pairs-Returns arg_pairs)

module _ {FilePath Angle : Type 0} (quoted : Text → Text)
    (load_file : Text → Text ⊎ List (Text × Text)) where
  use_config-Returns :
      (path config_provenance : Text) (a : StringArgs FilePath Angle)
      (config : ReadConfig FilePath Angle)
      → Returns (Kept a) (use_config quoted path config_provenance a config)
  unfolding use_config
  use_config-Returns path config_provenance a (strings tag more) = tt
  use_config-Returns path config_provenance a (args config) = Kept-override config a

  load_config-Returns :
      (path config_provenance : Text) (a : StringArgs FilePath Angle)
      → Returns (Kept a) (load_config quoted load_file path config_provenance a)
  unfolding load_config
  load_config-Returns path config_provenance a =
      elim (load_file path)
        as (λ loaded. Returns (Kept a) (elim loaded [
          | inl what ↦ failed (bad_config (exception_text quoted path config_provenance what))
          | inr entries ↦ use_config quoted path config_provenance a (read_config entries)
        ])) [
          | inl what ↦ tt
          | inr entries ↦ use_config-Returns path config_provenance a (read_config entries)
        ]

  load_match-Returns :
      (tag val : Text) (a : StringArgs FilePath Angle) (matches : List Text)
      → Returns (Kept a) (load_match quoted load_file tag val a matches)
  unfolding load_match
  load_match-Returns tag val a [] = tt
  load_match-Returns tag val a (m ∷ []) = load_config-Returns val argument_provenance a
  load_match-Returns tag val a (m ∷ m' ∷ matches) = tt

  if_Returns :
      (b : Bool) (a : StringArgs FilePath Angle) (first : Checked (StringArgs FilePath Angle))
      → Returns (Kept a) first
      → Returns (Kept a) (if b then first else done a)
  if_Returns true a first r = r
  if_Returns false a first r = λ f h. h

  load_configs-Returns :
      (arg_pairs : List (Text × Text)) (a : StringArgs FilePath Angle)
      → Returns (Kept a) (load_configs quoted load_file arg_pairs a)
  unfolding load_configs
  load_configs-Returns [] a = λ f h. h
  load_configs-Returns ((tag, val) ∷ arg_pairs) a =
      bind-Kept a _ _
        (if_Returns (contains config_path_tag (matching tag tags)) a _
          (load_match-Returns tag val a (matching tag tags)))
        (load_configs-Returns arg_pairs)

  load_environment-Returns :
      (environment : Option Text) (a : StringArgs FilePath Angle)
      → Returns (Kept a) (load_environment quoted load_file environment a)
  unfolding load_environment
  load_environment-Returns none a = λ f h. h
  load_environment-Returns (some path) a = load_config-Returns path environment_provenance a

  -- On every command line, environment and configuration files, `get_args` returns: it fails with a
  -- message, or it succeeds, and then an argument that had a value still has one.
  pub get_args-Returns :
      (environment : Option Text) (argv : List Text) (a : StringArgs FilePath Angle)
      → Returns (Kept a) (get_args quoted load_file environment argv a)
  unfolding get_args
  get_args-Returns environment argv a =
      bind-Kept a _ _ (load_environment-Returns environment a) (λ b.
        bind-Returns (λ arg_pairs. Unit) (Kept b) _ _ (tokenize-Returns argv)
          (λ arg_pairs u.
            bind-Kept b _ _ (load_configs-Returns arg_pairs b) (apply_pairs-Returns arg_pairs)))
