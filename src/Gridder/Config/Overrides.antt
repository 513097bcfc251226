-- ===== src/Gridder/Config/Overrides.antt =====
-- What a configuration file does to the arguments.
use legms.Prelude.{
  false, ◌++◌, codes, append-nil, append_assoc, ◌≡◌, refl, ap, sym, ◌∙◌, ◌⊎◌, inl, inr, List, [],
  ◌∷◌, Option, none, some, if◌then◌else◌, Text, All, subst, arith, if_true, if_false, Option-cases,
  Bool-cases,
}
use mathlib.Core.Option
use legms.Utility.Strings.{str_eq}
use legms.Gridder.Args.{blank}
use legms.Gridder.Fields.{
  StringArgs, Field, h5_path, config_path, echo, min_block, pa_step, pa_block, w_planes, tag_of,
  same_field, field, set_field, field-set_field,
}
use legms.Gridder.Fields.Values.{or_else, or_else-none, last_value, set_all, field-set_all}
use legms.Gridder.Checked.{done, failed, bad_config, endl}
use legms.Gridder.Config.{
  ReadConfig, strings, args, set_entry, read_entries, read_config, override_field, override,
  comma_separated, invalid_tags_text, load_config,
}

-- The first of some names with a tag.
unfoldable pub search : Text → List Field → Option Field
search key [] = none
search key (f ∷ fs) = if str_eq key (tag_of f) then some f else search key fs

-- The names that a file may give: any name but the one of the file.
abbrev file_names : List Field
file_names = h5_path ∷ echo ∷ min_block ∷ pa_step ∷ pa_block ∷ w_planes ∷ []

-- The name that a key of a file stands for.
unfoldable pub name_of : Text → Option Field
unfolding search
name_of key = search key file_names

unfoldable pub assignments : List (Text × Text) → List (Field × Text)
unfolding name_of
assignments [] = []
assignments ((key, val) ∷ entries) = elim (name_of key) [
  | none ↦ assignments entries
  | some f ↦ (f, val) ∷ assignments entries
]

-- The keys that stand for no name, each in front of those before it.
unfoldable pub unknown_keys : List Text → List (Text × Text) → List Text
unfolding name_of
unknown_keys before [] = before
unknown_keys before ((key, val) ∷ entries) = elim (name_of key) [
  | none ↦ unknown_keys (key ∷ before) entries
  | some f ↦ unknown_keys before entries
]

same_name : {f g : Field} → some f ≡ some g → f ≡ g
same_name e = cc

search_all :
    (P : Field → Type 0) (key : Text) (fs : List Field) (f : Field)
    → All P fs
    → search key fs ≡ some f
    → P f
unfolding search
search_all P key [] f h e = cc
search_all P key (g ∷ fs) f (h, hs) e = elim (Bool-cases (str_eq key (tag_of g))) [
  | inl b ↦ subst P (same_name (sym (if_true (str_eq key (tag_of g)) _ _ b) ∙ e)) h
  | inr b ↦ search_all P key fs f hs (sym (if_false (str_eq key (tag_of g)) _ _ b) ∙ e)
]

name_of-own : (key : Text) (f : Field) → name_of key ≡ some f → same_field f config_path ≡ false
unfolding name_of same_field
name_of-own key f e =
    search_all (λ g. same_field g config_path ≡ false) key file_names f
      (refl, (refl, (refl, (refl, (refl, (refl, tt)))))) e

no_file-assignments :
    (entries : List (Text × Text)) → last_value config_path (assignments entries) ≡ none
unfolding assignments
no_file-assignments [] = refl
no_file-assignments ((key, val) ∷ entries) = elim (Option-cases (name_of key)) [
  | inl e ↦ rw (assignments, e) (no_file-assignments entries)
  | inr (f, e) ↦ rw (assignments, e, no_file-assignments entries, name_of-own key f e) refl
]

module _ {FilePath Angle : Type 0} where
  abbrev report : List Text → StringArgs FilePath Angle → ReadConfig FilePath Angle
  report [] config = args config
  report (tag ∷ tags) config = strings tag tags

  set_entry-name_of :
      (key val : Text) (config : StringArgs FilePath Angle)
      → set_entry key val config ≡ Option.map (λ f. set_field f val config) (name_of key)
  unfolding set_entry name_of search
  set_entry-name_of key val config = ground arith

  entry-known :
      (key val : Text) (config : StringArgs FilePath Angle) (f : Field)
      → name_of key ≡ some f
      → set_entry key val config ≡ some (set_field f val config)
  entry-known key val config f e =
      set_entry-name_of key val config ∙ ap (Option.map (λ g. set_field g val config)) e

  entry-unknown :
      (key val : Text) (config : StringArgs FilePath Angle)
      → name_of key ≡ none
      → set_entry key val config ≡ none
  entry-unknown key val config e =
      set_entry-name_of key val config ∙ ap (Option.map (λ g. set_field g val config)) e

  read_entries-report :
      (entries : List (Text × Text)) (before : List Text) (config : StringArgs FilePath Angle)
      → read_entries before config entries
        ≡ report (unknown_keys before entries) (set_all (assignments entries) config)
  unfolding read_entries unknown_keys assignments
  read_entries-report [] [] config = refl
  read_entries-report [] (tag ∷ tags) config = refl
  read_entries-report ((key, val) ∷ entries) before config = elim (Option-cases (name_of key)) [
    | inl e ↦
        rw (unknown_keys, assignments, read_entries, e, entry-unknown key val config e)
          (read_entries-report entries (key ∷ before) config)
    | inr (f, e) ↦
        rw (unknown_keys, assignments, read_entries, e, entry-known key val config f e)
          (read_entries-report entries before (set_field f val config))
  ]

  pub field-override_field :
      (f g : Field) (config a : StringArgs FilePath Angle)
      → field f (override_field g config a)
        ≡ (if same_field g f then or_else (field g config) (field f a) else field f a)
  unfolding override_field
  field-override_field f g config a = elim (Option-cases (field g config)) [
    | inl e ↦ rw (override_field, e) (ground arith)
    | inr (v, e) ↦ rw (override_field, e) (field-set_field g f v a)
  ]

  -- An argument of the file goes before the one that was there, except for the file's own path.
  field-override :
      (f : Field) (config a : StringArgs FilePath Angle)
      → field config_path config ≡ none
      → field f (override config a) ≡ or_else (field f config) (field f a)
  unfolding override same_field
  field-override h5_path config a h = simp (field-override_field)
  field-override config_path config a h = simp (field-override_field, h)
  field-override echo config a h = simp (field-override_field)
  field-override min_block config a h = simp (field-override_field)
  field-override pa_step config a h = simp (field-override_field)
  field-override pa_block config a h = simp (field-override_field)
  field-override w_planes config a h = simp (field-override_field)

field-blank :
    (FilePath Angle : Type 0) (f : Field)
    → field f (blank {FilePath = FilePath} {Angle = Angle}) ≡ none
unfolding field
field-blank FilePath Angle h5_path = refl
field-blank FilePath Angle config_path = refl
field-blank FilePath Angle echo = refl
field-blank FilePath Angle min_block = refl
field-blank FilePath Angle pa_step = refl
field-blank FilePath Angle pa_block = refl
field-blank FilePath Angle w_planes = refl

-- Texts one behind the other, with `sep` between two of them.
unfoldable pub intercalate : Text → List Text → Text
intercalate sep [] = []
intercalate sep (t ∷ []) = t
intercalate sep (t ∷ u ∷ ts) = t ++ (sep ++ intercalate sep (u ∷ ts))

listed :
    (tag : Text) (tags : List Text)
    → tag ++ comma_separated tags ≡ intercalate (codes ", ") (tag ∷ tags)
unfolding intercalate comma_separated
listed tag [] = append-nil tag
listed tag (t ∷ tags) = ap (λ s. tag ++ (codes ", " ++ s)) (listed t tags)

-- The text of a failure with these tags.
abbrev pub tags_text : (Text → Text) → Text → Text → List Text → Text
tags_text quoted path config_provenance tags =
    codes "Invalid configuration variable tags in file named by "
    ++ (config_provenance
        ++ (endl
            ++ (codes " at '"
                ++ (quoted path
                    ++ (codes "': " ++ (endl ++ (intercalate (codes ", ") tags ++ endl)))))))

invalid_tags_text-listed :
    (quoted : Text → Text) (path config_provenance tag : Text) (tags : List Text)
    → invalid_tags_text quoted path config_provenance tag tags
      ≡ tags_text quoted path config_provenance (tag ∷ tags)
unfolding invalid_tags_text
invalid_tags_text-listed quoted path config_provenance tag tags =
    let same : tag ++ (comma_separated tags ++ endl)
        ≡ intercalate (codes ", ") (tag ∷ tags) ++ endl =
      sym (append_assoc tag (comma_separated tags) endl) ∙ ap (λ s. s ++ endl) (listed tag tags) in
    rw same refl

module _ {FilePath Angle : Type 0} (quoted : Text → Text)
    (load_file : Text → Text ⊎ List (Text × Text)) where
  -- If a configuration file loads and all of its keys are tags of arguments, other than the tag of the
  -- file, then `load_config` succeeds, and every argument is the last value that the file gives it, or,
  -- without one, what it was before.
  pub load_config-last_value :
      (path config_provenance : Text) (gridder_args : StringArgs FilePath Angle)
      (entries : List (Text × Text))
      → load_file path ≡ inr entries
      → unknown_keys [] entries ≡ []
      → (found : StringArgs FilePath Angle) × (load_config quoted load_file path config_provenance
            gridder_args
          ≡ done found)
        × ((f : Field)
            → field f found ≡ or_else (last_value f (assignments entries)) (field f gridder_args))
  unfolding load_config
  load_config-last_value path config_provenance gridder_args entries file known =
      let config : StringArgs FilePath Angle = set_all (assignments entries) blank in
      let given : (f : Field) → field f config ≡ last_value f (assignments entries) = λ f.
        field-set_all f (assignments entries) blank
        ∙ (ap (or_else (last_value f (assignments entries))) (field-blank FilePath Angle f)
            ∙ or_else-none (last_value f (assignments entries))) in
      (
        override config gridder_args,
        rw (load_config, file, read_config, read_entries-report entries [] blank, known) refl,
        λ f.
            field-override f config gridder_args (given config_path ∙ no_file-assignments entries)
            ∙ ap (λ o. or_else o (field f gridder_args)) (given f),
      )

  -- If a configuration file has keys that are no tags of arguments, or its own tag, then `load_config`
  -- fails with a text that says where the file is, and names all of them, the last one first and with a
  -- comma and a space between two of them.
  pub load_config-unknown_keys :
      (path config_provenance : Text) (gridder_args : StringArgs FilePath Angle)
      (entries : List (Text × Text)) (tag : Text) (tags : List Text)
      → load_file path ≡ inr entries
      → unknown_keys [] entries ≡ tag ∷ tags
      → load_config quoted load_file path config_provenance gridder_args
        ≡ failed (bad_config (tags_text quoted path config_provenance (unknown_keys [] entries)))
  unfolding load_config
  load_config-unknown_keys path config_provenance gridder_args entries tag tags file unknown =
      rw (load_config, file, read_config, read_entries-report entries [] blank, unknown)
        (ap (λ text. failed (bad_config text))
          (invalid_tags_text-listed quoted path config_provenance tag tags))
