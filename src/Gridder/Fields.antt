-- ===== src/Gridder/Fields.antt =====
-- hyperion/gridder/args.h: the members of `Args` with optional texts, by name. `set_field` is the
-- assignment of a text to a member, and `field` its `val`.
pub mod Values
use legms.Prelude.{
  ℕ, ◌≡◌, refl, Bool, true, false, Option, none, some, ◌==◌, if◌then◌else◌, Text, List, [], ◌∷◌,
  arith,
}
use legms.Gridder.Args.{
  opt_string_args, Args, h5_path_tag, config_path_tag, echo_tag, min_block_tag, pa_step_tag,
  pa_block_tag, w_planes_tag, assign,
}

pub data Field : Type 0 where
  h5_path config_path echo min_block pa_step pa_block w_planes : Field

abbrev pub tag_of : Field → Text
tag_of h5_path = h5_path_tag
tag_of config_path = config_path_tag
tag_of echo = echo_tag
tag_of min_block = min_block_tag
tag_of pa_step = pa_step_tag
tag_of pa_block = pa_block_tag
tag_of w_planes = w_planes_tag

-- Whether two names are one.
abbrev place : Field → ℕ
place h5_path = 0
place config_path = 1
place echo = 2
place min_block = 3
place pa_step = 4
place pa_block = 5
place w_planes = 6

unfoldable pub same_field : Field → Field → Bool
same_field f g = place f == place g

abbrev pub StringArgs : Type 0 → Type 0 → Type 0
StringArgs FilePath Angle = Args FilePath Angle opt_string_args

module _ {FilePath Angle : Type 0} where
  unfoldable pub field : Field → StringArgs FilePath Angle → Option Text
  field h5_path args = args.h5_path
  field config_path args = args.config_path
  field echo args = args.echo
  field min_block args = args.min_block
  field pa_step args = args.pa_step
  field pa_block args = args.pa_block
  field w_planes args = args.w_planes

  unfoldable pub set_field : Field → Text → StringArgs FilePath Angle → StringArgs FilePath Angle
  set_field h5_path val args = record args { h5_path = some val }
  set_field config_path val args = record args { config_path = some val }
  set_field echo val args = record args { echo = some val }
  set_field min_block val args = record args { min_block = some val }
  set_field pa_step val args = record args { pa_step = some val }
  set_field pa_block val args = record args { pa_block = some val }
  set_field w_planes val args = record args { w_planes = some val }

  pub field-set_field :
      (f g : Field) (val : Text) (args : StringArgs FilePath Angle)
      → field g (set_field f val args) ≡ (if same_field f g then some val else field g args)
  unfolding field set_field same_field
  field-set_field h5_path g val args = ground arith
  field-set_field config_path g val args = ground arith
  field-set_field echo g val args = ground arith
  field-set_field min_block g val args = ground arith
  field-set_field pa_step g val args = ground arith
  field-set_field pa_block g val args = ground arith
  field-set_field w_planes g val args = ground arith
