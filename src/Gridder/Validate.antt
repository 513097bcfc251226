-- ===== src/Gridder/Validate.antt =====
-- hyperion/gridder/args.cc: `validate_args`. The file system, the classes of floats and what std::ostream
-- writes for a value are parameters.
pub mod Valid
use legms.Prelude.{
  ℕ, Bool, true, false, List, [], ◌++◌, Option, none, some, if◌then◌else◌, length, ◌==◌, Text,
  codes, Result, ok, throws,
}
use legms.Prelude.Int.{ℤ, pos, negsuc, leb_ℤ, eqb_ℤ, ◌+ℤ◌}
use legms.Gridder.Args.{
  Args, value_args, h5_path_tag, pa_step_tag, pa_block_tag, w_planes_tag, min_block_tag,
}
use legms.Gridder.Checked.{endl}

-- The results of std::fpclassify; `other_class` is an infinity or no number.
pub data FpClass : Type 0 where
  fp_normal fp_zero fp_subnormal other_class : FpClass

-- What the validation uses of the libraries.
pub record Platform (FilePath Angle : Type 0) : Type 0 where
  -- `none` stands for a filesystem_error, such as the one for a name that is too long.
  pub is_regular_file : FilePath → Option Bool
  pub fpclassify : Angle → FpClass
  -- std::abs(angle) > PARALLACTIC_360
  pub exceeds_360 : Angle → Bool
  pub show_path : FilePath → Text
  pub show_angle : Angle → Text
  pub show_size : ℕ → Text
  pub show_int : ℤ → Text

abbrev pub auto_w_proj_planes_value : ℤ
auto_w_proj_planes_value = negsuc 0

abbrev pub invalid_w_proj_planes_value : ℤ
invalid_w_proj_planes_value = negsuc 1

abbrev pub invalid_min_block_size_value : ℕ
invalid_min_block_size_value = 0

-- The text that arg_error writes.
unfoldable pub arg_error : Text → Text → Text → Text
arg_error tag val reason =
    codes "'" ++ (tag ++ (codes "' value '" ++ (val ++ (codes "': " ++ (reason ++ endl)))))

module _ {FilePath Angle : Type 0} (platform : Platform FilePath Angle) where
  -- What is written about the path, after the answer of the file system.
  unfoldable pub path_errors : FilePath → Bool → Text
  unfolding arg_error
  path_errors h5_path regular =
      if regular
      then []
      else arg_error h5_path_tag (platform.show_path h5_path) (codes "not a regular file")

  unfoldable pub check_pa_step : Angle → FpClass → Text
  unfolding arg_error
  check_pa_step pa_step fp_normal =
      if platform.exceeds_360 pa_step
      then arg_error pa_step_tag (platform.show_angle pa_step)
          (codes "not in valid range [-360, 360]")
      else []
  check_pa_step pa_step fp_zero =
      arg_error pa_step_tag (platform.show_angle pa_step) (codes "too small")
  check_pa_step pa_step fp_subnormal =
      arg_error pa_step_tag (platform.show_angle pa_step) (codes "too small")
  check_pa_step pa_step other_class =
      arg_error pa_step_tag (platform.show_angle pa_step) (codes "invalid")

  -- The check of pa_block, and of min_block.
  unfoldable pub check_block : Text → ℕ → Text
  unfolding arg_error
  check_block tag block =
      if block == invalid_min_block_size_value
      then arg_error tag (platform.show_size block) (codes "invalid, value must be at least one")
      else []

  unfoldable pub check_w_planes : ℤ → Text
  unfolding arg_error ◌+ℤ◌
  check_w_planes w_planes =
      if leb_ℤ w_planes invalid_w_proj_planes_value
      then arg_error w_planes_tag (platform.show_int w_planes) (
          codes "less than the minimum valid value of "
          ++ platform.show_int (invalid_w_proj_planes_value +ℤ pos 1))
      else if eqb_ℤ w_planes auto_w_proj_planes_value
      then arg_error w_planes_tag (platform.show_int w_planes)
          (codes "automatic computation of the number of W-projection planes is unimplemented")
      else []

  -- All that is written to `errs`, in order.
  unfoldable pub all_errors : Args FilePath Angle value_args → Bool → Text
  unfolding path_errors check_pa_step check_block check_w_planes
  all_errors args regular =
      path_errors args.h5_path regular
      ++ (check_pa_step args.pa_step (platform.fpclassify args.pa_step)
          ++ (check_block pa_block_tag args.pa_block
              ++ (check_w_planes args.w_planes ++ check_block min_block_tag args.min_block)))

  -- The end of validate_args.
  unfoldable pub error_text : Text → Option Text
  error_text errs = if length errs == 0 then none else some errs

  unfoldable pub validate_args : Args FilePath Angle value_args → Result (Option Text)
  unfolding all_errors error_text
  validate_args args = elim (platform.is_regular_file args.h5_path) [
    | none ↦ throws
    | some regular ↦ ok (error_text (all_errors args regular))
  ]
