-- ===== src/Gridder/Validate/Valid.antt =====
-- The arguments that pass the validation.
use legms.Prelude.{
  ℕ, true, false, ◌≡◌, ◌≢◌, ◌↔◌, refl, [], ◌∷◌, ◌++◌, none, some, Text, arith, Bool, Option, Result,
  ok, throws, out_of_fuel, ap,
}
use legms.Prelude.Int.{ℤ, pos, negsuc, ◌≤ℤ◌}
use legms.Gridder.Args.{Args, value_args, pa_block_tag, min_block_tag}
use legms.Gridder.Validate.{
  FpClass, fp_normal, fp_zero, fp_subnormal, other_class, Platform, arg_error, path_errors,
  check_pa_step, check_block, check_w_planes, all_errors, error_text, validate_args,
}

append-empty : (s t : Text) → ((s ++ t) ≡ []) ↔ ((s ≡ []) × (t ≡ []))
append-empty [] t = (λ e. (refl, e), λ (e, e'). e')
append-empty (c ∷ s) t = (λ e. cc, λ (e, e'). cc)

some-injective : {A : Type 0} {a b : A} → some a ≡ some b → a ≡ b
some-injective e = cc

ok-injective : {A : Type 0} {a b : A} → ok a ≡ ok b → a ≡ b
ok-injective e = cc

module _ {FilePath Angle : Type 0} (platform : Platform FilePath Angle) where
  -- What is valid but for the path.
  abbrev pub IsInRange : Args FilePath Angle value_args → Type 0
  IsInRange args =
      (platform.fpclassify args.pa_step ≡ fp_normal)
      × (platform.exceeds_360 args.pa_step ≡ false)
      × (args.pa_block ≢ 0)
      × (pos 0 ≤ℤ args.w_planes)
      × (args.min_block ≢ 0)

  abbrev pub IsValid : Args FilePath Angle value_args → Type 0
  IsValid args = (platform.is_regular_file args.h5_path ≡ some true) × IsInRange args

  errors_none : (errs : Text) → (error_text platform errs ≡ none) ↔ (errs ≡ [])
  unfolding error_text
  errors_none [] = (λ e. refl, λ e. refl)
  errors_none (c ∷ errs) = ground arith

  path_passes :
      (h5_path : FilePath) (regular : Bool)
      → (path_errors platform h5_path regular ≡ []) ↔ (regular ≡ true)
  unfolding path_errors arg_error
  path_passes h5_path regular = ground arith

  pa_step_passes :
      (pa_step : Angle) (class : FpClass)
      → (check_pa_step platform pa_step class ≡ [])
        ↔ ((class ≡ fp_normal) × (platform.exceeds_360 pa_step ≡ false))
  unfolding check_pa_step arg_error
  pa_step_passes pa_step fp_normal = ground arith
  pa_step_passes pa_step fp_zero = ground arith
  pa_step_passes pa_step fp_subnormal = ground arith
  pa_step_passes pa_step other_class = ground arith

  block_passes : (tag : Text) (block : ℕ) → (check_block platform tag block ≡ []) ↔ (block ≢ 0)
  unfolding check_block arg_error
  block_passes tag block = ground arith

  w_planes_passes : (w_planes : ℤ) → (check_w_planes platform w_planes ≡ []) ↔ (pos 0 ≤ℤ w_planes)
  unfolding check_w_planes arg_error
  w_planes_passes (pos n) = ground arith
  w_planes_passes (negsuc n) = ground arith

  all_errors_empty :
      (args : Args FilePath Angle value_args) (regular : Bool)
      → (all_errors platform args regular ≡ []) ↔ ((regular ≡ true) × IsInRange args)
  unfolding all_errors
  all_errors_empty args regular = (
    λ e.
        let (path, rest) = (append-empty _ _).0 e in
        let (step, rest) = (append-empty _ _).0 rest in
        let (pa, rest) = (append-empty _ _).0 rest in
        let (planes, least) = (append-empty _ _).0 rest in
        let (normal, range) =
          (pa_step_passes args.pa_step (platform.fpclassify args.pa_step)).0 step in
        (
          (path_passes args.h5_path regular).0 path,
          (
            normal,
            range,
            (block_passes pa_block_tag args.pa_block).0 pa,
            (w_planes_passes args.w_planes).0 planes,
            (block_passes min_block_tag args.min_block).0 least,
          ),
        ),
    λ (path, (normal, range, pa, planes, least)). (append-empty _ _).1 (
      (path_passes args.h5_path regular).1 path,
      (append-empty _ _).1 (
        (pa_step_passes args.pa_step (platform.fpclassify args.pa_step)).1 (normal, range),
        (append-empty _ _).1 (
          (block_passes pa_block_tag args.pa_block).1 pa,
          (append-empty _ _).1 (
            (w_planes_passes args.w_planes).1 planes,
            (block_passes min_block_tag args.min_block).1 least,
          ),
        ),
      ),
    ),
  )

  abbrev checked : Args FilePath Angle value_args → Option Bool → Result (Option Text)
  checked args none = throws
  checked args (some regular) = ok (error_text platform (all_errors platform args regular))

  -- The end of the validation, after the answer of the file system.
  answered :
      (args : Args FilePath Angle value_args) (answer : Option Bool)
      → (checked args answer ≡ ok none) ↔ ((answer ≡ some true) × IsInRange args)
  answered args none = (λ e. cc, λ (e, h). cc)
  answered args (some regular) = (
    λ e.
        let empty = (errors_none (all_errors platform args regular)).0 (ok-injective e) in
        let (found, h) = (all_errors_empty args regular).0 empty in (ap some found, h),
    λ (e, h). ap ok (
        (errors_none (all_errors platform args regular)).1
          ((all_errors_empty args regular).1 (some-injective e, h))),
  )

  -- The arguments pass the validation if and only if the path names a regular file, the step is a normal
  -- number within 360 degrees, both block sizes are positive, and the number of planes is not negative.
  pub validate_args-IsValid :
      (args : Args FilePath Angle value_args)
      → (validate_args platform args ≡ ok none) ↔ IsValid args
  unfolding validate_args
  validate_args-IsValid args = answered args (platform.is_regular_file args.h5_path)

  checked-throws :
      (args : Args FilePath Angle value_args) (answer : Option Bool)
      → checked args answer ≡ throws
      → answer ≡ none
  checked-throws args none e = refl
  checked-throws args (some regular) e = cc

  checked_ends :
      (args : Args FilePath Angle value_args) (answer : Option Bool)
      → checked args answer ≢ out_of_fuel
  checked_ends args none e = cc
  checked_ends args (some regular) e = cc

  -- Only the file system makes the validation throw.
  pub validate_args-throws :
      (args : Args FilePath Angle value_args)
      → validate_args platform args ≡ throws
      → platform.is_regular_file args.h5_path ≡ none
  unfolding validate_args
  validate_args-throws args e = checked-throws args (platform.is_regular_file args.h5_path) e

  pub validate_args_ends :
      (args : Args FilePath Angle value_args) → validate_args platform args ≢ out_of_fuel
  unfolding validate_args
  validate_args_ends args e = checked_ends args (platform.is_regular_file args.h5_path) e
