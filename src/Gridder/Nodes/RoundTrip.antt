-- ===== src/Gridder/Nodes/RoundTrip.antt =====
-- Arguments that become a node become the same arguments again.
use legms.Prelude.{◌≡◌, refl, none, some, Option-cases, inl, inr, ok, ◌>>=◌}
use legms.Utility.Strings.{str_eq}
use legms.Gridder.Args.{value_args, Args}
use legms.Gridder.Nodes.{Scalar, Yaml, as_node, read_scalar, as_args}

module _ {FilePath Angle : Type 0} (y : Yaml FilePath Angle) where
  read_scalar-show :
      (T : Type 0) (s : Scalar T) (t : T) → read_scalar y T s (some (s.show t)) ≡ ok t
  unfolding read_scalar
  read_scalar-show T s t = rw (read_scalar, s.parse_show t) refl

  with_config :
      (args : Args FilePath Angle value_args) (path : FilePath)
      → args.config_path ≡ some path
      → (as_node y value_args args >>= as_args y) ≡ ok args
  unfolding as_node as_args str_eq
  with_config args path e = rw e (simp (y.get_put, y.get_empty, read_scalar-show))

  without_config :
      (args : Args FilePath Angle value_args)
      → args.config_path ≡ none
      → (as_node y value_args args >>= as_args y) ≡ ok args
  unfolding as_node as_args str_eq
  without_config args e = rw e (simp (y.get_put, y.get_empty, read_scalar-show))

  -- as_args on the node that as_node makes of a complete set of argument values returns these values,
  -- with and without a configuration path.
  pub as_args-as_node :
      (args : Args FilePath Angle value_args) → (as_node y value_args args >>= as_args y) ≡ ok args
  as_args-as_node args = elim (Option-cases args.config_path) [
    | inl e ↦ without_config args e
    | inr (path, e) ↦ with_config args path e
  ]
