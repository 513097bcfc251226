-- ===== src/Gridder/Nodes.antt =====
-- hyperion/gridder/args.h and hyperion/gridder/args.cc: `as_node` and `as_args`, by which the texts of
-- arguments become values. YAML nodes are the yaml-cpp library's, and are a parameter.
pub mod RoundTrip
use legms.Prelude.{
  ℕ, ◌≡◌, Bool, true, false, Option, none, some, if◌then◌else◌, Result, ok, throws, ◌>>=◌, Text,
}
use legms.Prelude.Int.{ℤ}
use legms.Utility.Strings.{str_eq}
use legms.Gridder.Args.{
  ArgsKind, value_args, string_args, opt_value_args, opt_string_args, Value, value, is_set, Args,
  h5_path_tag, config_path_tag, echo_tag, min_block_tag, pa_step_tag, pa_block_tag, w_planes_tag,
}

-- The scalars of a type: what is written for a value is read back as the value.
pub record Scalar (T : Type 0) : Type 0 where
  pub show : T → Text
  pub parse : Text → Option T
  pub parse_show : (t : T) → parse (show t) ≡ some t

-- A node that is a map from tags to scalars: YAML::Node(), node[tag] = text, and node[tag].
pub record Yaml (FilePath Angle : Type 0) : Type 1 where
  pub Node : Type 0
  pub empty_node : Node
  pub put : Text → Text → Node → Node
  pub get : Text → Node → Option Text
  pub get_empty : (tag : Text) → get tag empty_node ≡ none
  pub get_put :
      (tag other text : Text) (node : Node)
      → get other (put tag text node) ≡ (if str_eq tag other then some text else get other node)
  pub path_scalar : Scalar FilePath
  pub bool_scalar : Scalar Bool
  pub size_scalar : Scalar ℕ
  pub angle_scalar : Scalar Angle
  pub int_scalar : Scalar ℤ

-- The scalar that is written for `value()`: a text as it is, a value by its conversion.
unfoldable pub scalar_text : (T : Type 0) → Scalar T → (G : ArgsKind) → Value T G → Text
scalar_text T s value_args v = s.show v
scalar_text T s string_args v = v
scalar_text T s opt_value_args v = s.show v
scalar_text T s opt_string_args v = v

module _ {FilePath Angle : Type 0} (y : Yaml FilePath Angle) where
  -- if (arg) result[arg.tag] = arg.value();
  unfoldable pub put_value :
      (T : Type 0)
      → Scalar T
      → (G : ArgsKind) → Text
      → Bool
      → Result (Value T G)
      → y.Node
      → Result y.Node
  unfolding scalar_text
  put_value T s G tag given val node =
      if given then (val >>= λ v. ok (y.put tag (scalar_text T s G v) node)) else ok node

  unfoldable pub as_node : (G : ArgsKind) → Args FilePath Angle G → Result y.Node
  unfolding put_value is_set value
  as_node G args = do
    node0 ← ok y.empty_node
    node1 ←
        put_value FilePath y.path_scalar G h5_path_tag (is_set FilePath false G args.h5_path)
          (value FilePath false G args.h5_path) node0
    node2 ←
        put_value FilePath y.path_scalar G config_path_tag (is_set FilePath true G args.config_path)
          (value FilePath true G args.config_path) node1
    node3 ←
        put_value Bool y.bool_scalar G echo_tag (is_set Bool false G args.echo)
          (value Bool false G args.echo) node2
    node4 ←
        put_value ℕ y.size_scalar G min_block_tag (is_set ℕ false G args.min_block)
          (value ℕ false G args.min_block) node3
    node5 ←
        put_value Angle y.angle_scalar G pa_step_tag (is_set Angle false G args.pa_step)
          (value Angle false G args.pa_step) node4
    node6 ←
        put_value ℕ y.size_scalar G pa_block_tag (is_set ℕ false G args.pa_block)
          (value ℕ false G args.pa_block) node5
    put_value ℤ y.int_scalar G w_planes_tag (is_set ℤ false G args.w_planes)
        (value ℤ false G args.w_planes) node6

  -- node[tag].as<T>(), which throws without such an entry, and where its text is no T
  unfoldable pub read_scalar : (T : Type 0) → Scalar T → Option Text → Result T
  read_scalar T s none = throws
  read_scalar T s (some text) = elim (s.parse text) [ none ↦ throws | some t ↦ ok t ]

  unfoldable pub as_args : y.Node → Result (Args FilePath Angle value_args)
  unfolding read_scalar
  as_args node = do
    h5_path ← read_scalar FilePath y.path_scalar (y.get h5_path_tag node)
    config_path ← elim (y.get config_path_tag node) [
      | none ↦ ok none
      | some text ↦ read_scalar FilePath y.path_scalar (some text) >>= λ path. ok (some path)
    ]
    echo ← read_scalar Bool y.bool_scalar (y.get echo_tag node)
    min_block ← read_scalar ℕ y.size_scalar (y.get min_block_tag node)
    pa_step ← read_scalar Angle y.angle_scalar (y.get pa_step_tag node)
    pa_block ← read_scalar ℕ y.size_scalar (y.get pa_block_tag node)
    w_planes ← read_scalar ℤ y.int_scalar (y.get w_planes_tag node)
    ok (record {
      h5_path = h5_path;
      config_path = config_path;
      echo = echo;
      min_block = min_block;
      pa_step = pa_step;
      pa_block = pa_block;
      w_planes = w_planes;
    })
