-- ===== src/Utility/Serdez.antt =====
-- hyperion/utility.h: `vector_serdez` and `acc_field_serdez`, which pass vectors between tasks as
-- bytes. The bytes of one element are copied from and to memory: `Layout` says what a type's bytes
-- are. `serialize` returns the bytes that it writes and its result; `deserialize` returns the value
-- and its result, by which a caller moves on.
pub mod AccField
pub mod RoundTrip
pub mod Layouts
use legms.Prelude.{
  ℕ, zero, suc, ◌+◌, ◌*◌, ◌≡◌, List, [], ◌∷◌, ◌++◌, ◌==◌, if◌then◌else◌, Result, ok, throws, ◌>>=◌,
  ◌>>◌, length, take, drop,
}
use legms.Prelude.Bytes.{le_bytes}
use legms.IndexTree.Serial.{sizeof_size_t, read_word}

-- The memory of a trivially copyable type: sizeof(T), and the bytes of its values.
pub record Layout {ℓ} (T : Type ℓ) : Type ℓ where
  pub sizeof : ℕ
  pub encode : T → List ℕ
  pub decode : List ℕ → T
  pub length_encode : (t : T) → length (encode t) ≡ sizeof
  pub decode_encode : (t : T) → decode (encode t) ≡ t

-- A read of a T through a pointer. Past the end of the buffer the program's behaviour is undefined,
-- and the model stops.
unfoldable pub read_value {ℓ} : {T : Type ℓ} → Layout T → List ℕ → Result T
read_value e buffer =
    if length (take e.sizeof buffer) == e.sizeof
    then ok (e.decode (take e.sizeof buffer))
    else throws

module _ {ℓ} {T : Type ℓ} (e : Layout T) where
  unfoldable pub serialized_size : List T → ℕ
  serialized_size val = sizeof_size_t + length val * e.sizeof

  -- for (i = 0; i < n; ++i) *tbuf++ = val[i];
  unfoldable pub write_values : List T → List ℕ
  write_values [] = []
  write_values (t ∷ val) = e.encode t ++ write_values val

  unfoldable pub serialize : List T → List ℕ × ℕ
  unfolding write_values serialized_size
  serialize val = (le_bytes sizeof_size_t (length val) ++ write_values val, serialized_size val)

  -- for (i = 0; i < n; ++i) val[i] = *tbuf++;
  unfoldable pub read_values : ℕ → List ℕ → Result (List T)
  unfolding read_value
  read_values zero tbuf = ok []
  read_values (suc n) tbuf = do
    t ← read_value e tbuf
    val ← read_values n (drop e.sizeof tbuf)
    ok (t ∷ val)

  unfoldable pub deserialize : List ℕ → Result (List T × ℕ)
  unfolding read_values serialized_size read_word
  deserialize buffer = do
    n ← read_word sizeof_size_t buffer
    val ← read_values n (drop sizeof_size_t buffer)
    ok (val, serialized_size val)
