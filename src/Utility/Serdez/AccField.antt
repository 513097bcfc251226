-- ===== src/Utility/Serdez/AccField.antt =====
-- hyperion/utility.h: `acc_field_serdez`, for the vector of values with their rows.
use legms.Prelude.{ℕ, zero, suc, ◌+◌, List, [], ◌∷◌, ◌++◌, Result, ok, ◌>>=◌, length, drop}
use legms.Prelude.Bytes.{le_bytes}
use legms.IndexTree.Serial.{sizeof_size_t, read_word}
use legms.Utility.Serdez
use legms.Utility.Serdez.{Layout, read_value}

-- The rows of one value are a vector of DomainPoints; `p` is the layout of Legion's DomainPoint.
module _ {ℓ κ} {T : Type ℓ} {DomainPoint : Type κ} (e : Layout T) (p : Layout DomainPoint) where
  -- std::accumulate over `val`, from `acc` on
  unfoldable pub add_sizes : ℕ → List (T × List DomainPoint) → ℕ
  unfolding Serdez.serialized_size
  add_sizes acc [] = acc
  add_sizes acc ((t, rns) ∷ val) = add_sizes (acc + e.sizeof + Serdez.serialized_size p rns) val

  unfoldable pub serialized_size : List (T × List DomainPoint) → ℕ
  unfolding add_sizes
  serialized_size val = add_sizes sizeof_size_t val

  unfoldable pub write_fields : List (T × List DomainPoint) → List ℕ
  unfolding Serdez.serialize
  write_fields [] = []
  write_fields ((t, rns) ∷ val) = e.encode t ++ ((Serdez.serialize p rns).0 ++ write_fields val)

  unfoldable pub serialize : List (T × List DomainPoint) → List ℕ × ℕ
  unfolding write_fields serialized_size
  serialize val = (le_bytes sizeof_size_t (length val) ++ write_fields val, serialized_size val)

  unfoldable pub read_fields : ℕ → List ℕ → Result (List (T × List DomainPoint))
  unfolding read_value Serdez.deserialize
  read_fields zero buffer = ok []
  read_fields (suc n) buffer = do
    t ← read_value e buffer
    rns ← Serdez.deserialize p (drop e.sizeof buffer)
    val ← read_fields n (drop rns.1 (drop e.sizeof buffer))
    ok ((t, rns.0) ∷ val)

  unfoldable pub deserialize : List ℕ → Result (List (T × List DomainPoint) × ℕ)
  unfolding read_fields serialized_size read_word
  deserialize buffer = do
    n ← read_word sizeof_size_t buffer
    val ← read_fields n (drop sizeof_size_t buffer)
    ok (val, serialized_size val)
