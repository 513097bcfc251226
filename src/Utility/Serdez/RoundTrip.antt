-- ===== src/Utility/Serdez/RoundTrip.antt =====
-- What the two classes write, they read back; their sizes are those of the bytes.
use legms.Prelude.{
  ℕ, ◌+◌, ◌*◌, ◌^◌, ◌<◌, ◌≡◌, refl, sym, ap, subst, ◌∙◌, List, [], ◌∷◌, ◌++◌, append_assoc, ◌==◌,
  ok, length, take, drop, All, arith, length-append, take-append, drop-append, if_true, ==_refl,
}
use legms.Prelude.Bytes.{le_bytes, length-le_bytes, drop-le_bytes}
use legms.IndexTree.Serial.{sizeof_size_t}
use legms.IndexTree.Serial.RoundTrip.{read_word-le_bytes}
use legms.Utility.Serdez
use legms.Utility.Serdez.{Layout, read_value, write_values, read_values}
use legms.Utility.Serdez.AccField
use legms.Utility.Serdez.AccField.{add_sizes, write_fields, read_fields}

module _ {ℓ} {T : Type ℓ} (e : Layout T) where
  take-encode : (t : T) (rest : List ℕ) → take e.sizeof (e.encode t ++ rest) ≡ e.encode t
  take-encode t rest =
      subst (λ k. take k (e.encode t ++ rest) ≡ e.encode t) (e.length_encode t)
        (take-append (e.encode t) rest)

  drop-encode : (t : T) (rest : List ℕ) → drop e.sizeof (e.encode t ++ rest) ≡ rest
  drop-encode t rest =
      subst (λ k. drop k (e.encode t ++ rest) ≡ rest) (e.length_encode t)
        (drop-append (e.encode t) rest)

  read_value-encode : (t : T) (rest : List ℕ) → read_value e (e.encode t ++ rest) ≡ ok t
  unfolding read_value
  read_value-encode t rest = rw (take-encode t rest) (
      if_true (length (e.encode t) == e.sizeof) _ _ (rw (e.length_encode t) (==_refl e.sizeof))
      ∙ ap ok (e.decode_encode t))

  read_values-write_values :
      (val : List T) (rest : List ℕ)
      → read_values e (length val) (write_values e val ++ rest) ≡ ok val
  unfolding read_values write_values
  read_values-write_values [] rest = refl
  read_values-write_values (t ∷ val) rest =
      rw
        (
          append_assoc (e.encode t) (write_values e val) rest,
          read_value-encode t (write_values e val ++ rest),
          drop-encode t (write_values e val ++ rest),
          read_values-write_values val rest,
        )
        refl

  length-write_values : (val : List T) → length (write_values e val) ≡ length val * e.sizeof
  unfolding write_values
  length-write_values [] = omega arith
  length-write_values (t ∷ val) = grind (
    arith,
    length-append (e.encode t) (write_values e val),
    e.length_encode t,
    length-write_values val,
  )

  -- vector_serdez: deserialize on the bytes of serialize, whatever follows them, returns the vector
  -- and the result of serialize, if the number of elements is a size_t.
  pub vector-round_trip :
      (val : List T) (rest : List ℕ)
      → length val < 256 ^ sizeof_size_t
      → Serdez.deserialize e ((Serdez.serialize e val).0 ++ rest)
        ≡ ok (val, (Serdez.serialize e val).1)
  unfolding Serdez.deserialize Serdez.serialize
  vector-round_trip val rest h =
      rw
        (
          append_assoc (le_bytes sizeof_size_t (length val)) (write_values e val) rest,
          read_word-le_bytes sizeof_size_t (length val) (write_values e val ++ rest) h,
          drop-le_bytes sizeof_size_t (length val) (write_values e val ++ rest),
          read_values-write_values val rest,
        )
        refl

  -- vector_serdez: the result of serialize is the number of bytes that it writes.
  pub length-vector_bytes :
      (val : List T) → length (Serdez.serialize e val).0 ≡ (Serdez.serialize e val).1
  unfolding Serdez.serialize Serdez.serialized_size
  length-vector_bytes val =
      length-append (le_bytes sizeof_size_t (length val)) (write_values e val)
      ∙ rw (length-le_bytes sizeof_size_t (length val), length-write_values val) refl

  vector_bytes_size :
      (val : List T) → length (Serdez.serialize e val).0 ≡ Serdez.serialized_size e val
  unfolding Serdez.serialize
  vector_bytes_size val = length-vector_bytes val

  drop-vector_bytes :
      (val : List T) (rest : List ℕ)
      → drop (Serdez.serialize e val).1 ((Serdez.serialize e val).0 ++ rest) ≡ rest
  drop-vector_bytes val rest =
      subst (λ k. drop k ((Serdez.serialize e val).0 ++ rest) ≡ rest) (length-vector_bytes val)
        (drop-append (Serdez.serialize e val).0 rest)

module _ {ℓ κ} {T : Type ℓ} {DomainPoint : Type κ} (e : Layout T) (p : Layout DomainPoint) where
  -- The number of rows of a value is a size_t.
  abbrev pub RowsFit : T × List DomainPoint → Type 0
  RowsFit (t, rns) = length rns < 256 ^ sizeof_size_t

  read_fields-write_fields :
      (val : List (T × List DomainPoint)) (rest : List ℕ)
      → All RowsFit val
      → read_fields e p (length val) (write_fields e p val ++ rest) ≡ ok val
  unfolding read_fields write_fields
  read_fields-write_fields [] rest h = refl
  read_fields-write_fields ((t, rns) ∷ val) rest h =
      let behind = write_fields e p val ++ rest in
      let bytes = (Serdez.serialize p rns).0 in
      rw
        (
          append_assoc (e.encode t) (bytes ++ write_fields e p val) rest,
          append_assoc bytes (write_fields e p val) rest,
          read_value-encode e t (bytes ++ behind),
          drop-encode e t (bytes ++ behind),
          vector-round_trip p rns behind h.0,
          drop-vector_bytes p rns behind,
          read_fields-write_fields val rest h.1,
        )
        refl

  -- acc_field_serdez: deserialize on the bytes of serialize, whatever follows them, returns the
  -- vector and the result of serialize, if the numbers of values and of rows are each a size_t.
  pub acc_field-round_trip :
      (val : List (T × List DomainPoint)) (rest : List ℕ)
      → length val < 256 ^ sizeof_size_t
      → All RowsFit val
      → AccField.deserialize e p ((AccField.serialize e p val).0 ++ rest)
        ≡ ok (val, (AccField.serialize e p val).1)
  unfolding AccField.deserialize AccField.serialize
  acc_field-round_trip val rest h rows =
      rw
        (
          append_assoc (le_bytes sizeof_size_t (length val)) (write_fields e p val) rest,
          read_word-le_bytes sizeof_size_t (length val) (write_fields e p val ++ rest) h,
          drop-le_bytes sizeof_size_t (length val) (write_fields e p val ++ rest),
          read_fields-write_fields val rest rows,
        )
        refl

  add_sizes-length :
      (acc : ℕ) (val : List (T × List DomainPoint))
      → add_sizes e p acc val ≡ acc + length (write_fields e p val)
  unfolding add_sizes write_fields
  add_sizes-length acc [] = omega arith
  add_sizes-length acc ((t, rns) ∷ val) =
      let bytes = (Serdez.serialize p rns).0 in
      omega (
        arith,
        add_sizes-length (acc + e.sizeof + Serdez.serialized_size p rns) val,
        length-append (e.encode t) (bytes ++ write_fields e p val),
        length-append bytes (write_fields e p val),
        e.length_encode t,
        vector_bytes_size p rns,
      )

  -- acc_field_serdez: the result of serialize is the number of bytes that it writes.
  pub length-acc_field_bytes :
      (val : List (T × List DomainPoint))
      → length (AccField.serialize e p val).0 ≡ (AccField.serialize e p val).1
  unfolding AccField.serialize AccField.serialized_size
  length-acc_field_bytes val =
      length-append (le_bytes sizeof_size_t (length val)) (write_fields e p val)
      ∙ rw (length-le_bytes sizeof_size_t (length val)) (sym (add_sizes-length sizeof_size_t val))
