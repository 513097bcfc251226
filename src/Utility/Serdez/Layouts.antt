-- ===== src/Utility/Serdez/Layouts.antt =====
-- hyperion/utility.h: `vector_serdez<bool>`, which writes one byte for each bool. It is the general
-- class at the layout of bool.
use legms.Prelude.{ℕ, zero, suc, ◌≡◌, refl, Bool, true, false, List, [], ◌∷◌, length}
use legms.Utility.Serdez.{Layout}

abbrev byte_of_bool : Bool → List ℕ
byte_of_bool true = 1 ∷ []
byte_of_bool false = 0 ∷ []

abbrev bool_of_bytes : List ℕ → Bool
bool_of_bytes [] = false
bool_of_bytes (zero ∷ bs) = false
bool_of_bytes (suc b ∷ bs) = true

pub length-byte_of_bool : (b : Bool) → length (byte_of_bool b) ≡ 1
length-byte_of_bool true = refl
length-byte_of_bool false = refl

pub bool_of_bytes-byte_of_bool : (b : Bool) → bool_of_bytes (byte_of_bool b) ≡ b
bool_of_bytes-byte_of_bool true = refl
bool_of_bytes-byte_of_bool false = refl

abbrev pub bool_layout : Layout Bool
bool_layout = record {
  sizeof = 1;
  encode = byte_of_bool;
  decode = bool_of_bytes;
  length_encode = length-byte_of_bool;
  decode_encode = bool_of_bytes-byte_of_bool;
}
