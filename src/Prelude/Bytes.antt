-- ===== src/Prelude/Bytes.antt =====
-- Little-endian words in byte buffers, as the program reads and writes them through pointers to
-- integers. A byte is a number below 256.
use Prim.Native.Nat.{ℕ, zero, suc, ◌+◌, ◌*◌, ◌/◌, ◌%◌, ◌^◌, ◌<◌}
use mathlib.Core.Path.{◌≡◌, refl, ap}
use mathlib.Core.List.{List, [], ◌∷◌, ◌++◌}
use native.Mathlib.Omega.{arith}
use native.Mathlib.Nat.{pow-suc}
use legms.Prelude.Lists.{length, take, drop, length-append}

unfoldable pub le_bytes : ℕ → ℕ → List ℕ
le_bytes zero x = []
le_bytes (suc w) x = (x % 256) ∷ le_bytes w (x / 256)

unfoldable pub from_le : List ℕ → ℕ
from_le [] = 0
from_le (b ∷ bs) = b + 256 * from_le bs

pub length-le_bytes : (w x : ℕ) → length (le_bytes w x) ≡ w
unfolding le_bytes
length-le_bytes zero x = refl
length-le_bytes (suc w) x = ap suc (length-le_bytes w (x / 256))

pub take-le_bytes : (w x : ℕ) (rest : List ℕ) → take w (le_bytes w x ++ rest) ≡ le_bytes w x
unfolding le_bytes
take-le_bytes zero x rest = refl
take-le_bytes (suc w) x rest = ap (λ bs. (x % 256) ∷ bs) (take-le_bytes w (x / 256) rest)

pub drop-le_bytes : (w x : ℕ) (rest : List ℕ) → drop w (le_bytes w x ++ rest) ≡ rest
unfolding le_bytes
drop-le_bytes zero x rest = refl
drop-le_bytes (suc w) x rest = drop-le_bytes w (x / 256) rest

pub from_le-le_bytes : (w x : ℕ) → x < 256 ^ w → from_le (le_bytes w x) ≡ x
unfolding le_bytes from_le
from_le-le_bytes zero x h = omega arith
from_le-le_bytes (suc w) x h =
    let bound : x < 256 ^ w * 256 = rw (pow-suc 256 w) at h in
    let sub : from_le (le_bytes w (x / 256)) ≡ x / 256 =
      from_le-le_bytes w (x / 256) (omega arith) in
    omega arith

pub length-append_bytes : (xs ys : List ℕ) → length (xs ++ ys) ≡ length xs + length ys
length-append_bytes = length-append

-- For `omega`, on buffers.
pub ruleset byte_lengths = (arith, length-append_bytes, length-le_bytes)
