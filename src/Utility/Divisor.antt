-- ===== src/Utility/Divisor.antt =====
-- hyperion/utility.cc: `min_divisor`, the number of pieces for a partition, on a size_t of 64 bits.
use native.Mathlib.Nat.{div-add-mod, mod-lt, div-lt_iff_lt-mul}
use legms.Prelude.{
  ℕ, ◌+◌, ◌-◌, ◌*◌, ◌/◌, ◌%◌, ◌^◌, ◌≤◌, ◌<◌, ◌≡◌, max, ◌==◌, if◌then◌else◌, Result, ok, throws,
  ◌>>=◌, arith, ap,
}

-- A division of size_t values. By zero, the program's behaviour is undefined, and the model stops.
unfoldable pub divide : ℕ → ℕ → Result ℕ
divide a b = if b == 0 then throws else ok (a / b)

unfoldable pub min_divisor : ℕ → ℕ → ℕ → Result ℕ
unfolding divide
min_divisor numerator min_quotient max_divisor = do
  least ← divide ((numerator + max_divisor + 2 ^ 64 - 1) % 2 ^ 64) max_divisor
  let quotient = max min_quotient least
  result ← divide ((numerator + quotient + 2 ^ 64 - 1) % 2 ^ 64) quotient
  ok (result % 2 ^ 32)

-- a + b - 1 on a size_t, where nothing wraps
sum_less_one : (a b : ℕ) → 0 < b → a + b < 2 ^ 64 → (a + b + 2 ^ 64 - 1) % 2 ^ 64 ≡ a + b - 1
sum_less_one a b pos fits = omega arith

divide_ok : (a b : ℕ) → 0 < b → divide a b ≡ ok (a / b)
unfolding divide
divide_ok a b pos = ground arith

-- A division rounded up: the quotient is the least one that covers `a`.
round_up : (a b : ℕ) → 0 < b → a ≤ (a + b - 1) / b * b
round_up a b pos = grind (arith, div-add-mod (a + b - 1) b, mod-lt (a + b - 1) pos)

round_up_least : (a b k : ℕ) → 0 < b → a ≤ k * b → (a + b - 1) / b ≤ k
round_up_least a b k pos h =
    let room : a + b - 1 < (k + 1) * b = grind arith in
    let small : (a + b - 1) / b < k + 1 = (div-lt_iff_lt-mul pos).1 room in omega arith

-- What the result d of min_divisor is: `quotient` is the least size, of min_quotient at least, for which
-- max_divisor blocks cover the numerator; d blocks of that size cover it, and no fewer do; d is
-- max_divisor at most.
abbrev pub Divides : ℕ → ℕ → ℕ → ℕ → ℕ → Type 0
Divides numerator min_quotient max_divisor quotient d =
    (min_quotient ≤ quotient)
    × (numerator ≤ max_divisor * quotient)
    × ((q : ℕ) → min_quotient ≤ q → numerator ≤ max_divisor * q → quotient ≤ q)
    × (numerator ≤ d * quotient)
    × ((k : ℕ) → numerator ≤ k * quotient → d ≤ k)
    × (d ≤ max_divisor)

round_up-Divides :
    (n q m quotient : ℕ)
    → 0 < quotient
    → q ≤ quotient
    → n ≤ m * quotient
    → ((k : ℕ) → q ≤ k → n ≤ m * k → quotient ≤ k)
    → Divides n q m quotient ((n + quotient - 1) / quotient)
round_up-Divides n q m quotient pos least covers smallest = (
  least,
  covers,
  smallest,
  round_up n quotient pos,
  λ k h. round_up_least n quotient k pos h,
  round_up_least n quotient m pos covers,
)

-- For a positive numerator and a min_quotient below 2^63, and a positive max_divisor below 2^32,
-- min_divisor returns the least number of blocks of a certain size that cover the numerator: the
-- least size, of min_quotient at least, for which max_divisor blocks cover it. There are then
-- max_divisor blocks at most.
pub min_divisor-Divides :
    (numerator min_quotient max_divisor : ℕ)
    → 0 < numerator
    → numerator < 2 ^ 63
    → min_quotient < 2 ^ 63
    → 0 < max_divisor
    → max_divisor < 2 ^ 32
    → (d quotient : ℕ) × (min_divisor numerator min_quotient max_divisor ≡ ok d)
      × Divides numerator min_quotient max_divisor quotient d
unfolding min_divisor
min_divisor-Divides n q m n_pos n_fits q_fits m_pos m_fits =
    let least : ℕ = (n + m - 1) / m in
    let quotient : ℕ = max q least in
    let d : ℕ = (n + quotient - 1) / quotient in
    let covers : n ≤ least * m = round_up n m m_pos in
    let least_pos : 0 < least = grind (arith, covers) in
    let least_small : least ≤ n = round_up_least n m n m_pos (grind arith) in
    let pos : 0 < quotient = omega arith in
    let smallest : (k : ℕ) → q ≤ k → n ≤ m * k → quotient ≤ k =
      λ k at_least enough. omega (arith, round_up_least n m k m_pos (grind arith)) in
    let divides =
      round_up-Divides n q m quotient pos (omega arith) (grind (arith, covers)) smallest in
    let d_small : d ≤ m = divides.5 in
    (
      d,
      quotient,
      rw (sum_less_one n m m_pos (omega arith), divide_ok (n + m - 1) m m_pos)
          (rw (sum_less_one n quotient pos (omega arith), divide_ok (n + quotient - 1) quotient pos)
            (ap ok (omega arith))),
      divides,
    )
