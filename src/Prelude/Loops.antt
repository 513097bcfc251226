-- ===== src/Prelude/Loops.antt =====
-- Loops `while (going(s)) { s = step(s); }`, with fuel, and the states that they go through.
use Prim.Native.Nat.{ℕ, zero, suc, ◌≤◌}
use mathlib.Core.Path.{◌≡◌, ◌∙◌}
use mathlib.Core.Bool.{Bool, true, false}
use mathlib.Core.List.{List, [], ◌∷◌}
use native.Mathlib.Omega.{arith}
use legms.Prelude.Tests.{if◌then◌else◌, if_true, if_false}
use legms.Prelude.Outcome.{Result, ok, out_of_fuel, ◌>>=◌}

-- !ms.empty()
abbrev pub nonempty {ℓ} : {A : Type ℓ} → List A → Bool
nonempty [] = false
nonempty (x ∷ xs) = true

module _ {ℓ} {S : Type ℓ} (going : S → Bool) (step : S → Result S) where
  unfoldable pub while : ℕ → S → Result S
  while zero s = out_of_fuel
  while (suc f) s = let later = step s >>= while f in if going s then later else ok s

  -- The states that the loop goes through.
  pub data Reaches : S → S → Type ℓ where
    here : {s : S} → Reaches s s
    next : {s t u : S} → going s ≡ true → step s ≡ ok t → Reaches t u → Reaches s u

  pub Reaches-trans : {s t u : S} → Reaches s t → Reaches t u → Reaches s u
  Reaches-trans here g = g
  Reaches-trans (next k e h) g = next k e (Reaches-trans h g)

  while_stops : (f : ℕ) (s : S) → going s ≡ false → while (suc f) s ≡ ok s
  unfolding while
  while_stops f s h = if_false (going s) _ _ h

  while-step : (f : ℕ) (s t : S) → going s ≡ true → step s ≡ ok t → while (suc f) s ≡ while f t
  unfolding while
  while-step f s t h e = if_true (going s) _ _ h ∙ rw e

  -- A state that is reached and ends the loop is what the loop returns, with enough fuel.
  pub while-Reaches :
      (s t : S)
      → Reaches s t
      → going t ≡ false
      → (enough : ℕ) × ((f : ℕ) → enough ≤ f → while f s ≡ ok t)
  while-Reaches s t here done = (1, stopped)
    where
      stopped : (f : ℕ) → 1 ≤ f → while f s ≡ ok s
      stopped zero h = absurd (omega arith)
      stopped (suc f) h = while_stops f s done
  while-Reaches s t (next {t = u} k e reach) done =
      let (enough, runs) = while-Reaches u t reach done in (suc enough, started enough runs)
    where
      started :
          (enough : ℕ)
          → ((f : ℕ) → enough ≤ f → while f u ≡ ok t)
          → (f : ℕ) → suc enough ≤ f
          → while f s ≡ ok t
      started enough runs zero h = absurd (omega arith)
      started enough runs (suc f) h = while-step f s u k e ∙ runs f (omega arith)
