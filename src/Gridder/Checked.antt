-- ===== src/Gridder/Checked.antt =====
-- hyperion/gridder/args.cc: what `get_args` returns. Where the code returns false, after a message on
-- std::cerr, the caller drops the arguments; here the failure stands in their place.
use legms.Prelude.{◌≡◌, refl, ◌++◌, Text, codes}

pub data Failure : Type 0 where
  no_value : Text → Failure
  unrecognized : Text → Failure
  ambiguous : Text → Failure
  bad_config : Text → Failure

-- `aborted` is a failed assertion; `out_of_fuel` has no counterpart in the code.
pub data Checked (A : Type 0) : Type 0 where
  failed : Failure → Checked A
  out_of_fuel : Checked A
  aborted : Checked A
  done : A → Checked A

infixl 5 ◌>>=◌
abbrev pub ◌>>=◌ : {A B : Type 0} → Checked A → (A → Checked B) → Checked B
failed why >>= next = failed why
out_of_fuel >>= next = out_of_fuel
aborted >>= next = aborted
done a >>= next = next a

-- If a sequence succeeds, its first part did.
pub returned_first :
    {A B : Type 0} (first : Checked A) (next : A → Checked B) {b : B}
    → (first >>= next) ≡ done b
    → (a : A) × (first ≡ done a) × (next a ≡ done b)
returned_first (failed why) next e = cc
returned_first out_of_fuel next e = cc
returned_first aborted next e = cc
returned_first (done a) next e = (a, refl, e)

pub done-injective : {A : Type 0} {a b : A} → done a ≡ done b → a ≡ b
done-injective e = cc

abbrev pub endl : Text
endl = codes "\n"

-- The text on std::cerr.
unfoldable pub message : Failure → Text
message (no_value tag) = codes "No value provided for argument '" ++ (tag ++ (codes "'" ++ endl))
message (unrecognized tag) =
    codes "Unrecognized command line argument '" ++ (tag ++ (codes "'" ++ endl))
message (ambiguous tag) =
    codes "Command line argument '"
    ++ (tag ++ (codes "' is a prefix of a more than one option" ++ endl))
message (bad_config errs) = errs

-- The code returns, with a result that has P if it succeeds.
abbrev pub Returns : {A : Type 0} → (A → Type 0) → Checked A → Type 0
Returns P (failed why) = Unit
Returns P out_of_fuel = ⊥
Returns P aborted = ⊥
Returns P (done a) = P a

pub bind-Returns :
    {A B : Type 0} (P : A → Type 0) (Q : B → Type 0) (first : Checked A) (next : A → Checked B)
    → Returns P first
    → ((a : A) → P a → Returns Q (next a))
    → Returns Q (first >>= next)
bind-Returns P Q (failed why) next r rs = tt
bind-Returns P Q out_of_fuel next r rs = r
bind-Returns P Q aborted next r rs = r
bind-Returns P Q (done a) next r rs = rs a r

pub weaken-Returns :
    {A : Type 0} (P Q : A → Type 0) (c : Checked A)
    → ((a : A) → P a → Q a)
    → Returns P c
    → Returns Q c
weaken-Returns P Q (failed why) weaken r = r
weaken-Returns P Q out_of_fuel weaken r = r
weaken-Returns P Q aborted weaken r = r
weaken-Returns P Q (done a) weaken r = weaken a r
