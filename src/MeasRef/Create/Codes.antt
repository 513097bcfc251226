-- ===== src/MeasRef/Create/Codes.antt =====
-- The codes of references: what `create` writes, and the map that `make` reads.
use legms.Prelude.{
  ℕ, zero, suc, ◌+◌, ◌-◌, ◌≤◌, ◌<◌, ◌≡◌, refl, ap, sym, ◌∙◌, Bool, true, false, ◌&&◌, List, [], ◌∷◌,
  ◌==◌, leb, if◌then◌else◌, Option, none, some, arith, length, get_elem?, ok, if_true, if_false,
}
use mathlib.Core.Path.{fun_ext}
use legms.MeasRef.Entries.{first_of}
use legms.MeasRef.Create.{
  IndexRegion, write_code, write_codes, write_index, CodeMap, assign_code, read_codes, read_index,
}

-- The last place of a code, counted from `i`.
unfoldable pub last_place : ℕ → List ℕ → CodeMap
unfolding first_of
last_place i [] x = none
last_place i (c ∷ codes) x = first_of (last_place (suc i) codes x) (if x == c then some i else none)

-- The map that `make` reads, of references with these codes.
unfoldable pub codes_map : Bool → List ℕ → CodeMap
unfolding last_place
codes_map true codes = λ x. none
codes_map false codes = last_place 0 codes

-- The codes stand at their places.
abbrev Stands : ℕ → List ℕ → (ℕ → ℕ) → Type 0
Stands i codes f = (j c : ℕ) → get_elem? codes j ≡ some c → f (i + j) ≡ c

first_of-assign :
    (a : Option ℕ) (x c i : ℕ) (rmap : CodeMap)
    → first_of a (assign_code c i rmap x)
      ≡ first_of (first_of a (if x == c then some i else none)) (rmap x)
unfolding first_of assign_code
first_of-assign none x c i rmap = ground arith
first_of-assign (some a) x c i rmap = refl

read_codes-last_place :
    (codes : List ℕ) (i : ℕ) (f : ℕ → ℕ) (rmap : CodeMap) (x : ℕ)
    → Stands i codes f
    → read_codes (length codes) i f rmap x ≡ first_of (last_place i codes x) (rmap x)
unfolding read_codes last_place
read_codes-last_place [] i f rmap x stands = unfold first_of in refl
read_codes-last_place (c ∷ codes) i f rmap x stands =
    let place : i + 0 ≡ i = omega arith in
    let at : f i ≡ c = ap f (sym place) ∙ stands 0 c refl in
    read_codes-last_place codes (suc i) f (assign_code (f i) i rmap) x
      (λ j d e. ap f (moved i j) ∙ stands (suc j) d e)
    ∙ ap (λ d. first_of (last_place (suc i) codes x) (assign_code d i rmap x)) at
    ∙ first_of-assign (last_place (suc i) codes x) x c i rmap
  where
    moved : (i j : ℕ) → suc i + j ≡ i + suc j
    moved i j = omega arith

-- What `create` leaves in the index region.
record Written (i : ℕ) (codes : List ℕ) (index : IndexRegion) : Type 0 where
  index' : IndexRegion
  written : write_codes i codes index ≡ ok index'
  same_lo : index'.lo ≡ index.lo
  same_hi : index'.hi ≡ index.hi
  before : (j : ℕ) → j < i → index'.codes j ≡ index.codes j
  stands : Stands i codes index'.codes

write_code_lem :
    (i c : ℕ) (index : IndexRegion)
    → index.lo ≤ i
    → i ≤ index.hi
    → write_code i c index ≡ ok (record index { codes = λ j. if j == i then c else index.codes j })
unfolding write_code
write_code_lem i c index lo hi = if_true (leb index.lo i && leb i index.hi) _ _ (ground arith)

next-Written :
    (i c : ℕ) (codes : List ℕ) (index : IndexRegion)
    → index.lo ≤ i
    → i ≤ index.hi
    → Written (suc i) codes (record index { codes = λ j. if j == i then c else index.codes j })
    → Written i (c ∷ codes) index
unfolding write_codes
next-Written i c codes index lo hi rest = record {
  index' = rest.index';
  written = rw (write_code_lem i c index lo hi) rest.written;
  same_lo = rest.same_lo;
  same_hi = rest.same_hi;
  before = λ j h. rest.before j (omega arith) ∙ if_false (j == i) c (index.codes j) (ground arith);
  stands = at;
}
  where
    at : Stands i (c ∷ codes) rest.index'.codes
    at zero d e =
        let place : i + 0 ≡ i = omega arith in
        ap rest.index'.codes place
        ∙ rest.before i (omega arith)
        ∙ if_true (i == i) c (index.codes i) (ground arith)
        ∙ cc
    at (suc j) d e =
        let place : i + suc j ≡ suc i + j = omega arith in
        ap rest.index'.codes place ∙ rest.stands j d e

write_codes_lem :
    (i : ℕ) (codes : List ℕ) (index : IndexRegion)
    → index.lo ≤ i
    → i + length codes ≤ suc index.hi
    → Written i codes index
write_codes_lem i [] index lo hi = record {
  index' = index;
  written = unfold write_codes in refl;
  same_lo = refl;
  same_hi = refl;
  before = λ j h. refl;
  stands = λ j c e. absurd cc;
}
write_codes_lem i (c ∷ codes) index lo hi = next-Written i c codes index lo (omega arith) (
    write_codes_lem (suc i) codes
      (record index { codes = λ j. if j == i then c else index.codes j }) (omega arith)
      (omega arith))

first_of-none : (a : Option ℕ) → first_of a none ≡ a
unfolding first_of
first_of-none none = refl
first_of-none (some a) = refl

-- Codes that are written to a region of their number are read back as the map from each code to its
-- last place.
pub read_index-write_index :
    (c : ℕ) (codes : List ℕ) (f : ℕ → ℕ)
    → (index : Option IndexRegion) × (write_index
          (c ∷ codes)
          (some (record { lo = 0; hi = length codes; codes = f }))
        ≡ ok index)
      × (read_index index ≡ last_place 0 (c ∷ codes))
unfolding write_index read_index
read_index-write_index c codes f =
    let done =
      write_codes_lem 0 (c ∷ codes) (record { lo = 0; hi = length codes; codes = f }) (omega arith)
        (omega arith) in
    let all : suc done.index'.hi - done.index'.lo ≡ length (c ∷ codes) =
      omega (arith, done.same_lo, done.same_hi) in
    (
      some done.index',
      rw done.written refl,
      fun_ext (λ x.
          ap (λ (n : ℕ). read_codes n done.index'.lo done.index'.codes (λ x. none) x) all
          ∙ ap (λ (i : ℕ). read_codes (length (c ∷ codes)) i done.index'.codes (λ x. none) x)
              done.same_lo
          ∙ read_codes-last_place (c ∷ codes) 0 done.index'.codes (λ x. none) x done.stands
          ∙ first_of-none (last_place 0 (c ∷ codes) x)),
    )
