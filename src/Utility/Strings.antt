-- ===== src/Utility/Strings.antt =====
-- hyperion/utility.h and hyperion/utility.cc: helpers on names, and `hyperion::string`, a string in an
-- array of N = HYPERION_MAX_STRING_SIZE characters. A character is a number, and the one that ends a
-- C string is 0.
pub mod Copies
pub mod Suffixes
pub mod Serdez
use legms.Prelude.{
  ℕ, zero, suc, ◌+◌, ◌-◌, Bool, true, false, ◌&&◌, List, [], ◌∷◌, ◌++◌, ltb, min, not, ◌==◌,
  if◌then◌else◌, length, take, drop,
}

-- s[i] = c, where s has such an element.
unfoldable pub set_elem : ℕ → ℕ → List ℕ → List ℕ
set_elem i c [] = []
set_elem zero c (d ∷ s) = c ∷ s
set_elem (suc i) c (d ∷ s) = d ∷ set_elem i c s

-- fstrcpy(dest, src): `dest` is an array of N characters. std::strncpy copies n characters of
-- src.c_str(), which has the terminator at the end.
unfoldable pub fstrcpy : List ℕ → List ℕ → List ℕ
unfolding set_elem
fstrcpy dest src =
    let n = min (length dest) (length src + 1) in
    set_elem (n - 1) 0 (take n (src ++ 0 ∷ []) ++ drop n dest)

-- std::string(val): the characters in front of the first terminator. `strlen` counts them.
unfoldable pub c_string : List ℕ → List ℕ
c_string [] = []
c_string (zero ∷ val) = []
c_string (suc c ∷ val) = suc c ∷ c_string val

unfoldable pub strlen : List ℕ → ℕ
strlen [] = 0
strlen (zero ∷ val) = 0
strlen (suc c ∷ val) = suc (strlen val)

-- std::strncmp(val, other, n) == 0, and < 0
unfoldable pub strncmp_eq : ℕ → List ℕ → List ℕ → Bool
strncmp_eq zero val other = true
strncmp_eq (suc n) (c ∷ val) (d ∷ other) =
    let rest = strncmp_eq n val other in if c == d then (if c == 0 then true else rest) else false
strncmp_eq (suc n) [] other = true
strncmp_eq (suc n) (c ∷ val) [] = true

-- operator== of two std::strings
unfoldable pub str_eq : List ℕ → List ℕ → Bool
str_eq [] [] = true
str_eq [] (d ∷ other) = false
str_eq (c ∷ str) [] = false
str_eq (c ∷ str) (d ∷ other) = (c == d) && str_eq str other

-- The difference of the sizes is signed in the code, and negative values become 0.
unfoldable pub has_suffix : List ℕ → List ℕ → Bool
unfolding str_eq
has_suffix str suffix = str_eq (drop (length str - length suffix) str) suffix

-- prefix.back(); the code calls it on names that are not empty.
unfoldable pub back : List ℕ → ℕ
back [] = 0
back (c ∷ []) = c
back (c ∷ d ∷ str) = back (d ∷ str)

abbrev pub slash : ℕ
slash = 47

unfoldable pub add_name_prefix : List ℕ → List ℕ → List ℕ
unfolding back
add_name_prefix prefix str =
    (if ltb 0 (length prefix) && not (back prefix == slash) then prefix ++ slash ∷ [] else prefix)
    ++ str
