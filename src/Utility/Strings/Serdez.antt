-- ===== src/Utility/Strings/Serdez.antt =====
-- hyperion/utility.h: `string_serdez`, which passes names between tasks. It writes to a buffer that has
-- contents before.
use legms.Prelude.{
  ℕ, zero, suc, ◌+◌, ◌<◌, ◌≡◌, refl, ap, ◌∙◌, List, [], ◌∷◌, ◌++◌, ltb, if◌then◌else◌, length, drop,
  Result, ok, throws, arith, if_true, lt→ltb,
}
use legms.Utility.Strings.{set_elem, c_string, strlen}
use legms.Utility.Strings.Copies.{HasNoNul, c_string-ended}

abbrev pub max_charlen : ℕ
max_charlen = 999

unfoldable pub serialized_size : List ℕ → Result ℕ
serialized_size val = if ltb (length val) max_charlen then ok (length val + 1) else throws

-- std::strcpy(buff, str), where `str` has its terminator
unfoldable pub strcpy : List ℕ → List ℕ → List ℕ
unfolding c_string strlen
strcpy buff str = c_string str ++ 0 ∷ drop (suc (strlen str)) buff

-- The buffer, and the result.
unfoldable pub serialize : List ℕ → List ℕ → Result (List ℕ × ℕ)
unfolding strcpy set_elem
serialize val buffer =
    let buff = if ltb 0 (length val) then strcpy buffer val else buffer in
    if ltb (length val) max_charlen
    then ok (set_elem (length val) 0 buff, length val + 1)
    else throws

unfoldable pub deserialize : List ℕ → List ℕ × ℕ
unfolding c_string
deserialize buffer = (c_string buffer, length (c_string buffer) + 1)

c_string_id : (str : List ℕ) → HasNoNul str → c_string str ≡ str
unfolding c_string
c_string_id [] h = refl
c_string_id (zero ∷ str) h = absurd (omega arith)
c_string_id (suc c ∷ str) h = ap (λ xs. suc c ∷ xs) (c_string_id str h.1)

set_elem-ended : (str rest : List ℕ) → set_elem (length str) 0 (str ++ 0 ∷ rest) ≡ str ++ 0 ∷ rest
unfolding set_elem
set_elem-ended [] rest = refl
set_elem-ended (c ∷ str) rest = ap (λ xs. c ∷ xs) (set_elem-ended str rest)

-- The buffer has the name, a terminator, and something behind.
written :
    (val buffer : List ℕ)
    → HasNoNul val
    → length val < length buffer
    → (rest : List ℕ) × (set_elem
          (length val)
          0
          (if ltb 0 (length val) then strcpy buffer val else buffer)
        ≡ val ++ 0 ∷ rest)
unfolding strcpy set_elem
written [] [] h room = absurd (omega arith)
written [] (b ∷ buffer) h room = (buffer, refl)
written (c ∷ val) buffer h room =
    let rest = drop (suc (strlen (c ∷ val))) buffer in
    let str = c ∷ val in
    (
      rest,
      ap (set_elem (length str) 0) (
            if_true (ltb 0 (length str)) (strcpy buffer str) buffer
              (lt→ltb 0 (length str) (omega arith))
            ∙ ap (λ s. s ++ 0 ∷ rest) (c_string_id str h))
          ∙ set_elem-ended str rest,
    )

read_back :
    (val buffer rest : List ℕ)
    → HasNoNul val
    → buffer ≡ val ++ 0 ∷ rest
    → deserialize buffer ≡ (val, length val + 1)
unfolding deserialize
read_back val buffer rest h e =
    let str = ap c_string e ∙ c_string-ended val rest h in ap (λ s. (s, length s + 1)) str

-- string_serdez: a name without a terminator in it, shorter than the limit and the buffer, is read back
-- from the buffer that serialize makes, and serialize, deserialize and serialized_size have one result.
pub string-round_trip :
    (val buffer : List ℕ)
    → HasNoNul val
    → length val < length buffer
    → length val < max_charlen
    → (written_to : List ℕ) × (size : ℕ) × (serialize val buffer ≡ ok (written_to, size))
      × (serialized_size val ≡ ok size)
      × (deserialize written_to ≡ (val, size))
unfolding serialize serialized_size
string-round_trip val buffer h room short =
    let (rest, e) = written val buffer h room in
    let fits = lt→ltb (length val) max_charlen short in
    (
      set_elem (length val) 0 (if ltb 0 (length val) then strcpy buffer val else buffer),
      length val + 1,
      if_true (ltb (length val) max_charlen) _ _ fits,
      if_true (ltb (length val) max_charlen) _ _ fits,
      read_back val _ rest h e,
    )
