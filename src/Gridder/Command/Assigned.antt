-- ===== src/Gridder/Command/Assigned.antt =====
-- Options whose tags have one match.
use legms.Prelude.{◌≡◌, refl, ap, List, [], ◌∷◌, take, length, Text, Bool-cases, inl, inr, All}
use legms.Utility.Strings.{str_eq}
use legms.Gridder.Args.{tags}
use legms.Gridder.Fields.{
  StringArgs, Field, h5_path, config_path, echo, min_block, pa_step, pa_block, w_planes, tag_of,
  set_field,
}
use legms.Gridder.Fields.Values.{set_all}
use legms.Gridder.Checked.{done, returned_first}
use legms.Gridder.Command.{matching, assign_match, apply_matches, apply_pairs}

-- The options of a command line, each with the only name whose tag it is a prefix of.
pub data Resolved : List (Text × Text) → List (Field × Text) → Type 0 where
  nothing : Resolved [] []
  option :
      {tag val : Text} {arg_pairs : List (Text × Text)} {assigned : List (Field × Text)} (f : Field)
      → matching tag tags ≡ tag_of f ∷ []
      → Resolved arg_pairs assigned
      → Resolved ((tag, val) ∷ arg_pairs) ((f, val) ∷ assigned)

module _ {FilePath Angle : Type 0} where
  pub assign_match_tag :
      (f : Field) (val : Text) (args : StringArgs FilePath Angle)
      → assign_match (tag_of f) val args ≡ done (set_field f val args)
  unfolding assign_match str_eq
  assign_match_tag h5_path val args = refl
  assign_match_tag config_path val args = refl
  assign_match_tag echo val args = refl
  assign_match_tag min_block val args = refl
  assign_match_tag pa_step val args = refl
  assign_match_tag pa_block val args = refl
  assign_match_tag w_planes val args = refl

  pub apply_matches_tag :
      (f : Field) (tag val : Text) (args : StringArgs FilePath Angle)
      → apply_matches tag val args (tag_of f ∷ []) ≡ done (set_field f val args)
  unfolding apply_matches
  apply_matches_tag f tag val args = assign_match_tag f val args

  pub apply_pairs-Resolved :
      {arg_pairs : List (Text × Text)} {assigned : List (Field × Text)}
      (args : StringArgs FilePath Angle)
      → Resolved arg_pairs assigned
      → apply_pairs arg_pairs args ≡ done (set_all assigned args)
  unfolding apply_pairs
  apply_pairs-Resolved args nothing = refl
  apply_pairs-Resolved args (option {val = val} f e rest) =
      rw (e, apply_matches_tag f _ val args) (apply_pairs-Resolved (set_field f val args) rest)

-- The matches are tags of the program, so that one match is a name's.
abbrev pub IsTag : Text → Type 0
IsTag t = (f : Field) × (t ≡ tag_of f)

pub tags-IsTag : All IsTag tags
tags-IsTag = (
  (h5_path, refl),
  (
    (config_path, refl),
    (
      (echo, refl),
      ((min_block, refl), ((pa_step, refl), ((pa_block, refl), ((w_planes, refl), tt)))),
    ),
  ),
)

pub matching-All : (tag : Text) (tgs : List Text) → All IsTag tgs → All IsTag (matching tag tgs)
unfolding matching
matching-All tag [] h = tt
matching-All tag (tg ∷ tgs) (h, hs) = elim (Bool-cases (str_eq (take (length tag) tg) tag)) [
  | inl e ↦ rw e (h, matching-All tag tgs hs)
  | inr e ↦ rw e (matching-All tag tgs hs)
]

module _ {FilePath Angle : Type 0} where
  one_match :
      (tag val : Text) (args next : StringArgs FilePath Angle) (matches : List Text)
      → All IsTag matches
      → apply_matches tag val args matches ≡ done next
      → (f : Field) × (matches ≡ tag_of f ∷ [])
  unfolding apply_matches
  one_match tag val args next [] h e = cc
  one_match tag val args next (m ∷ []) ((f, is_tag), h) e = (f, ap (λ t. t ∷ []) is_tag)
  one_match tag val args next (m ∷ m' ∷ ms) h e = cc

  -- Where all options apply, each has one match.
  pub apply_pairs_done :
      (arg_pairs : List (Text × Text)) (args found : StringArgs FilePath Angle)
      → apply_pairs arg_pairs args ≡ done found
      → (assigned : List (Field × Text)) × Resolved arg_pairs assigned
  unfolding apply_pairs
  apply_pairs_done [] args found e = ([], nothing)
  apply_pairs_done ((tag, val) ∷ arg_pairs) args found e =
      let (next, first, later) =
        returned_first (apply_matches tag val args (matching tag tags))
          (λ next. apply_pairs arg_pairs next) e in
      let (f, one) =
        one_match tag val args next (matching tag tags) (matching-All tag tags tags-IsTag) first in
      let (assigned, rest) = apply_pairs_done arg_pairs next found later in
      ((f, val) ∷ assigned, option f one rest)
