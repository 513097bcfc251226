-- ===== src/Gridder/Fields/Values.antt =====
-- The arguments after a sequence of assignments.
use legms.Prelude.{
  ◌≡◌, refl, ap, sym, ◌∙◌, Bool, true, false, List, [], ◌∷◌, Option, none, some, if◌then◌else◌,
  Text,
}
use legms.Gridder.Fields.{StringArgs, Field, same_field, field, set_field, field-set_field}

abbrev pub or_else : Option Text → Option Text → Option Text
or_else none second = second
or_else (some v) second = some v

pub or_else_assoc : (a b c : Option Text) → or_else (or_else a b) c ≡ or_else a (or_else b c)
or_else_assoc none b c = refl
or_else_assoc (some v) b c = refl

pub or_else-none : (a : Option Text) → or_else a none ≡ a
or_else-none none = refl
or_else-none (some v) = refl

-- The last of the values for a name.
abbrev pub last_value : Field → List (Field × Text) → Option Text
last_value f [] = none
last_value f ((g, val) ∷ assigned) =
    or_else (last_value f assigned) (if same_field g f then some val else none)

or_else-if :
    (b : Bool) (val : Text) (old : Option Text)
    → or_else (if b then some val else none) old ≡ (if b then some val else old)
or_else-if true val old = refl
or_else-if false val old = refl

module _ {FilePath Angle : Type 0} where
  abbrev pub set_all : List (Field × Text) → StringArgs FilePath Angle → StringArgs FilePath Angle
  set_all [] args = args
  set_all ((f, val) ∷ assigned) args = set_all assigned (set_field f val args)

  pub field-set_all :
      (f : Field) (assigned : List (Field × Text)) (args : StringArgs FilePath Angle)
      → field f (set_all assigned args) ≡ or_else (last_value f assigned) (field f args)
  field-set_all f [] args = refl
  field-set_all f ((g, val) ∷ assigned) args =
      field-set_all f assigned (set_field g val args)
      ∙ (ap (or_else (last_value f assigned))
            (field-set_field g f val args ∙ sym (or_else-if (same_field g f) val (field f args)))
          ∙ sym (or_else_assoc (last_value f assigned) _ (field f args)))
