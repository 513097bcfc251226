-- ===== src/MeasRef/Create/Cloned.antt =====
-- `make` of a clone.
use legms.Prelude.{
  ℕ, suc, ◌≤◌, ◌<◌, max, ◌≡◌, refl, ap, ap₂, sym, subst, Bool, true, false, List, [], ◌∷◌, map,
  arith, ok, ◌>>=◌, All,
}
use legms.MeasRef.Measure.{MClass, MrBase, is_class}
use legms.MeasRef.Equiv.{mclass}
use legms.MeasRef.Create.{MeasRef, Contents, CodeMap, create, make, clone}
use legms.MeasRef.Create.Codes.{codes_map}
use legms.MeasRef.Create.Made.{IsKept, make-Kept}

-- A reference with its type for its code.
abbrev typed : MrBase → MrBase × ℕ
typed r = (r, r.ref_type)

references_typed : (mrbs : List MrBase) → map (λ m. m.0) (map typed mrbs) ≡ mrbs
references_typed [] = refl
references_typed (r ∷ mrbs) = ap (λ rs. r ∷ rs) (references_typed mrbs)

types_typed : (mrbs : List MrBase) → map (λ m. m.1) (map typed mrbs) ≡ map (λ r. r.ref_type) mrbs
types_typed [] = refl
types_typed (r ∷ mrbs) = ap (λ ts. r.ref_type ∷ ts) (types_typed mrbs)

clone_lem :
    (make_value : MClass → List ℕ → List ℕ) (f max_dim : ℕ) (contents : Contents) (s s' : MeasRef)
    (klass : MClass) (mrbs : List MrBase) (rmap : CodeMap)
    → mclass s.dim s.regions ≡ ok klass
    → is_class klass ≡ true
    → make make_value f max_dim s ≡ ok (mrbs, rmap)
    → create f max_dim contents (map typed mrbs) klass false ≡ ok s'
    → clone make_value f max_dim contents s ≡ ok s'
unfolding clone
clone_lem make_value f max_dim contents s s' klass mrbs rmap class known made created =
    rw (class, known, made) created

-- A clone of what `create` stores holds the same references, in their order; its map takes the type of
-- each reference for its code, whatever the codes were, and also if there was no index. So it is with
-- enough fuel, under the conditions on which `make` returns what `create` was given.
pub make-clone :
    (make_value : MClass → List ℕ → List ℕ) (n max_dim : ℕ) (r : MrBase × ℕ)
    (mrbs : List (MrBase × ℕ)) (klass : MClass) (no_index : Bool) (contents contents' : Contents)
    → suc (suc n) < max_dim
    → All (IsKept make_value n klass) (r.0 ∷ map (λ m. m.0) mrbs)
    → (enough : ℕ) × ((f : ℕ)
        → enough ≤ f
        → (create f max_dim contents (r ∷ mrbs) klass no_index >>= λ s.
            clone make_value f max_dim contents' s >>= make make_value f max_dim)
          ≡ ok (
            map (λ m. m.0) (r ∷ mrbs),
            codes_map false (map (λ s. s.ref_type) (map (λ m. m.0) (r ∷ mrbs))),
          ))
make-clone make_value n max_dim r mrbs klass no_index contents contents' lt ws =
    let mrs : List MrBase = map (λ m. m.0) mrbs in
    let known : is_class klass ≡ true =
      subst (λ k. is_class k ≡ true) ws.0.writable.of_class ws.0.restorable.known in
    let first = make-Kept make_value n max_dim r mrbs klass no_index contents lt ws in
    let second =
      make-Kept make_value n max_dim (typed r.0) (map typed mrs) klass false contents' lt
        (ws.0, subst (All (IsKept make_value n klass)) (sym (references_typed mrs)) ws.1) in
    (
      max first.enough second.enough,
      λ f h.
          rw
            (
              first.creates f (omega arith),
              clone_lem make_value f max_dim contents' first.kept second.kept klass (r.0 ∷ mrs)
                  (codes_map no_index (map (λ m. m.1) (r ∷ mrbs))) first.class_of known
                  (first.makes f (omega arith)) (second.creates f (omega arith)),
              second.makes f (omega arith),
            )
            (ap₂ (λ rs ts. ok (r.0 ∷ rs, codes_map false (r.0.ref_type ∷ ts)))
              (references_typed mrs) (types_typed mrs)),
    )
