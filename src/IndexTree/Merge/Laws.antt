-- ===== src/IndexTree/Merge/Laws.antt =====
-- Laws of `merged_with` on compact trees: as a union it depends on no order.
use legms.Prelude.{◌≡◌, refl, ap, sym, ◌∙◌, Bool, true, false, ◌||◌, Result, ok, ◌>>=◌, List}
use legms.IndexTree.Tree.{IndexTree}
use legms.IndexTree.Compact.Form.{IsCompact}
use legms.IndexTree.Compact.Paths.{has_path, SamePaths-eq}
use legms.IndexTree.Merge.{merge}
use legms.IndexTree.Merge.Overlay.{Unites}
use legms.IndexTree.Merge.Union.{merge-Unites}

or_comm : (a b : Bool) → (a || b) ≡ (b || a)
or_comm true true = refl
or_comm true false = refl
or_comm false true = refl
or_comm false false = refl

or_assoc : (a b c : Bool) → ((a || b) || c) ≡ (a || (b || c))
or_assoc true b c = refl
or_assoc false b c = refl

-- Two results that unite the same paths are equal.
Unites-eq :
    (a b a' b' : IndexTree) {res res' : Result IndexTree}
    → Unites a b res
    → Unites a' b' res'
    → ((cs : List _) → (has_path a cs || has_path b cs) ≡ (has_path a' cs || has_path b' cs))
    → res ≡ res'
Unites-eq a b a' b' (c, e, u, p) (c', e', u', p') same =
    e ∙ ap ok (SamePaths-eq c c' u u' (λ cs. p cs ∙ same cs ∙ sym (p' cs))) ∙ sym e'

module _ (a b : IndexTree) (u : IsCompact a) (v : IsCompact b) where
  -- On compact trees merged_with does not depend on which tree is which.
  pub merge_comm : merge a b ≡ merge b a
  merge_comm =
      Unites-eq a b b a (merge-Unites a b u v) (merge-Unites b a v u)
        (λ cs. or_comm (has_path a cs) (has_path b cs))

  -- Merging compact trees in one grouping or the other gives one result.
  pub merge_assoc :
      (d : IndexTree)
      → IsCompact d
      → (merge a b >>= λ c. merge c d) ≡ (merge b d >>= λ c. merge a c)
  merge_assoc d w =
      let (l, el, ul, pl) = merge-Unites a b u v in
      let (r, er, ur, pr) = merge-Unites b d v w in
      rw (el, er)
        (Unites-eq l d a r (merge-Unites l d ul w) (merge-Unites a r u ur) (λ cs.
          ap (λ o. o || has_path d cs) (pl cs)
          ∙ or_assoc (has_path a cs) (has_path b cs) (has_path d cs)
          ∙ ap (λ o. has_path a cs || o) (sym (pr cs))))

-- Merging a compact tree a second time into a compact tree changes nothing.
pub merge_absorb :
    (a b : IndexTree) → IsCompact a → IsCompact b → (merge a b >>= λ c. merge c b) ≡ merge a b
merge_absorb a b u v =
    let (c, e, w, p) = merge-Unites a b u v in
    rw e (
      Unites-eq c b a b (merge-Unites c b w v) (c, refl, w, p)
        (λ cs. ap (λ o. o || has_path b cs) (p cs) ∙ or_absorb (has_path a cs) (has_path b cs)))
  where
    or_absorb : (x y : Bool) → ((x || y) || y) ≡ (x || y)
    or_absorb true y = refl
    or_absorb false true = refl
    or_absorb false false = refl
