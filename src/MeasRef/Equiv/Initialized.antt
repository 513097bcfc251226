-- ===== src/MeasRef/Equiv/Initialized.antt =====
-- The same references, written to two pairs of regions.
use legms.Prelude.{
  ℕ, suc, ◌≤◌, max, ◌≡◌, refl, ap, ◌∙◌, Bool, true, false, List, [], some, arith, ok, ◌>>=◌, All,
  inl, inr, Option-cases,
}
use legms.MeasRef.Measure.{MClass, MrBase}
use legms.MeasRef.Regions.{Point, Metadata, Regions}
use legms.MeasRef.Entries.{Partial, own_values, own_metadata, or_else}
use legms.MeasRef.Initialize.{initialize}
use legms.MeasRef.Initialize.States.{InSpace}
use legms.MeasRef.Initialize.References.{
  reference_entries, IsWritable, initialize-reference_entries,
}
use legms.MeasRef.Instantiate.States.{is_some}
use legms.MeasRef.Equiv.{equiv}
use legms.MeasRef.Equiv.Decision.{Lists, equiv_iff}

-- An entry where there is one.
entry_at :
    {A : Type 0} (f : Partial A) (space : Point → Bool) (p : Point)
    → space p ≡ is_some (f p)
    → space p ≡ true
    → (a : A) × (f p ≡ some a)
unfolding is_some
entry_at f space p e h = elim (Option-cases (f p)) [
  | inl none_at ↦ let not_there : space p ≡ false = e ∙ ap is_some none_at in absurd cc
  | inr there ↦ there
]

InSpace-is_some :
    {A : Type 0} (f : Partial A) (space : Point → Bool)
    → ((p : Point) → space p ≡ is_some (f p))
    → InSpace space [] f
unfolding is_some
InSpace-is_some f space exact p a e = exact p ∙ ap is_some e

-- References that `initialize` writes to two pairs of regions are equivalent there, whatever the
-- regions contained before: with enough fuel, `equiv` of the two returns true, if the references can be
-- written, the first regions have exactly the points of their entries, which are listed, the second
-- ones at least those, and every value of the references compares equal to itself.
pub equiv-initialize :
    (eq_double : ℕ → ℕ → Bool) (n : ℕ) (mrbs : List MrBase) (klass : MClass)
    (points points1 : List Point) (rs rs' : Regions)
    → All (IsWritable n klass) mrbs
    → ((q : Point) → rs.metadata_space q ≡ is_some (reference_entries own_metadata n 0 mrbs q))
    → ((q : Point) → rs.values_space q ≡ is_some (reference_entries own_values n 0 mrbs q))
    → Lists points rs.metadata_space
    → Lists points1 rs.values_space
    → InSpace rs'.metadata_space [] (reference_entries own_metadata n 0 mrbs)
    → InSpace rs'.values_space [] (reference_entries own_values n 0 mrbs)
    → ((q : Point) (a : ℕ)
        → reference_entries own_values n 0 mrbs q ≡ some a
        → eq_double a a ≡ true)
    → (enough : ℕ) × ((f : ℕ)
        → enough ≤ f
        → (initialize f (suc (suc n)) mrbs klass rs >>= λ x.
            initialize f (suc (suc n)) mrbs klass rs' >>= λ y. equiv eq_double points points1 x y)
          ≡ ok true)
equiv-initialize eq_double n mrbs klass points points1 rs rs' ws exact exact1 lists lists1 in_md
      in_vals same =
    let md : Partial Metadata = reference_entries own_metadata n 0 mrbs in
    let vals : Partial ℕ = reference_entries own_values n 0 mrbs in
    let (enough, wrote) =
      initialize-reference_entries n mrbs klass rs ws (InSpace-is_some md rs.metadata_space exact)
        (InSpace-is_some vals rs.values_space exact1) in
    let (more, wrote') = initialize-reference_entries n mrbs klass rs' ws in_md in_vals in
    let x : Regions = record rs {
      metadata = λ q. or_else (md q) (rs.metadata q);
      values = λ q. or_else (vals q) (rs.values q);
    } in
    let y : Regions = record rs' {
      metadata = λ q. or_else (md q) (rs'.metadata q);
      values = λ q. or_else (vals q) (rs'.values q);
    } in
    let (b, runs, iff) =
      equiv_iff eq_double points points1 x y lists lists1
        (λ p h. let (a, e) = entry_at md rs.metadata_space p (exact p) h in in_md p a e)
        (λ p h. let (a, e) = entry_at vals rs.values_space p (exact1 p) h in in_vals p a e) in
    let holds : b ≡ true = iff.1 (
      λ p h.
          let (a, e) = entry_at md rs.metadata_space p (exact p) h in rw e (unfold or_else in refl),
      λ p h.
          let (a, e) = entry_at vals rs.values_space p (exact1 p) h in
          rw e (unfold or_else in same p a e),
    ) in
    (
      max enough more,
      λ f h. rw (wrote f (omega arith), wrote' f (omega arith)) (runs ∙ ap ok holds),
    )
