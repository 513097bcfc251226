-- ===== src/IndexTree/Merge/Union.antt =====
-- `merged_with` on compact trees returns the compact tree that has the paths of both.
use legms.Prelude.{
  ℕ, zero, suc, ◌+◌, ◌≤◌, ◌<◌, ◌≡◌, refl, sym, ◌∙◌, Bool, true, false, ◌&&◌, ◌||◌, ltb, leb,
  if◌then◌else◌, Result, ok, ◌>>=◌, arith, List, [], ◌∷◌, Bool-cases, inl, inr, ltb→lt, leb→le,
  if-of_true, if-of_false,
}
use native.Mathlib.Nat.{le_trans}
use legms.IndexTree.Tree.{IndexTree, empty, block, eq, eq_sound, is_empty, append, nodes, IsOrdered}
use legms.IndexTree.Compact.{of_blocks, compact}
use legms.IndexTree.Compact.Form.{
  IsCompact, IsCompact-IsOrdered, IsCompact-HasCompactChildren, compact_total, compact-IsCompact,
  IsCompact-IsOrdered_rest,
}
use legms.IndexTree.Compact.Meaning.{child_at-compact}
use legms.IndexTree.Compact.Paths.{has_path, has_path-empty, has_path-nil, has_path-child_at}
use legms.IndexTree.Merge.{merge_loop, merged_with, merge, less_than, front_start, back_end}
use legms.IndexTree.Merge.Overlay.{
  Overlays, Unites, Fits, left_first-Overlays, Overlays-comm, overlap-Overlays, next_ch, next_tch,
  emitted, ended, next_ch-Fits, next_tch-Fits,
}

IsCompact-Fits : (a : IndexTree) → IsCompact a → Fits 0 a
IsCompact-Fits a u = (IsCompact-IsOrdered a u, IsCompact-HasCompactChildren a u)

or_false : (b : Bool) → (b || false) ≡ b
or_false true = refl
or_false false = refl

or_same : (b : Bool) → (b || b) ≡ b
or_same true = refl
or_same false = refl

-- The constructor at the end of merged_with compacts the vector that the loop has made.
of_blocks-Unites :
    (lo : ℕ) (a b : IndexTree) (res : Result IndexTree)
    → Overlays lo a b res
    → Unites a b (res >>= of_blocks)
unfolding of_blocks
of_blocks-Unites lo a b res (newch, e, o, w, paths) =
    let (c, compacted) = compact_total lo newch o in
    (c, rw e compacted, compact-IsCompact newch c w compacted, λ cs. all_paths cs c compacted)
  where
    all_paths :
        (cs : List ℕ) (c : IndexTree)
        → compact newch ≡ ok c
        → has_path c cs ≡ (has_path a cs || has_path b cs)
    all_paths [] c h = rw (has_path-nil c, has_path-nil a) refl
    all_paths (x ∷ cs) c h =
        has_path-child_at c newch x cs (child_at-compact newch c x h) ∙ paths x cs

back_end-IsOrdered :
    (lo : ℕ) (i n : ℕ) (t r : IndexTree)
    → IsOrdered lo (block i n t r)
    → lo ≤ back_end (block i n t r)
unfolding back_end
back_end-IsOrdered lo i n t empty o = omega arith
back_end-IsOrdered lo i n t (block j m s q) o =
    let rest : i + n ≤ back_end (block j m s q) = back_end-IsOrdered (i + n) j m s q o.1 in
    omega arith

-- A vector behind another one that ends before it starts.
append-Overlays :
    (lo i n : ℕ) (t r : IndexTree) (j m : ℕ) (s q : IndexTree)
    → Fits lo (block i n t r)
    → IsCompact (block j m s q)
    → back_end (block i n t r) ≤ j
    → Overlays lo (block i n t r) (block j m s q) (ok (append (block i n t r) (block j m s q)))
unfolding append back_end
append-Overlays lo i n t empty j m s q f u h =
    let ordered : IsOrdered (i + n) (block j m s q) = (h, IsCompact-IsOrdered_rest j m s q u) in
    left_first-Overlays lo i n t empty (block j m s q) f ordered (ok (block j m s q)) (
      block j m s q,
      refl,
      ordered,
      IsCompact-HasCompactChildren (block j m s q) u,
      λ x cs. rw (has_path-empty x cs) refl,
    )
append-Overlays lo i n t (block k l v r) j m s q f u h =
    let below : i + n ≤ back_end (block k l v r) = back_end-IsOrdered (i + n) k l v r f.0.1 in
    let ordered : IsOrdered (i + n) (block j m s q) =
      (omega arith, IsCompact-IsOrdered_rest j m s q u) in
    left_first-Overlays lo i n t (block k l v r) (block j m s q) f ordered
      (ok (append (block k l v r) (block j m s q)))
      (append-Overlays (i + n) k l v r j m s q (f.0.1, f.1.1) u h)

-- The branches of merged_with that make no vector.
same-Unites : (a b : IndexTree) → IsCompact a → eq a b ≡ true → Unites a b (ok a)
same-Unites a b u h = (a, refl, u, λ cs. rw (← eq_sound a b h) (sym (or_same (has_path a cs))))

right_empty-Unites : (a : IndexTree) → IsCompact a → Unites a empty (ok a)
right_empty-Unites a u = (a, refl, u, all_paths)
  where
    all_paths : (cs : List ℕ) → has_path a cs ≡ (has_path a cs || has_path empty cs)
    all_paths [] = rw (has_path-nil a) refl
    all_paths (x ∷ cs) = rw (has_path-empty x cs) (sym (or_false (has_path a (x ∷ cs))))

left_empty-Unites : (b : IndexTree) → IsCompact b → Unites empty b (ok b)
left_empty-Unites b u = (b, refl, u, all_paths)
  where
    all_paths : (cs : List ℕ) → has_path b cs ≡ (has_path empty cs || has_path b cs)
    all_paths [] = rw (has_path-nil b, has_path-nil empty) refl
    all_paths (x ∷ cs) = rw (has_path-empty x cs) refl

abbrev LoopUnites : ℕ → Type 0
LoopUnites f =
    (lo : ℕ) (a b : IndexTree)
    → nodes a + nodes b < f
    → Fits lo a
    → Fits lo b
    → Overlays lo a b (merge_loop f a b)

abbrev CallUnites : ℕ → Type 0
CallUnites f =
    (a b : IndexTree)
    → suc (nodes a + nodes b) < f
    → IsCompact a
    → IsCompact b
    → Unites a b (merged_with f a b)

eq-empty_block : (j m : ℕ) (s q : IndexTree) → eq empty (block j m s q) ≡ false
unfolding eq
eq-empty_block j m s q = refl

and_right : (b c : Bool) → (b && c) ≡ true → c ≡ true
and_right true c h = h
and_right false c h = cc

le_of_lt : {a b : ℕ} → a < b → a ≤ b
le_of_lt h = omega arith

-- One call of merged_with, from the loop that it runs.
call_step : (f : ℕ) → LoopUnites f → CallUnites (suc f)
unfolding merged_with is_empty front_start
call_step f loop a empty h u v = right_empty-Unites a u
call_step f loop empty (block j m s q) h u v =
    rw (eq-empty_block j m s q) (left_empty-Unites (block j m s q) v)
call_step f loop (block i n t r) (block j m s q) h u v =
    let a : IndexTree = block i n t r in
    let b : IndexTree = block j m s q in
    let looped =
      of_blocks-Unites 0 a b (merge_loop f a b)
        (loop 0 a b (omega arith) (IsCompact-Fits a u) (IsCompact-Fits b v)) in
    let ends_before : (c : Bool) → (c && ltb (back_end a) j) ≡ true → back_end a ≤ j =
      λ c k. le_of_lt (ltb→lt (back_end a) j (and_right c (ltb (back_end a) j) k)) in
    elim (Bool-cases (eq a b)) [
      | inl e ↦ rw e (same-Unites a b u e)
      | inr e ↦ elim (Bool-cases (less_than a b && ltb (back_end a) j)) [
        | inl k ↦
            rw (e, k)
              (of_blocks-Unites 0 a b (ok (append a b)) (
                append-Overlays 0 i n t r j m s q (IsCompact-Fits a u) v
                  (ends_before (less_than a b) k)))
        | inr k ↦ rw (e, k) looped
      ]
    ]

-- A round uses up a block of one side.
nodes_next :
    (b : Bool) (x y z w : ℕ) (t ch s tch : IndexTree)
    → nodes (if b then ch else block x y t ch) + nodes (if b then block z w s tch else tch)
      < suc (nodes t + nodes ch) + suc (nodes s + nodes tch)
unfolding nodes
nodes_next true x y z w t ch s tch = omega arith
nodes_next false x y z w t ch s tch = omega arith

-- The round in which the two blocks overlap.
overlap_step :
    (f : ℕ)
    → LoopUnites f
    → CallUnites f
    → (lo i n : ℕ) (t ch : IndexTree) (it nt : ℕ) (s tch : IndexTree)
    → nodes (block i n t ch) + nodes (block it nt s tch) < suc f
    → (fa : Fits lo (block i n t ch)) (fb : Fits lo (block it nt s tch))
    → (left : i < it + nt) (right : it < i + n)
    → Overlays lo (block i n t ch) (block it nt s tch) (
        merged_with f t s >>= λ both.
        merge_loop f
          (next_ch lo i n t ch it nt s tch fa fb left right)
          (next_tch lo i n t ch it nt s tch fa fb left right)
        >>= λ newch. ok (emitted lo i n t ch it nt s tch fa fb left right both newch))
unfolding nodes
overlap_step f loop call lo i n t ch it nt s tch h fa fb left right =
    let next = next_ch lo i n t ch it nt s tch fa fb left right in
    let next' = next_tch lo i n t ch it nt s tch fa fb left right in
    let fuel : nodes next + nodes next' < f =
      le_trans (nodes_next (ended lo i n t ch it nt s tch fa fb left right) _ _ _ _ t ch s tch)
        (omega arith) in
    overlap-Overlays lo i n t ch it nt s tch fa fb left right (merged_with f t s)
      (merge_loop f next next') (call t s (omega arith) fa.1.0 fb.1.0)
      (loop _ next next' fuel (next_ch-Fits lo i n t ch it nt s tch fa fb left right)
        (next_tch-Fits lo i n t ch it nt s tch fa fb left right))

-- One round of the loop, from the calls that it makes.
loop_step : (f : ℕ) → LoopUnites f → CallUnites f → LoopUnites (suc f)
unfolding merge_loop nodes
loop_step f loop call lo empty empty h fa fb =
    (empty, refl, tt, tt, λ x cs. rw (has_path-empty x cs) refl)
loop_step f loop call lo empty (block it nt s tch) h fa fb =
    Overlays-comm lo (block it nt s tch) empty (merge_loop (suc f) empty (block it nt s tch)) (
      left_first-Overlays lo it nt s tch empty fb tt (merge_loop f empty tch) (
        Overlays-comm (it + nt) empty tch (merge_loop f empty tch)
          (loop (it + nt) empty tch (omega arith) (tt, tt) (fb.0.1, fb.1.1))))
loop_step f loop call lo (block i n t ch) empty h fa fb =
    left_first-Overlays lo i n t ch empty fa tt (merge_loop f ch empty)
      (loop (i + n) ch empty (omega arith) (fa.0.1, fa.1.1) (tt, tt))
loop_step f loop call lo (block i n t ch) (block it nt s tch) h fa fb =
    elim (Bool-cases (leb (it + nt) i)) [
      | inl e ↦
          let before : IsOrdered (it + nt) (block i n t ch) = (leb→le (it + nt) i e, fa.0.1) in
          if-of_true (Overlays lo a b) (leb (it + nt) i) _ _ e (
            Overlays-comm lo b a _ (
              left_first-Overlays lo it nt s tch a fb before (merge_loop f a tch) (
                Overlays-comm (it + nt) a tch (merge_loop f a tch)
                  (loop (it + nt) a tch (omega arith) (before, fa.1) (fb.0.1, fb.1.1)))))
      | inr e ↦
          if-of_false (Overlays lo a b) (leb (it + nt) i) _ _ e
            (elim (Bool-cases (leb (i + n) it)) [
              | inl k ↦
                  let after : IsOrdered (i + n) (block it nt s tch) =
                    (leb→le (i + n) it k, fb.0.1) in
                  if-of_true (Overlays lo a b) (leb (i + n) it) _ _ k (
                    left_first-Overlays lo i n t ch b fa after (merge_loop f ch b)
                      (loop (i + n) ch b (omega arith) (fa.0.1, fa.1.1) (after, fb.1)))
              | inr k ↦ if-of_false (Overlays lo a b) (leb (i + n) it) _ _ k (
                  overlap_step f loop call lo i n t ch it nt s tch h fa fb (ground arith)
                    (ground arith))
            ])
    ]
  where
    a : IndexTree
    a = block i n t ch

    b : IndexTree
    b = block it nt s tch

-- Enough fuel is left at every call.
mutual
  merge_loop-Overlays : (f : ℕ) → LoopUnites f
  merge_loop-Overlays zero lo a b h fa fb = absurd (omega arith)
  merge_loop-Overlays (suc f) lo a b h fa fb =
      loop_step f (merge_loop-Overlays f) (merged_with-Unites f) lo a b h fa fb

  merged_with-Unites : (f : ℕ) → CallUnites f
  merged_with-Unites zero a b h u v = absurd (omega arith)
  merged_with-Unites (suc f) a b h u v = call_step f (merge_loop-Overlays f) a b h u v

-- On compact trees merged_with returns, with the fuel that `merge` gives it, a compact tree whose
-- paths are those of the two trees together.
pub merge-Unites :
    (a b : IndexTree)
    → IsCompact a
    → IsCompact b
    → (c : IndexTree) × (merge a b ≡ ok c)
      × IsCompact c
      × ((cs : List ℕ) → has_path c cs ≡ (has_path a cs || has_path b cs))
unfolding merge
merge-Unites a b u v = merged_with-Unites (suc (suc (nodes a + nodes b))) a b (omega arith) u v
