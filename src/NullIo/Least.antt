-- ===== src/NullIo/Least.antt =====
-- The range is the least one that contains what the operations used.
use legms.Prelude.{List, [], ◌∷◌, All, arith}
use legms.Prelude.Int.{ℤ, pos, ◌+ℤ◌, ◌≤ℤ◌, +ℤ_parts, min_ℤ, max_ℤ}
use legms.NullIo.{NullIo, update_range, write, pwrite, read, pread, target, do_seek}
use legms.NullIo.Range.{
  Op, writes, pwrites, reads, preads, seeks, step, extent, Reach, opened, after, Covers, Wider,
  step-Wider, step-Covers,
}

covered :
    (io io' : NullIo) (used : List (ℤ × ℤ))
    → Wider io io'
    → All (Covers io) used
    → All (Covers io') used
covered io io' [] wider h = tt
covered io io' ((start, end) ∷ used) (low, high) ((first, last), h) =
    ((omega arith, omega arith), covered io io' used (low, high) h)

min_ℤ_greatest : (a b lo : ℤ) → lo ≤ℤ a → lo ≤ℤ b → lo ≤ℤ min_ℤ a b
min_ℤ_greatest a b lo h h' = ground arith

max_ℤ_least : (a b hi : ℤ) → a ≤ℤ hi → b ≤ℤ hi → max_ℤ a b ≤ℤ hi
max_ℤ_least a b hi h h' = ground arith

-- A range from `lo` to `hi` contains another one.
abbrev pub Bounds : ℤ → ℤ → ℤ × ℤ → Type 0
Bounds lo hi (start, end) = (lo ≤ℤ start) × (end ≤ℤ hi)

update_range-Bounds :
    (offset size : ℤ) (io : NullIo) (lo hi : ℤ)
    → Bounds lo hi (io.m_min, io.m_max)
    → Bounds lo hi (offset, offset +ℤ size)
    → Bounds lo hi ((update_range offset size io).m_min, (update_range offset size io).m_max)
unfolding update_range
update_range-Bounds offset size io lo hi (low, high) (first, last) = (
  min_ℤ_greatest offset io.m_min lo first low,
  max_ℤ_least (offset +ℤ size) io.m_max hi last high,
)

add_zero : (t hi : ℤ) → t ≤ℤ hi → t +ℤ pos 0 ≤ℤ hi
add_zero t hi h = omega (arith, +ℤ_parts t (pos 0))

step-Bounds :
    (op : Op) (io : NullIo) (lo hi : ℤ)
    → Bounds lo hi (io.m_min, io.m_max)
    → Bounds lo hi (extent op io)
    → Bounds lo hi ((step op io).m_min, (step op io).m_max)
unfolding step write pwrite read pread do_seek extent
step-Bounds (writes size) io lo hi h h' = update_range-Bounds io.m_position size io lo hi h h'
step-Bounds (pwrites size offset) io lo hi h h' = update_range-Bounds offset size io lo hi h h'
step-Bounds (reads size) io lo hi h h' = update_range-Bounds io.m_position size io lo hi h h'
step-Bounds (preads size offset) io lo hi h h' = update_range-Bounds offset size io lo hi h h'
step-Bounds (seeks offset option) io lo hi h h' =
    let t = target offset option io in
    update_range-Bounds t (pos 0) io lo hi h (h'.0, add_zero t hi h'.1)

contains_used : (io : NullIo) (used : List (ℤ × ℤ)) → Reach io used → All (Covers io) used
contains_used io used opened = tt
contains_used io used (after {io = before} op sized reach) = (
  step-Covers op before,
  covered before (step op before) _ (step-Wider op before) (contains_used before _ reach),
)

least :
    (io : NullIo) (used : List (ℤ × ℤ)) (lo hi : ℤ)
    → Reach io used
    → Bounds lo hi (pos 0, pos 0)
    → All (Bounds lo hi) used
    → Bounds lo hi (io.m_min, io.m_max)
least io used lo hi opened h hs = h
least io used lo hi (after {io = before} op sized reach) h (h', hs) =
    step-Bounds op before lo hi (least before _ lo hi reach h hs) h'

-- After each sequence of operations of sizes that are not negative, the range of the io contains the
-- positions that each of them used, and it lies in every range from `lo` to `hi` that contains these and
-- the position 0.
pub Reach-least :
    (io : NullIo) (used : List (ℤ × ℤ)) (lo hi : ℤ)
    → Reach io used
    → Bounds lo hi (pos 0, pos 0)
    → All (Bounds lo hi) used
    → All (Covers io) used × Bounds lo hi (io.m_min, io.m_max)
Reach-least io used lo hi reach h hs = (contains_used io used reach, least io used lo hi reach h hs)
