-- ===== src/NullIo/Range.antt =====
-- Sequences of operations, and the range of positions after them.
use legms.Prelude.{◌≡◌, refl, List, [], ◌∷◌, ◌⊎◌, inl, inr, arith}
use legms.Prelude.Int.{ℤ, pos, ◌+ℤ◌, ◌≤ℤ◌, +ℤ_parts, -ℤ_parts, min_ℤ, max_ℤ}
use legms.NullIo.{
  NullIo, null_io, SeekOption, update_range, write, pwrite, read, pread, io_length, target, do_seek,
}

pub data Op : Type 0 where
  writes : ℤ → Op
  pwrites : ℤ → ℤ → Op
  reads : ℤ → Op
  preads : ℤ → ℤ → Op
  seeks : ℤ → SeekOption → Op

unfoldable pub step : Op → NullIo → NullIo
unfolding write pwrite read pread do_seek
step (writes size) io = write size io
step (pwrites size offset) io = pwrite size offset io
step (reads size) io = (read size io).1
step (preads size offset) io = (pread size offset io).1
step (seeks offset option) io = (do_seek offset option io).1

-- The first position that an operation uses, and the one behind its last.
unfoldable pub extent : Op → NullIo → ℤ × ℤ
unfolding target ◌+ℤ◌
extent (writes size) io = (io.m_position, io.m_position +ℤ size)
extent (pwrites size offset) io = (offset, offset +ℤ size)
extent (reads size) io = (io.m_position, io.m_position +ℤ size)
extent (preads size offset) io = (offset, offset +ℤ size)
extent (seeks offset option) io = (target offset option io, target offset option io)

-- The sizes of operations are not negative.
abbrev pub IsSized : Op → Type 0
IsSized (writes size) = pos 0 ≤ℤ size
IsSized (pwrites size offset) = pos 0 ≤ℤ size
IsSized (reads size) = pos 0 ≤ℤ size
IsSized (preads size offset) = pos 0 ≤ℤ size
IsSized (seeks offset option) = Unit

abbrev pub WellFormed : NullIo → Type 0
WellFormed io =
    (io.m_min ≤ℤ pos 0)
    × (pos 0 ≤ℤ io.m_max)
    × (io.m_min ≤ℤ io.m_position)
    × (io.m_position ≤ℤ io.m_max)

-- The states after a sequence of operations, with all that the operations used, the last one first.
pub data Reach : NullIo → List (ℤ × ℤ) → Type 0 where
  opened : Reach null_io []
  after :
      {io : NullIo} {used : List (ℤ × ℤ)} (op : Op)
      → IsSized op
      → Reach io used
      → Reach (step op io) (extent op io ∷ used)

min_ℤ_first : (a b : ℤ) → min_ℤ a b ≤ℤ a
min_ℤ_first a b = ground arith

min_ℤ_second : (a b : ℤ) → min_ℤ a b ≤ℤ b
min_ℤ_second a b = ground arith

max_ℤ_first : (a b : ℤ) → a ≤ℤ max_ℤ a b
max_ℤ_first a b = ground arith

max_ℤ_second : (a b : ℤ) → b ≤ℤ max_ℤ a b
max_ℤ_second a b = ground arith

pub ≤ℤ_trans : (a b c : ℤ) → a ≤ℤ b → b ≤ℤ c → a ≤ℤ c
≤ℤ_trans a b c h h' = omega arith

le_add : (a b : ℤ) → pos 0 ≤ℤ b → a ≤ℤ a +ℤ b
le_add a b h = omega (arith, +ℤ_parts a b)

-- The range from one position to another lies in the io's.
abbrev pub Covers : NullIo → ℤ × ℤ → Type 0
Covers io (start, end) = (io.m_min ≤ℤ start) × (end ≤ℤ io.m_max)

-- One range lies in another.
abbrev pub Wider : NullIo → NullIo → Type 0
Wider io io' = (io'.m_min ≤ℤ io.m_min) × (io.m_max ≤ℤ io'.m_max)

update_range-Wider : (offset size : ℤ) (io : NullIo) → Wider io (update_range offset size io)
unfolding update_range
update_range-Wider offset size io =
    (min_ℤ_second offset io.m_min, max_ℤ_second (offset +ℤ size) io.m_max)

update_range-Covers :
    (offset size : ℤ) (io : NullIo) → Covers (update_range offset size io) (offset, offset +ℤ size)
unfolding update_range
update_range-Covers offset size io =
    (min_ℤ_first offset io.m_min, max_ℤ_first (offset +ℤ size) io.m_max)

pub step-Wider : (op : Op) (io : NullIo) → Wider io (step op io)
unfolding step write pwrite read pread do_seek
step-Wider (writes size) io = update_range-Wider io.m_position size io
step-Wider (pwrites size offset) io = update_range-Wider offset size io
step-Wider (reads size) io = update_range-Wider io.m_position size io
step-Wider (preads size offset) io = update_range-Wider offset size io
step-Wider (seeks offset option) io = update_range-Wider (target offset option io) (pos 0) io

seek-Covers : (t : ℤ) (io : NullIo) → Covers (update_range t (pos 0) io) (t, t)
seek-Covers t io =
    let (low, high) = update_range-Covers t (pos 0) io in
    (low, ≤ℤ_trans t (t +ℤ pos 0) _ (le_add t (pos 0) (omega arith)) high)

pub step-Covers : (op : Op) (io : NullIo) → Covers (step op io) (extent op io)
unfolding step write pwrite read pread do_seek extent
step-Covers (writes size) io = update_range-Covers io.m_position size io
step-Covers (pwrites size offset) io = update_range-Covers offset size io
step-Covers (reads size) io = update_range-Covers io.m_position size io
step-Covers (preads size offset) io = update_range-Covers offset size io
step-Covers (seeks offset option) io = seek-Covers (target offset option io) io

-- The position after a step lies in the range of the operation, or it is the one before.
step-position :
    (op : Op) (io : NullIo)
    → IsSized op
    → (((extent op io).0 ≤ℤ (step op io).m_position)
        × ((step op io).m_position ≤ℤ (extent op io).1))
      ⊎ ((step op io).m_position ≡ io.m_position)
unfolding step write pwrite read pread do_seek extent update_range
step-position (writes size) io s = inl (le_add io.m_position size s, omega arith)
step-position (pwrites size offset) io s = inr refl
step-position (reads size) io s = inl (le_add io.m_position size s, omega arith)
step-position (preads size offset) io s = inr refl
step-position (seeks offset option) io s = inl (omega arith, omega arith)

step-WellFormed : (op : Op) (io : NullIo) → IsSized op → WellFormed io → WellFormed (step op io)
step-WellFormed op io s (a, b, c, d) =
    let (low, high) = step-Wider op io in
    let (first, last) = step-Covers op io in
    elim (step-position op io s) [
      | inl (from, to) ↦ (omega arith, omega arith, omega arith, omega arith)
      | inr e ↦ (omega arith, omega arith, rw e (omega arith), rw e (omega arith))
    ]

-- After each sequence of operations of sizes that are not negative, the range contains the position at
-- which the io was opened and the current position.
pub Reach-WellFormed : (io : NullIo) (used : List (ℤ × ℤ)) → Reach io used → WellFormed io
Reach-WellFormed io used opened = (omega arith, omega arith, omega arith, omega arith)
Reach-WellFormed io used (after {io = before} op sized reach) =
    step-WellFormed op before sized (Reach-WellFormed before _ reach)

-- The length is then not negative, and no seek, write or read makes it smaller.
pub io_length_grows :
    (io : NullIo) (used : List (ℤ × ℤ)) (op : Op)
    → Reach io used
    → (pos 0 ≤ℤ io_length io) × (io_length io ≤ℤ io_length (step op io))
unfolding io_length
io_length_grows io used op reach =
    let (a, b, c, d) = Reach-WellFormed io used reach in
    let (low, high) = step-Wider op io in
    let parts = -ℤ_parts io.m_max io.m_min in
    let parts' = -ℤ_parts (step op io).m_max (step op io).m_min in (omega arith, omega arith)
