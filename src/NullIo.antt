-- ===== src/NullIo.antt =====
-- hyperion/NullIO.cc: an output of casacore that keeps no bytes, only the position and the range of
-- positions that it was used for. Int64 values are integers: the code counts on their not overflowing.
pub mod Range
pub mod Least
mod Examples
use legms.Prelude.{ℕ, List, [], ◌∷◌, Bool, true, false}
use legms.Prelude.Int.{ℤ, pos, ◌+ℤ◌, ◌-ℤ◌, min_ℤ, max_ℤ}

pub record NullIo : Type 0 where
  pub m_position : ℤ
  pub m_min : ℤ
  pub m_max : ℤ

abbrev pub null_io : NullIo
null_io = record { m_position = pos 0; m_min = pos 0; m_max = pos 0 }

-- ByteIO::SeekOption, and any other value of its type.
pub data SeekOption : Type 0 where
  begin_option current_option end_option other_option : SeekOption

unfoldable pub update_range : ℤ → ℤ → NullIo → NullIo
unfolding ◌+ℤ◌
update_range offset size io = record io {
  m_min = min_ℤ offset io.m_min;
  m_max = max_ℤ (offset +ℤ size) io.m_max;
}

unfoldable pub write : ℤ → NullIo → NullIo
unfolding update_range ◌+ℤ◌
write size io = record (update_range io.m_position size io) { m_position = io.m_position +ℤ size }

unfoldable pub pwrite : ℤ → ℤ → NullIo → NullIo
unfolding update_range
pwrite size offset io = update_range offset size io

-- read and pread return 0 beside the new state.
unfoldable pub read : ℤ → NullIo → ℤ × NullIo
unfolding update_range ◌+ℤ◌
read size io =
    (pos 0, record (update_range io.m_position size io) { m_position = io.m_position +ℤ size })

unfoldable pub pread : ℤ → ℤ → NullIo → ℤ × NullIo
unfolding update_range
pread size offset io = (pos 0, update_range offset size io)

unfoldable pub io_length : NullIo → ℤ
unfolding ◌-ℤ◌
io_length io = io.m_max -ℤ io.m_min

-- The offset after the switch of doSeek.
unfoldable pub target : ℤ → SeekOption → NullIo → ℤ
unfolding ◌+ℤ◌
target offset begin_option io = offset +ℤ io.m_min
target offset current_option io = offset +ℤ io.m_position
target offset end_option io = offset +ℤ io.m_max
target offset other_option io = offset

unfoldable pub do_seek : ℤ → SeekOption → NullIo → ℤ × NullIo
unfolding target update_range
do_seek offset option io = (
  target offset option io,
  record (update_range (target offset option io) (pos 0) io) {
    m_position = target offset option io;
  },
)

abbrev pub is_readable : Bool
is_readable = false

abbrev pub is_writable : Bool
is_writable = true

abbrev pub is_seekable : Bool
is_seekable = true
