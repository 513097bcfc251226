-- ===== src/NullIo/Examples.antt =====
-- The theorems about the range, after a write of five bytes, a seek to -7 and a read of two bytes.
use legms.Prelude.{List, [], ◌∷◌, All, arith}
use legms.Prelude.Int.{ℤ, pos, negsuc}
use legms.NullIo.{NullIo, null_io, begin_option}
use legms.NullIo.Range.{
  writes, reads, seeks, step, extent, Reach, opened, after, Covers, WellFormed, Reach-WellFormed,
}
use legms.NullIo.Least.{Bounds, Reach-least}

abbrev written : NullIo
written = step (writes (pos 5)) null_io

abbrev moved : NullIo
moved = step (seeks (negsuc 6) begin_option) written

abbrev final : NullIo
final = step (reads (pos 2)) moved

abbrev used : List (ℤ × ℤ)
used =
    extent (reads (pos 2)) moved
    ∷ extent (seeks (negsuc 6) begin_option) written
    ∷ extent (writes (pos 5)) null_io
    ∷ []

reached : Reach final used
reached =
    after (reads (pos 2)) (omega arith)
      (after (seeks (negsuc 6) begin_option) tt (after (writes (pos 5)) (omega arith) opened))

Reach-WellFormed_example : WellFormed final
Reach-WellFormed_example = Reach-WellFormed final used reached

used-Bounds : All (Bounds (negsuc 9) (pos 8)) used
unfolding extent step
used-Bounds =
    ((omega arith, omega arith), ((omega arith, omega arith), ((omega arith, omega arith), tt)))

Reach-least_example : All (Covers final) used × Bounds (negsuc 9) (pos 8) (final.m_min, final.m_max)
Reach-least_example =
    Reach-least final used (negsuc 9) (pos 8) reached (omega arith, omega arith) used-Bounds
