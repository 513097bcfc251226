-- ===== src/Partition/Examples.antt =====
-- The theorems about partitions, at a column space of two axes.
use legms.Prelude.{ℕ, ◌/◌, ◌≤◌, ◌≡◌, ◌↔◌, refl, [], ◌∷◌, some, throws, ok, codes, arith}
use legms.Prelude.Int.{pos}
use legms.Utility.Dimensions.{find_dimension}
use legms.Partition.Restriction.{AxisPartition, Restriction, disjoint_complete}
use legms.Partition.Create.{ColumnSpace, create, create_blocks}
use legms.Partition.Pieces.{InPiece, space_of, create_blocks-InPiece}
use legms.Partition.Outside.{create-throws}

-- Rows 0 to 99 and channels 0 to 15; the axes have the numbers 3 and 7.
abbrev space : ColumnSpace
space = space_of (codes "MS") 3 (7 ∷ []) 99 ((pos 0, pos 15) ∷ [])

abbrev channels : AxisPartition ℕ
channels = record {
  axes_uid = codes "MS";
  dim = 7;
  stride = pos 4;
  offset = pos 0;
  extent = (pos 0, pos 3);
  limits = (pos 0, pos 15);
}

second_place : find_dimension 7 0 space.axes ≡ some 1
unfolding find_dimension
second_place = refl

create-throws_example : create 3 space (channels ∷ []) ≡ throws
create-throws_example =
    create-throws 3 space channels 1 refl second_place (omega arith) (omega arith) (omega arith)
      (omega arith)

create_blocks-InPiece_example :
    (r : Restriction) × (create_blocks 3 space (codes "MS") ((3, pos 8) ∷ []) ≡ ok (some r))
    × (r.kind ≡ disjoint_complete)
    × (r.color_highs ≡ pos (99 / 8) ∷ [])
    × (42 / 8 ≤ 99 / 8)
    × (InPiece r 5 42 ↔ (5 ≡ 42 / 8))
create_blocks-InPiece_example =
    create_blocks-InPiece 3 (codes "MS") 3 (7 ∷ []) 8 99 ((pos 0, pos 15) ∷ []) 5 42 (omega arith)
      (omega arith) (omega arith)
