-- ===== src/Partition.antt =====
-- hyperion/ColumnSpacePartition.cc: partitions of column spaces along axes.
pub mod Restriction
pub mod Create
pub mod Order
pub mod Single
pub mod Outside
pub mod Blocks
pub mod Pieces
mod Examples
