-- ===== src/TreeSpace.antt =====
-- hyperion/tree_index_space.cc: the index space of a tree.
pub mod Task
pub mod Rects
pub mod Ranks
pub mod Leaves
pub mod Space
mod Examples
