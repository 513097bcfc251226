-- ===== src/IndexTree.antt =====
-- hyperion/IndexTree.h: trees of index blocks.
pub mod Tree
pub mod Compact
pub mod Shape
pub mod Grow
pub mod Pattern
pub mod Merge
pub mod Serial
pub mod Iterator
mod Examples
