-- ===== src/MeasRef.antt =====
-- hyperion/MeasRef.cc and hyperion/MeasRef.h: measure references, which are stored in two regions, one
-- of metadata and one of values, with a point for each measure on which the reference depends.
pub mod Measure
pub mod Regions
pub mod Points
pub mod Initialize
pub mod Instantiate
pub mod Extend
pub mod Trees
pub mod Entries
pub mod RoundTrip
pub mod Equiv
pub mod Create
mod Examples
