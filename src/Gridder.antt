-- ===== src/Gridder.antt =====
-- hyperion/gridder: the arguments of the gridder, from files and the command line to values.
pub mod Args
pub mod Config
pub mod Fields
pub mod Checked
pub mod Tokens
pub mod Nodes
pub mod Command
pub mod Validate
pub mod Startup
mod Examples
