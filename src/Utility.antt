-- ===== src/Utility.antt =====
-- hyperion/utility.h and hyperion/utility.cc.
pub mod Redop
pub mod Axes
pub mod Order
pub mod Serdez
pub mod Strings
pub mod Dimensions
pub mod Divisor
mod Examples
