-- ===== src/Runtime.antt =====
-- The parts of src/Runtime and include/ServerCore/Runtime.
pub mod Channel
pub mod LatestValue
pub mod Ticks
mod Examples
