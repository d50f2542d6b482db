-- ===== src/Net.antt =====
-- What the transports share: src/Net.
pub mod SendBudget
pub mod SendQueue
mod Examples
