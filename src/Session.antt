-- ===== src/Session.antt =====
-- The sessions of a host: src/Session.
pub mod Registry
mod Examples
