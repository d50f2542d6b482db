-- ===== src/Web.antt =====
-- The HTTP layer: src/Web.
pub mod RoutePattern
pub mod RequestData
pub mod Cookies
mod Policy
mod Forwarded
mod ResponseEncoding
mod TrustedProxy
mod Examples
mod DataExamples
mod ProxyExamples
