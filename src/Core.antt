-- ===== src/Core.antt =====
-- The foundation layer: src/Core and include/ServerCore/Core.
pub mod Error
pub mod Completion
pub mod ByteBuffer
pub mod Utf8
pub mod Endpoint
mod EndpointExamples
pub mod Network
mod Examples
