-- ===== src/Protocol.antt =====
-- The protocol layer: src/Protocol and include/ServerCore/Protocol.
pub mod FrameCodec
pub mod Framing
pub mod BinaryIo
pub mod BinaryMessage
pub mod DatagramCodec
mod Examples
mod PacketExamples
