-- ===== src/Protocol.antt =====
-- src/protocol: the message types, the JSON envelope and the binary frame.
pub mod Messages
pub mod Envelope
pub mod Binary
