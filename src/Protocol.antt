-- ===== src/Protocol.antt =====
-- The native wire protocol.
pub mod Frame
pub mod Value
pub mod Request
