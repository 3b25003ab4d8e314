-- ===== src/Native.antt =====
-- The native connection: what stands between a socket's bytes and the requests that wait.
pub mod ChunkAssembler
pub mod FlowControl
pub mod ReceiveBuffer
pub mod WriteQueue
