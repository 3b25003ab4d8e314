-- ===== src/Routing.antt =====
-- Where a request is sent: route keys and slots.
pub mod Crc
pub mod Limiter
pub mod RouteCache
pub mod Slots
pub mod Topology
