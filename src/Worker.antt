-- ===== src/Worker.antt =====
-- The workers of a queue.
pub mod PendingCompletions
pub mod LeaseGuard
