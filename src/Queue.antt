-- ===== src/Queue.antt =====
-- internal/queue: the task queue.
pub mod Tasks
pub mod Redis
pub mod Handler
