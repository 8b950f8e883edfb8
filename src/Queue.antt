-- ===== src/Queue.antt =====
-- The queues that batch writes to the databases (src/queue).
pub mod Download
pub mod Auth
