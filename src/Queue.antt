-- ===== src/Queue.antt =====
-- The queues of the samples: tasks, timers, and the threads that serve both.
pub mod Tasks
pub mod Timers
pub mod Threads
pub mod TaskThread
