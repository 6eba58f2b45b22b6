-- ===== src/Scheduler.antt =====
-- The scheduler and its buffer (internal/scheduler).

pub mod BufferDrainer
