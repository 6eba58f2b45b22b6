-- ===== src/Queue.antt =====
-- The queues between the stages (pkg/queue).

pub mod PriorityZset
