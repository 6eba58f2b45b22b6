-- ===== src/Bus.antt =====
-- The message bus (internal/bus).

pub mod SeenCache
pub mod Messages
pub mod Chain
pub mod Resolver
pub mod ScoreResolver
pub mod RetryScheduler
