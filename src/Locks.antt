-- ===== src/Locks.antt =====
-- The locks of the stages (internal/locks).

pub mod StageGate
pub mod ProcessingLock
pub mod Marker
