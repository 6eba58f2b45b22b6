-- ===== src/Enrich.antt =====
-- The enrichment worker (internal/processor/enrich/worker).

pub mod CostGuard
