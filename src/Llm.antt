-- ===== src/Llm.antt =====
-- The clients of language models (pkg/llm).

pub mod Errors
pub mod RetryProvider
pub mod Chain
