-- ===== src/Fetcher.antt =====
-- internal/processor/fetcher: the crawler errors, the retry loop, and the worker that turns a crawl
-- message into content, a retry or a dead letter.
pub mod Errors
pub mod Retry
pub mod Worker
