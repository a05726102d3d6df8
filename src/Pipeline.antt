-- ===== src/Pipeline.antt =====
-- internal/queue, internal/batcher, internal/dispatcher and internal/router: from a queued job to its result.
pub mod Router
pub mod Flow
mod Tests
