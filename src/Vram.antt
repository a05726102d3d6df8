-- ===== src/Vram.antt =====
-- internal/backend/vram: the VRAM-aware tiered backend.
pub mod Layers
pub mod Backend
pub mod Eviction
mod Tests
