-- ===== src/Types.antt =====
-- The shared wire and domain types of types/.
pub mod Model
