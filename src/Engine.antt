-- ===== src/Engine.antt =====
-- internal/engine.
pub mod Encode
pub mod Levels
pub mod Material
pub mod Search
