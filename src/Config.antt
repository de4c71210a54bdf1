-- ===== src/Config.antt =====
-- internal/config: the global and project configuration, its layers and its validation.
pub mod Types
pub mod Layers
pub mod Names
pub mod Validate
