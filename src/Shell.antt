-- ===== src/Shell.antt =====
-- The terminal proxy of internal/shell: what it does to the bytes of the two directions.
pub mod Marker
pub mod Paste
pub mod Predictor
pub mod Notice
pub mod Controller
