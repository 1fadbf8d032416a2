-- ===== src/Attributes.antt =====
-- internal/scout/attributes.go: what a stream's title, and then its file, says of it.
pub mod Patterns
pub mod Detect
pub mod Probed
