-- ===== src/Reader.antt =====
-- internal/reader: the readers that storage consumes.
pub mod Assembled
