-- ===== src/Pipeline.antt =====
-- internal/pipeline: the life of an upload, from its buffer to verified storage and rotation.
pub mod Process
pub mod Readers
pub mod Types
pub mod Upload
