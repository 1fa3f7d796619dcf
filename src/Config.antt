-- ===== src/Config.antt =====
-- internal/config: the configuration, its defaults, its validation and the choice of a key's entry.
pub mod Tests
pub mod Types
pub mod Keys
pub mod Validate
