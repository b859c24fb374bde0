-- ===== src/Authority.antt =====
-- authority/: the authority data model and its structural validation.
pub mod Model
pub mod Validate
pub mod Canonical
mod Tests
