-- ===== src/File.antt =====
-- rust/src/lib.rs and rust/src/file.rs: single-file patches, a ZDIF header and one codec frame.
pub mod Header
pub mod Codec
pub mod Patch
