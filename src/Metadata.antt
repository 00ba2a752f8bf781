-- ===== src/Metadata.antt =====
-- rust/src/metadata.rs and the files that it includes: portable metadata records.
pub mod Kinds
pub mod Family
pub mod Omit
pub mod Names
pub mod Time
pub mod Records
pub mod Validation
pub mod Encoding
pub mod Decoding
pub mod Normalization
pub mod AttributeName
pub mod Borrowing
pub mod Restore
