-- ===== src/PathFilter.antt =====
-- rust/src/path_filter.rs: ordered path globs and the two-row dynamic program that matches them.
pub mod Compile
pub mod Matching
