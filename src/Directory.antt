-- ===== src/Directory.antt =====
-- rust/src/directory.rs and its parts: the snapshots of directory trees.
pub mod Paths
pub mod Structure
pub mod Snapshot
pub mod Canonical
