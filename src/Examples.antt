-- ===== src/Examples.antt =====
-- Runs of the program's parts at concrete inputs, one module per part.
pub mod Inputs
pub mod File
pub mod Metadata
pub mod Directory
pub mod PathFilter
pub mod TreePatch
pub mod SymlinkTransport
