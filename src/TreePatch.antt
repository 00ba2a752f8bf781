-- ===== src/TreePatch.antt =====
-- rust/src/tree_patch.rs and its parts: the errors and the limits of patches between directory trees.
pub mod Header
pub mod Decoding
pub mod Encoding
pub mod Applying
pub mod RoundTrip
use difz.Prelude.{ℕ, ◌*◌, ◌^◌}
use difz.Metadata.Kinds
use difz.Directory.Paths
use difz.PathFilter.Compile
use difz.File.Patch

pub data Error : Type 0 where
  limit_exceeded unexpected_end_of_input invalid_magic unsupported_version : Error
  patch_hash_mismatch reader_too_old unsupported_flags invalid_rule invalid_operation : Error
  invalid_path invalid_payload omitted_metadata_present trailing_data out_of_memory : Error
  metadata_error : Kinds.Error → Error
  snapshot_error : Paths.Error → Error
  filter_error : Compile.Error → Error
  file_error : Patch.Error → Error
  source_hash_mismatch target_hash_mismatch missing_source_entry source_kind_mismatch : Error

pub record EnvelopeLimits : Type 0 where
  pub max_patch_bytes : ℕ
  pub max_entries : ℕ
  pub max_rules : ℕ

abbrev pub default_envelope : EnvelopeLimits
default_envelope = record {
  max_patch_bytes = 16 * 2 ^ 30;
  max_entries = 1_000_000;
  max_rules = 4096;
}

pub record Limits : Type 0 where
  pub envelope : EnvelopeLimits
  pub max_path_bytes : ℕ
  pub max_pattern_bytes : ℕ
  pub max_symlink_bytes : ℕ
  pub max_payload_bytes : ℕ

abbrev pub default_limits : Limits
default_limits = record {
  envelope = default_envelope;
  max_path_bytes = 4096;
  max_pattern_bytes = 4096;
  max_symlink_bytes = 65_536;
  max_payload_bytes = 8 * 2 ^ 30;
}
