-- ===== src/TreePatch/Applying.antt =====
-- rust/src/tree_patch_apply.rs: the target of a tree patch, rebuilt from its source.
pub mod Safety
use difz.Prelude.{
  ℕ, ◌-◌, ◌*◌, ◌^◌, Bool, true, false, not, List, [], ◌∷◌, ◌++◌, map, ltb, ◌==◌, length, get_elem?,
  is_some, if◌then◌else◌, Result, ok, err, ok_or, map_err, ◌>>=◌, ◌>>◌, reject,
}
use difz.Prelude.Bytes.{Bytes, bytes_eq}
use difz.Directory.Paths.{invalid_hardlink_relation}
use difz.Directory.Structure.{find_path, mode_from_bits}
use difz.Directory.Snapshot.{Content, directory, file, symlink, Entry, structure}
use difz.Directory.Canonical
use difz.Directory.Canonical.{CanonicalSnapshot}
use difz.File.Codec.{Native}
use difz.File.Header
use difz.File.Header.{Header}
use difz.File.Patch
use difz.TreePatch.{
  Error, limit_exceeded, out_of_memory, snapshot_error, file_error, source_hash_mismatch,
  target_hash_mismatch, missing_source_entry, source_kind_mismatch, Limits, default_limits,
}
use difz.TreePatch.Decoding
use difz.TreePatch.Decoding.{Operation, DecodedEntry}
use difz.TreePatch.Encoding.{masked}

pub record ApplyLimits : Type 0 where
  pub patch : Limits
  pub max_output_bytes : ℕ

abbrev pub default_apply : ApplyLimits
default_apply = record { patch = default_limits; max_output_bytes = 64 * 2 ^ 30 }

-- An entry that was rebuilt, and whether its bytes are `Cow::Owned`.
pub record Rebuilt : Type 0 where
  pub entry : Entry
  pub owned : Bool

-- `checked_sub`
unfoldable pub account : ℕ → ℕ → Result Error ℕ
account remaining n = if ltb remaining n then err limit_exceeded else ok (remaining - n)

abbrev pub bad_link : Error
bad_link = snapshot_error invalid_hardlink_relation

-- `let Content::File { bytes, .. } = … else { return Err(…) }`
unfoldable pub file_bytes : Error → Content → Result Error Bytes
file_bytes e (directory mode) = err e
file_bytes e (symlink target) = err e
file_bytes e (file mode bytes) = ok bytes

abbrev pub entries_of : List Rebuilt → List Entry
entries_of built = map (λ r. r.entry) built

module _ (native : Native) (reserve : ℕ → Bool) (blake3 : Bytes → Bytes) where
  -- The checks that come before a target over the budget is refused.
  unfoldable pub over_budget : Bytes → Header → Result Error Bytes
  over_budget source header = do
    reject (not (header.source_len == length source)) (file_error Patch.size_mismatch)
    reject (not (bytes_eq header.source_hash (blake3 source)))
        (file_error Patch.source_hash_mismatch)
    window ← map_err file_error (Patch.window_log (length source) header.target_len)
    err limit_exceeded

  unfoldable pub delta : Bytes → Bytes → ℕ → Result Error Bytes
  delta source patch remaining = do
    (header, frame) ← map_err (λ e. file_error (Patch.from_header e)) (Header.decode_prefix patch)
    if ltb remaining header.target_len
        then over_budget source header
        else map_err file_error (Patch.apply native reserve blake3 source patch 0)

  unfoldable pub source_bytes : List Entry → Bytes → Result Error Bytes
  source_bytes source path = do
    index ← ok_or (find_path (map structure source) path) missing_source_entry
    old ← ok_or (get_elem? source index) missing_source_entry
    file_bytes source_kind_mismatch old.content

  -- The link's bytes are a copy if the file's are owned.
  unfoldable pub link_to : List Rebuilt → Bytes → Result Error (Bytes × Bool)
  link_to built path = do
    index ← ok_or (find_path (map structure (entries_of built)) path) bad_link
    target ← ok_or (get_elem? built index) bad_link
    reject (is_some target.entry.metadata.metadata.hardlink_to) bad_link
    bytes ← file_bytes bad_link target.entry.content
    ok (bytes, target.owned)

  -- The content of one entry, whether it is owned, and what remains of the budget.
  unfoldable pub rebuild :
      List Entry → List Rebuilt → ℕ → DecodedEntry → ℕ → Result Error (Content × Bool × ℕ)
  rebuild source built remaining e mode = elim e.operation [
    | Operation.directory ↦ ok (directory mode, false, remaining)
    | Operation.symlink ↦ do
      left ← account remaining (length e.payload)
      ok (symlink e.payload, false, left)
    | Operation.file_raw ↦ do
      left ← account remaining (length e.payload)
      ok (file mode e.payload, false, left)
    | Operation.file_copy ↦ do
      bytes ← source_bytes source e.path
      left ← account remaining (length bytes)
      ok (file mode bytes, false, left)
    | Operation.file_delta ↦ do
      old ← source_bytes source e.path
      bytes ← delta old e.payload remaining
      left ← account remaining (length bytes)
      ok (file mode bytes, true, left)
    | Operation.file_hardlink ↦ do
      (bytes, owned) ← link_to built e.payload
      left ← account remaining (length bytes)
      if owned then reject (not (reserve (length bytes))) out_of_memory else ok tt
      ok (file mode bytes, owned, left)
  ]

  -- The loop over the entries of the patch.
  unfoldable pub rebuild_all :
      List Entry → List Rebuilt → ℕ → List DecodedEntry → Result Error (List Rebuilt)
  rebuild_all source built remaining [] = ok built
  rebuild_all source built remaining (e ∷ entries) = do
    mode ← map_err snapshot_error (mode_from_bits e.mode)
    (content, owned, left) ← rebuild source built remaining e mode
    let entry : Entry = record { path = e.path; content = content; metadata = e.metadata }
    rebuild_all source (built ++ record { entry = entry; owned = owned } ∷ []) left entries

  unfoldable pub apply : CanonicalSnapshot → Bytes → ApplyLimits → Result Error CanonicalSnapshot
  apply source patch limits = do
    parsed ← Decoding.decode reserve blake3 patch limits.patch
    compared ← masked native reserve blake3 source parsed.header.omit
    reject (not (bytes_eq (Canonical.hash blake3 compared) parsed.header.source_hash))
        source_hash_mismatch
    reject (not (reserve (length parsed.entries))) out_of_memory
    built ← rebuild_all source.snapshot.entries [] limits.max_output_bytes parsed.entries
    result ←
        map_err snapshot_error
          (Canonical.new (record { entries = entries_of built; root = parsed.root }))
    reject (not (bytes_eq (Canonical.hash blake3 result) parsed.header.target_hash))
        target_hash_mismatch
    ok result
