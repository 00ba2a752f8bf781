-- ===== src/TreePatch/Encoding.antt =====
-- rust/src/tree_patch_encode.rs: a patch that makes one canonical snapshot from another.
pub mod Layout
pub mod Outcome
pub mod Projection
pub mod Choice
pub mod Selection
use mathlib.Core.Option
use difz.Prelude.{
  ℕ, ◌%◌, ◌^◌, Bool, true, false, not, List, [], ◌∷◌, ◌++◌, map, Option, none, some, ltb, leb, ◌==◌,
  length, drop, get_elem?, is_empty, replicate, if◌then◌else◌, Result, ok, ok_or, map_err, ◌>>=◌,
  ◌>>◌, reject,
}
use difz.Prelude.Bytes.{Bytes, bytes_eq, to_le}
use difz.Prelude.Cursor.{checked_add}
use difz.Prelude.Utf8.Encoding.{as_bytes}
use difz.Metadata.Omit.{Omit}
use difz.Metadata.Records.{metadata_is_empty}
use difz.Metadata.Validation.{CanonicalMetadata}
use difz.Metadata.Encoding
use difz.Metadata.Borrowing.{borrowing_omitting}
use difz.Directory.Structure.{find_path}
use difz.Directory.Snapshot.{Content, directory, file, symlink, Entry, structure, mode_of}
use difz.Directory.Canonical
use difz.Directory.Canonical.{CanonicalSnapshot}
use difz.PathFilter.Compile.{Action, include, exclude, Rule, compile_filter}
use difz.File.Codec.{Native}
use difz.File.Patch
use difz.TreePatch.{
  Error, limit_exceeded, out_of_memory, metadata_error, snapshot_error, filter_error, file_error,
  default_limits, default_envelope,
}
use difz.TreePatch.Header
use difz.TreePatch.Header.{Header, header_len}
use difz.TreePatch.Decoding.{Operation, operation_tag}

pub record CreateOptions : Type 0 where
  pub rules : List Rule
  pub omit : Omit

unfoldable pub action_tag : Action → ℕ
action_tag include = 1
action_tag exclude = 2

-- The old content at a path of the source.
unfoldable pub content_at : List Entry → Bytes → Option Content
content_at entries path = elim (find_path (map structure entries) path) [
  | none ↦ none
  | some i ↦ Option.map (λ e. e.content) (get_elem? entries i)
]

module _ (native : Native) (reserve : ℕ → Bool) (blake3 : Bytes → Bytes) where
  unfoldable pub project_entries : List Entry → Omit → Result Error (List Entry)
  project_entries [] omit = ok []
  project_entries (e ∷ entries) omit = do
    metadata ← map_err metadata_error (borrowing_omitting reserve e.metadata omit)
    rest ← project_entries entries omit
    ok (record e { metadata = metadata } ∷ rest)

  unfoldable pub project : CanonicalSnapshot → Omit → Result Error CanonicalSnapshot
  project source omit = do
    reject (not (reserve (length source.snapshot.entries))) out_of_memory
    entries ← project_entries source.snapshot.entries omit
    root ← map_err metadata_error (borrowing_omitting reserve source.snapshot.root omit)
    map_err snapshot_error (Canonical.new (record { entries = entries; root = root }))

  -- The snapshot that is compared: without the omitted families, if there are any.
  unfoldable pub masked : CanonicalSnapshot → Omit → Result Error CanonicalSnapshot
  masked source omit = if omit.bits == 0 then ok source else project source omit

  -- `Writer::put`: the bytes so far, and those behind them.
  unfoldable pub put : ℕ → Bytes → Bytes → Result Error Bytes
  put maximum output bytes = do
    size ← ok_or (checked_add (length output) (length bytes)) limit_exceeded
    reject (ltb maximum size) limit_exceeded
    reject (not (reserve (length bytes))) out_of_memory
    ok (output ++ bytes)

  -- `Writer::metadata`
  unfoldable pub put_record : ℕ → Bytes → CanonicalMetadata → ℕ → Result Error Bytes
  put_record maximum output m largest = do
    bytes ← map_err metadata_error (Encoding.encode reserve m)
    reject (ltb largest (length bytes)) limit_exceeded
    reject (leb (2 ^ 32) (length bytes)) limit_exceeded
    sized ← put maximum output (to_le 4 (length bytes))
    put maximum sized bytes

  -- `put`s in a row.
  unfoldable pub put_each : ℕ → Bytes → List Bytes → Result Error Bytes
  put_each maximum output [] = ok output
  put_each maximum output (bytes ∷ rest) = do
    next ← put maximum output bytes
    put_each maximum next rest

  unfoldable pub put_rules : ℕ → ℕ → Bytes → List Rule → Result Error Bytes
  put_rules maximum longest output [] = ok output
  put_rules maximum longest output (r ∷ rules) = do
    let pattern = as_bytes r.pattern
    reject (is_empty pattern) limit_exceeded
    reject (ltb longest (length pattern)) limit_exceeded
    next ←
        put_each maximum output
          ((action_tag r.action ∷ 0 ∷ 0 ∷ 0 ∷ []) ∷ to_le 4 (length pattern) ∷ pattern ∷ [])
    put_rules maximum longest next rules

  -- A file that is no link: copied, patched or written out, by what the source has at its path.
  unfoldable pub choose_file : Option Content → Bytes → Result Error (Operation × Bytes)
  choose_file none bytes = ok (Operation.file_raw, bytes)
  choose_file (some (directory mode)) bytes = ok (Operation.file_raw, bytes)
  choose_file (some (symlink target)) bytes = ok (Operation.file_raw, bytes)
  choose_file (some (file mode previous)) bytes =
      if bytes_eq previous bytes
      then ok (Operation.file_copy, [])
      else map_err file_error (Patch.encode native reserve blake3 previous bytes) >>= λ delta.
          ok (Operation.file_delta, delta)

  unfoldable pub choose_linked :
      Option Bytes → Option Content → Bytes → Result Error (Operation × Bytes)
  choose_linked (some link) old bytes = ok (Operation.file_hardlink, link)
  choose_linked none old bytes = choose_file old bytes

  unfoldable pub choose : ℕ → List Entry → Entry → Result Error (Operation × Bytes)
  choose max_symlink_bytes source e = elim e.content [
    | directory mode ↦ ok (Operation.directory, [])
    | symlink target ↦
        reject (ltb max_symlink_bytes (length target)) limit_exceeded
        >> ok (Operation.symlink, target)
    | file mode bytes ↦
        choose_linked e.metadata.metadata.hardlink_to (content_at source e.path) bytes
  ]

  unfoldable pub put_entry : ℕ → List Entry → Bytes → Entry → Result Error Bytes
  put_entry maximum source output e = do
    (operation, payload) ← choose default_limits.max_symlink_bytes source e
    reject (ltb default_limits.max_payload_bytes (length payload)) limit_exceeded
    next ← put_each maximum output (
        (operation_tag operation ∷ 0 ∷ [])
        ∷ to_le 2 (mode_of e.content)
        ∷ to_le 4 (length e.path)
        ∷ to_le 8 (length payload)
        ∷ e.path
        ∷ payload
        ∷ [])
    put_record maximum next e.metadata default_limits.max_payload_bytes

  unfoldable pub put_entries : ℕ → List Entry → Bytes → List Entry → Result Error Bytes
  put_entries maximum source output [] = ok output
  put_entries maximum source output (e ∷ entries) = do
    next ← put_entry maximum source output e
    put_entries maximum source next entries

  unfoldable pub put_root : Bool → ℕ → Bytes → CanonicalMetadata → Result Error Bytes
  put_root false maximum output root = ok output
  put_root true maximum output root =
      put_record maximum output root default_limits.max_payload_bytes

  unfoldable pub header_for : CanonicalSnapshot → CanonicalSnapshot → CreateOptions → Header
  header_for source target options = record {
    needed_reader = 2;
    root_metadata = not (metadata_is_empty target.snapshot.root.metadata);
    omit = options.omit;
    rule_count = length options.rules % 2 ^ 32;
    entry_count = length target.snapshot.entries % 2 ^ 32;
    source_hash = Canonical.hash blake3 source;
    target_hash = Canonical.hash blake3 target;
  }

  -- The patch of the snapshots that are compared.
  unfoldable pub create_masked :
      CanonicalSnapshot → CanonicalSnapshot → CreateOptions → Result Error Bytes
  create_masked source target options = do
    reject (ltb default_envelope.max_rules (length options.rules)) limit_exceeded
    filter ← map_err filter_error (compile_filter options.rules)
    let header = header_for source target options
    let maximum = default_envelope.max_patch_bytes
    start ← put maximum [] (replicate header_len 0)
    ruled ← put_rules maximum default_limits.max_pattern_bytes start options.rules
    filled ← put_entries maximum source.snapshot.entries ruled target.snapshot.entries
    output ← put_root header.root_metadata maximum filled target.snapshot.root
    ok (Header.encode blake3 header (drop header_len output) ++ drop header_len output)

  unfoldable pub create : CanonicalSnapshot → CanonicalSnapshot → CreateOptions → Result Error Bytes
  create source target options = do
    masked_source ← masked source options.omit
    masked_target ← masked target options.omit
    create_masked masked_source masked_target options
