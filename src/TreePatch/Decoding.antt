-- ===== src/TreePatch/Decoding.antt =====
-- rust/src/tree_patch_decode.rs: the checked decoder of a tree patch's rules, entries and root record.
pub mod Reading
use difz.Prelude.{
  ℕ, Bool, true, false, not, ◌&&◌, ◌||◌, List, [], ◌∷◌, map, Option, none, some, any, ltb, ◌==◌,
  length, is_empty, is_some, if◌then◌else◌, Result, ok, err, ok_or, map_err, reject,
}
use difz.Prelude.Bytes.{Bytes, bytes_eq}
use difz.Prelude.Cursor
use difz.Prelude.Cursor.{Cursor, Reader, pure, lift, ◌>>=◌, ◌>>◌, repeat}
use difz.Prelude.Utf8.{chars}
use difz.Metadata.Kinds.{bad_metadata}
use difz.Metadata.Family
use difz.Metadata.Family.{Family, xattr, acl, timestamps, finder, sparse, hardlink}
use difz.Metadata.Omit
use difz.Metadata.Omit.{Omit}
use difz.Metadata.Records.{Metadata, no_metadata, metadata_is_empty}
use difz.Metadata.Validation.{CanonicalMetadata}
use difz.Metadata.Decoding
use difz.Directory.Paths.{invalid_utf8, invalid_sparse_extent, invalid_hardlink_relation}
use difz.Directory.Structure
use difz.PathFilter.Compile.{Action, include, exclude, Rule, compile_filter}
use difz.TreePatch.{
  Error, limit_exceeded, unexpected_end_of_input, unsupported_flags, invalid_rule,
  invalid_operation, invalid_path, invalid_payload, omitted_metadata_present, trailing_data,
  out_of_memory, metadata_error, snapshot_error, filter_error, Limits,
}
use difz.TreePatch.Header.{Header, decode_prefix}

pub data Operation : Type 0 where
  directory symlink file_copy file_raw file_delta file_hardlink : Operation

unfoldable pub operation_tag : Operation → ℕ
operation_tag directory = 1
operation_tag symlink = 2
operation_tag file_copy = 3
operation_tag file_raw = 4
operation_tag file_delta = 5
operation_tag file_hardlink = 6

unfoldable pub operation_try_from : ℕ → Result Error Operation
operation_try_from tag =
    if tag == 1
    then ok directory
    else if tag == 2
    then ok symlink
    else if tag == 3
    then ok file_copy
    else if tag == 4
    then ok file_raw
    else if tag == 5
    then ok file_delta
    else if tag == 6
    then ok file_hardlink
    else err invalid_operation

pub record DecodedEntry : Type 0 where
  pub path : Bytes
  pub mode : ℕ
  pub operation : Operation
  pub payload : Bytes
  pub metadata : CanonicalMetadata

-- `View for DecodedEntry`
unfoldable pub kind_of : Operation → Structure.Kind
kind_of directory = Structure.Kind.directory
kind_of symlink = Structure.Kind.symlink
kind_of file_copy = Structure.Kind.file
kind_of file_raw = Structure.Kind.file
kind_of file_delta = Structure.Kind.file
kind_of file_hardlink = Structure.Kind.file

unfoldable pub structure : DecodedEntry → Structure.Record
unfolding kind_of
structure e = record {
  path = e.path;
  mode = e.mode;
  kind = kind_of e.operation;
  data_bytes = e.payload;
}

pub record ParsedPatch : Type 0 where
  pub header : Header
  pub rules : List Rule
  pub entries : List DecodedEntry
  pub root : CanonicalMetadata

-- The methods of `Reader`. A `u64` always fits the 64-bit `usize`.
unfoldable pub take : ℕ → Reader Error Bytes
take = Cursor.take_bytes unexpected_end_of_input

unfoldable pub byte : Reader Error ℕ
byte = Cursor.byte unexpected_end_of_input

unfoldable pub word16 : Reader Error ℕ
word16 = Cursor.word unexpected_end_of_input 2

unfoldable pub word32 : Reader Error ℕ
word32 = Cursor.word unexpected_end_of_input 4

unfoldable pub word64 : Reader Error ℕ
word64 = Cursor.word unexpected_end_of_input 8

-- `Reader::length`
unfoldable pub within : ℕ → ℕ → Result Error ℕ
within limit n = if ltb limit n then err limit_exceeded else ok n

unfoldable pub length32 : ℕ → Reader Error ℕ
unfolding word32 within
length32 limit = do n ← word32; lift (within limit n)

unfoldable pub action_try_from : ℕ → Result Error Action
action_try_from tag =
    if tag == 1 then ok include else if tag == 2 then ok exclude else err invalid_rule

unfoldable pub rule : ℕ → Reader Error Rule
rule max_pattern_bytes = do
  tag ← byte
  action ← lift (action_try_from tag)
  flags ← byte
  lift (reject (not (flags == 0)) invalid_rule)
  spare ← word16
  lift (reject (not (spare == 0)) invalid_rule)
  size ← length32 max_pattern_bytes
  lift (reject (size == 0) invalid_rule)
  bytes ← take size
  pattern ← lift (ok_or (chars bytes) (snapshot_error invalid_utf8))
  pure (record { action = action; pattern = pattern })

-- Whether the record has something of a family.
unfoldable pub carries : Family → Metadata → Bool
carries xattr m = not (is_empty m.xattrs)
carries acl m = not (is_empty m.aces) || is_some m.native_acl
carries timestamps m = is_some m.times.mtime || (is_some m.times.atime || is_some m.times.btime)
carries finder m = not (m.finder_flags == 0) || is_some m.finder_info
carries sparse m = not (is_empty m.holes)
carries hardlink m = is_some m.hardlink_to

unfoldable pub has_omitted : Metadata → Omit → Bool
has_omitted m omit = any (λ family. Omit.contains omit family && carries family m) Family.all

-- `hardlink_to.as_deref() != Some(payload)`, negated.
abbrev pub links_to : Option Bytes → Bytes → Bool
links_to none payload = false
links_to (some path) payload = bytes_eq path payload

unfoldable pub check_payload : ℕ → Operation → Bytes → Metadata → Result Error (Unit {0})
check_payload max_symlink_bytes directory payload m =
    reject (not (is_empty payload)) invalid_payload
check_payload max_symlink_bytes file_copy payload m =
    reject (not (is_empty payload)) invalid_payload
check_payload max_symlink_bytes symlink payload m =
    reject (ltb max_symlink_bytes (length payload)) limit_exceeded
check_payload max_symlink_bytes file_hardlink payload m =
    reject (not (links_to m.hardlink_to payload)) (snapshot_error invalid_hardlink_relation)
check_payload max_symlink_bytes file_raw payload m = ok tt
check_payload max_symlink_bytes file_delta payload m = ok tt

abbrev pub is_hardlink : Operation → Bool
is_hardlink file_hardlink = true
is_hardlink _ = false

unfoldable pub check_link : Operation → Metadata → Result Error (Unit {0})
check_link operation m =
    reject (is_some m.hardlink_to && not (is_hardlink operation))
      (snapshot_error invalid_hardlink_relation)

unfoldable pub check_root : Metadata → Omit → Result Error (Unit {0})
unfolding has_omitted
check_root m omit =
    if has_omitted m omit
    then err omitted_metadata_present
    else if metadata_is_empty m
    then err (metadata_error bad_metadata)
    else if not (is_empty m.holes)
    then err (snapshot_error invalid_sparse_extent)
    else if is_some m.hardlink_to
    then err (snapshot_error invalid_hardlink_relation)
    else ok tt

unfoldable pub check_rules : List Rule → Result Error (Unit {0})
check_rules [] = ok tt
check_rules (r ∷ rules) = map_err filter_error (compiled (compile_filter (r ∷ rules)))
  where
    compiled : {E F : Type 0} → Result E F → Result E (Unit {0})
    compiled (ok filter) = ok tt
    compiled (err e) = err e

-- What the body holds behind the header.
pub record Body : Type 0 where
  pub rules : List Rule
  pub entries : List DecodedEntry
  pub root : CanonicalMetadata

-- The allocator's answer to a request is `reserve`.
module _ (reserve : ℕ → Bool) where
  -- A record behind its length.
  unfoldable pub record_within : ℕ → Reader Error CanonicalMetadata
  record_within max_payload_bytes = do
    size ← length32 max_payload_bytes
    bytes ← take size
    lift (map_err metadata_error (Decoding.decode reserve bytes))

  unfoldable pub entry : Limits → Omit → Reader Error DecodedEntry
  entry limits omit = do
    tag ← byte
    operation ← lift (operation_try_from tag)
    flags ← byte
    lift (reject (not (flags == 0)) unsupported_flags)
    mode ← word16
    path_size ← length32 limits.max_path_bytes
    lift (reject (path_size == 0) invalid_path)
    declared ← word64
    payload_size ← lift (within limits.max_payload_bytes declared)
    path ← take path_size
    payload ← take payload_size
    metadata ← record_within limits.max_payload_bytes
    lift (reject (has_omitted metadata.metadata omit) omitted_metadata_present)
    lift (check_payload limits.max_symlink_bytes operation payload metadata.metadata)
    lift (check_link operation metadata.metadata)
    pure (record {
      path = path;
      mode = mode;
      operation = operation;
      payload = payload;
      metadata = metadata;
    })

  unfoldable pub root_if : Bool → Limits → Omit → Reader Error CanonicalMetadata
  root_if false limits omit = pure (record { metadata = no_metadata })
  root_if true limits omit = do
    root ← record_within limits.max_payload_bytes
    lift (check_root root.metadata omit)
    pure root

  unfoldable pub body : Limits → Header → Reader Error Body
  body limits header = do
    lift (reject (not (reserve header.rule_count)) out_of_memory)
    rules ← repeat header.rule_count (rule limits.max_pattern_bytes)
    lift (check_rules rules)
    lift (reject (not (reserve header.entry_count)) out_of_memory)
    entries ← repeat header.entry_count (entry limits header.omit)
    root ← root_if header.root_metadata limits header.omit
    pure (record { rules = rules; entries = entries; root = root })

  -- The checks behind the body, and the result.
  unfoldable pub finish : Header → Result Error (Body × Cursor) → Result Error ParsedPatch
  finish header (err e) = err e
  finish header (ok (b, c)) =
      if c.offset == length c.bytes
      then after (map_err snapshot_error (Structure.validate (map structure b.entries)))
      else err trailing_data
    where
      after : Result Error (Unit {0}) → Result Error ParsedPatch
      after (err e) = err e
      after (ok done) =
          ok (record { header = header; rules = b.rules; entries = b.entries; root = b.root })

  unfoldable pub decode : (Bytes → Bytes) → Bytes → Limits → Result Error ParsedPatch
  decode blake3 bytes limits = elim (decode_prefix blake3 bytes limits.envelope) [
    | err e ↦ err e
    | ok (header, rest) ↦ finish header (body limits header (record { bytes = rest; offset = 0 }))
  ]
