-- ===== src/Examples/TreePatch.antt =====
-- rust/src/tree_patch.rs and its parts: a patch that copies, rewrites, adds and links files.
use difz.Prelude.{
  ◌↔◌, ◌≢◌, ◌≤◌, ◌≡◌, refl, true, List, [], ◌∷◌, ◌++◌, none, some, arith, length, inl, Result, ok,
  err, All, replicate,
}
use difz.Prelude.Bytes.{Bytes, IsByte, to_le, from_le, bytes_eq}
use difz.Prelude.Order.{cmp}
use difz.Prelude.Integers.{pos}
use difz.Prelude.Text.{ascii}
use difz.Prelude.Utf8.Encoding.{as_bytes}
use difz.Examples.Inputs.{granted, are_bytes-All}
use difz.Examples.File.{
  storing, constant_hash, constant_hash-IsHash, storing-IsLossless, All-replicate,
}
use difz.Metadata.Records.{no_metadata, Metadata, IsTyped}
use difz.Metadata.Validation.{CanonicalMetadata}
use difz.Directory.Snapshot.{directory, file, symlink, Entry, Snapshot}
use difz.Directory.Canonical
use difz.Directory.Canonical.{CanonicalSnapshot}
use difz.PathFilter.Compile.{include, Rule}
use difz.Directory.Paths
use difz.Directory.Snapshot
use difz.Directory.Structure
use difz.File.Codec
use difz.File.Patch
use difz.Metadata.Borrowing
use difz.Metadata.Encoding
use difz.Metadata.Names
use difz.Metadata.Omit
use difz.Metadata.Records
use difz.Metadata.Validation
use difz.PathFilter.Compile
use difz.TreePatch.Encoding.{
  CreateOptions, content_at, project_entries, project, masked, put, put_record, put_each, put_rules,
  choose_file, choose_linked, choose, put_entry, put_entries, put_root, header_for, create_masked,
  create,
}
use difz.TreePatch.Encoding.Projection.{IsSound, IsSoundRecord, IsMasked, masked-IsMasked}
use difz.TreePatch.Encoding.Selection.{HasFile, IsPlainFile, choose_by_source}
use difz.TreePatch.{default_limits, default_envelope}
use difz.TreePatch.Header
use difz.TreePatch.Header.{Header, decode_prefix}
use difz.TreePatch.Header.RoundTrip.{Holds, decode_prefix-encode_tree}
use difz.TreePatch.Header.Inversion.{decode_prefix-eq-ok_tree}
use difz.TreePatch.Decoding
use difz.TreePatch.Decoding.{ParsedPatch, file_copy, file_delta, file_raw}
use difz.TreePatch.Applying.{apply}
use difz.TreePatch.Applying.Safety.{output_bytes, IsBound, apply-eq-ok_tree}
use difz.TreePatch.RoundTrip.{limits_of, apply-create}

abbrev plain : CanonicalMetadata
plain = record { metadata = no_metadata }

abbrev stamped : Metadata
stamped = record no_metadata {
  times = record { mtime = some (record { sec = pos 9; nsec = 1 }); atime = none; btime = none };
}

abbrev linked : Metadata
linked = record no_metadata { hardlink_to = some (ascii "d/f") }

abbrev snapshot_of : List Entry → CanonicalSnapshot
snapshot_of entries = record { snapshot = record { entries = entries; root = plain } }

abbrev old_tree : CanonicalSnapshot
old_tree = snapshot_of (
    record { path = ascii "b"; content = file 420 (1 ∷ 2 ∷ []); metadata = plain }
    ∷ record { path = ascii "c"; content = file 420 (5 ∷ []); metadata = plain }
    ∷ [])

abbrev new_tree : CanonicalSnapshot
new_tree = snapshot_of (
    record {
      path = ascii "b";
      content = file 420 (1 ∷ 3 ∷ []);
      metadata = record { metadata = stamped };
    }
    ∷ record { path = ascii "c"; content = file 420 (5 ∷ []); metadata = plain }
    ∷ record { path = ascii "d"; content = directory 493; metadata = plain }
    ∷ record { path = ascii "d/f"; content = file 420 (7 ∷ []); metadata = plain }
    ∷ record {
      path = ascii "d/g";
      content = file 420 (7 ∷ []);
      metadata = record { metadata = linked };
    }
    ∷ record { path = ascii "d/l"; content = symlink (ascii "f"); metadata = plain }
    ∷ [])

-- Times are omitted, and one rule is carried.
abbrev options : CreateOptions
options = record {
  rules = record { action = include; pattern = ascii "*" } ∷ [];
  omit = record { bits = 4 };
}

abbrev value_of : Result difz.TreePatch.Error Bytes → Bytes
value_of (ok bytes) = bytes
value_of (err e) = []

abbrev patch : Bytes
patch = value_of (create storing granted constant_hash old_tree new_tree options)

created : create storing granted constant_hash old_tree new_tree options ≡ ok patch
unfolding content_at project_entries project masked put put_record put_each put_rules choose_file
    choose_linked choose put_entry put_entries put_root header_for create_masked create
    Encoding.native_acl_chunks Encoding.time_chunks Encoding.info_chunks Encoding.link_chunks
    Encoding.chunks Encoding.put_all Encoding.write Encoding.encoded_len Encoding.encode
    Validation.validate_xattrs Validation.validate_aces Validation.validate_native_acl
    Validation.validate_times Validation.validate_holes Validation.validate_link Validation.validate
    Validation.new Borrowing.reserve_exact Borrowing.copy Borrowing.copy_kept
    Borrowing.borrowing_omitting Omit.parse Names.validate_hardlink Records.metadata_is_empty
    Canonical.list_eq Canonical.option_eq Canonical.times_eq Canonical.shared_metadata_equal
    Canonical.check_holes Canonical.check_target Canonical.check_link Canonical.check_relations
    Canonical.new Structure.search Structure.find_path Structure.parent_path
    Structure.mode_from_bits Structure.check_content Structure.check_order Structure.check_parent
    Structure.check_entry Structure.check_entries Structure.validate Paths.validate_text
    Paths.validate_path Paths.descend Paths.walk Paths.validate_symlink_target Snapshot.structure
    Compile.compile_rule Compile.compile_rules Compile.compile_filter difz.File.Header.encode
    Patch.window_log Patch.header_for Patch.encode Codec.window_log Codec.settings Codec.set_all
    Codec.cycle_log Codec.append_frame as_bytes to_le
created = refl

no_metadata-IsTyped : IsTyped no_metadata
no_metadata-IsTyped = record {
  xattrs = tt;
  aces = tt;
  native_acl = tt;
  mtime = tt;
  atime = tt;
  btime = tt;
  finder_flags = omega arith;
  finder_info = tt;
  holes = tt;
  hardlink_to = tt;
}

plain_sound : IsSoundRecord plain
unfolding Validation.validate_xattrs Validation.validate_aces Validation.validate_native_acl
    Validation.validate_times Validation.validate_holes Validation.validate_link Validation.validate
    Validation.new Names.validate_hardlink
plain_sound = record { typed = no_metadata-IsTyped; valid = refl }

stamped_sound : IsSoundRecord (record { metadata = stamped })
unfolding Validation.validate_xattrs Validation.validate_aces Validation.validate_native_acl
    Validation.validate_times Validation.validate_holes Validation.validate_link Validation.validate
    Validation.new Names.validate_hardlink
stamped_sound = record {
  typed = record {
    xattrs = tt;
    aces = tt;
    native_acl = tt;
    mtime = (omega arith, omega arith);
    atime = tt;
    btime = tt;
    finder_flags = omega arith;
    finder_info = tt;
    holes = tt;
    hardlink_to = tt;
  };
  valid = refl;
}

linked_sound : IsSoundRecord (record { metadata = linked })
unfolding Validation.validate_xattrs Validation.validate_aces Validation.validate_native_acl
    Validation.validate_times Validation.validate_holes Validation.validate_link Validation.validate
    Validation.new Names.validate_hardlink
linked_sound = record {
  typed = record {
    xattrs = tt;
    aces = tt;
    native_acl = tt;
    mtime = tt;
    atime = tt;
    btime = tt;
    finder_flags = omega arith;
    finder_info = tt;
    holes = tt;
    hardlink_to = are_bytes-All (ascii "d/f") refl;
  };
  valid = refl;
}

old_tree-IsSound : IsSound old_tree
unfolding Canonical.list_eq Canonical.option_eq Canonical.times_eq Canonical.shared_metadata_equal
    Canonical.check_holes Canonical.check_target Canonical.check_link Canonical.check_relations
    Canonical.new Structure.search Structure.find_path Structure.parent_path
    Structure.mode_from_bits Structure.check_content Structure.check_order Structure.check_parent
    Structure.check_entry Structure.check_entries Structure.validate Paths.validate_text
    Paths.validate_path Paths.descend Paths.walk Paths.validate_symlink_target Snapshot.structure
    cmp bytes_eq
old_tree-IsSound = record {
  canonical = refl;
  entries = (plain_sound, (plain_sound, tt));
  root = plain_sound;
}

new_tree-IsSound : IsSound new_tree
unfolding Canonical.list_eq Canonical.option_eq Canonical.times_eq Canonical.shared_metadata_equal
    Canonical.check_holes Canonical.check_target Canonical.check_link Canonical.check_relations
    Canonical.new Structure.search Structure.find_path Structure.parent_path
    Structure.mode_from_bits Structure.check_content Structure.check_order Structure.check_parent
    Structure.check_entry Structure.check_entries Structure.validate Paths.validate_text
    Paths.validate_path Paths.descend Paths.walk Paths.validate_symlink_target Snapshot.structure
    cmp bytes_eq
new_tree-IsSound = record {
  canonical = refl;
  entries = (
    stamped_sound,
    (plain_sound, (plain_sound, (plain_sound, (linked_sound, (plain_sound, tt))))),
  );
  root = plain_sound;
}

new_tree_budget : output_bytes new_tree.snapshot.entries ≤ 100
unfolding Snapshot.bytes_of
new_tree_budget = omega arith

apply-create_example :
    (t : CanonicalSnapshot) × (masked storing granted constant_hash new_tree options.omit ≡ ok t)
    × (apply storing granted constant_hash old_tree patch (limits_of 100) ≡ ok t)
apply-create_example =
    apply-create storing granted constant_hash (λ n. refl) constant_hash-IsHash storing-IsLossless
      old_tree new_tree options 100 patch old_tree-IsSound new_tree-IsSound (omega arith)
      (((omega arith, inl (omega arith)), tt), tt) new_tree_budget created

undone :
    (t : CanonicalSnapshot) × (masked storing granted constant_hash new_tree options.omit ≡ ok t)
    × (apply storing granted constant_hash old_tree patch (limits_of 100) ≡ ok t)
undone =
    apply-create storing granted constant_hash (λ n. refl) constant_hash-IsHash storing-IsLossless
      old_tree new_tree options 100 patch old_tree-IsSound new_tree-IsSound (omega arith)
      (((omega arith, inl (omega arith)), tt), tt) new_tree_budget created

abbrev rebuilt_tree : CanonicalSnapshot
rebuilt_tree = undone.0

applied : apply storing granted constant_hash old_tree patch (limits_of 100) ≡ ok rebuilt_tree
applied = undone.2

apply-eq-ok_tree_example :
    (p : ParsedPatch) × (Decoding.decode granted constant_hash patch default_limits ≡ ok p)
    × IsBound storing granted constant_hash old_tree (limits_of 100) p rebuilt_tree
apply-eq-ok_tree_example =
    apply-eq-ok_tree storing granted constant_hash old_tree patch (limits_of 100) rebuilt_tree
      applied

abbrev small_header : Header
small_header = record {
  needed_reader = 2;
  root_metadata = true;
  omit = record { bits = 4 };
  rule_count = 1;
  entry_count = 0;
  source_hash = replicate 32 7;
  target_hash = replicate 32 7;
}

abbrev small_body : Bytes
small_body = replicate 12 7

small_header-IsTyped : Header.IsTyped small_header
small_header-IsTyped = record {
  needed_reader = omega arith;
  omit = omega arith;
  rule_count = omega arith;
  entry_count = omega arith;
  source_hash = (refl, All-replicate 32);
  target_hash = (refl, All-replicate 32);
}

small_header-Holds : Holds small_header small_body default_envelope
small_header-Holds = record {
  reader = omega arith;
  rules = omega arith;
  entries = omega arith;
  rule_room = omega arith;
  entry_room = omega arith;
}

abbrev small_patch : Bytes
small_patch = Header.encode constant_hash small_header small_body ++ small_body

small_patch_fits : length small_patch ≤ default_envelope.max_patch_bytes
unfolding Header.encode Header.fields Header.flags_of Header.checksum to_le
small_patch_fits = omega arith

small_patch_bytes : All IsByte small_patch
unfolding Header.encode Header.fields Header.flags_of Header.checksum to_le
small_patch_bytes = are_bytes-All small_patch refl

small_patch_read :
    decode_prefix constant_hash small_patch default_envelope ≡ ok (small_header, small_body)
unfolding decode_prefix Header.decode_fields Header.encode Header.fields Header.flags_of
    Header.checksum Header.word Omit.from_bits to_le from_le bytes_eq
small_patch_read = refl

decode_prefix-encode_tree_example :
    decode_prefix constant_hash small_patch default_envelope ≡ ok (small_header, small_body)
decode_prefix-encode_tree_example =
    decode_prefix-encode_tree constant_hash constant_hash-IsHash small_header small_body
      default_envelope small_header-IsTyped small_header-Holds small_patch_fits

decode_prefix-eq-ok_tree_example :
    (small_patch ≡ Header.encode constant_hash small_header small_body ++ small_body)
    × Header.IsTyped small_header
    × Holds small_header small_body default_envelope
    × (length small_patch ≤ default_envelope.max_patch_bytes)
decode_prefix-eq-ok_tree_example =
    decode_prefix-eq-ok_tree constant_hash small_patch default_envelope small_header small_body
      small_patch_bytes small_patch_read

abbrev copied : Entry
copied = record { path = ascii "c"; content = file 420 (5 ∷ []); metadata = plain }

abbrev copied_from : List Entry
copied_from = copied ∷ []

chosen : choose storing granted constant_hash 4096 copied_from copied ≡ ok (file_copy, [])
unfolding choose choose_linked choose_file content_at Structure.find_path Structure.search
    Snapshot.structure cmp bytes_eq
chosen = refl

choose_by_source_example :
    ((file_copy ≡ file_copy)
      ↔ ((bytes : Bytes) × IsPlainFile copied bytes × HasFile copied_from copied.path bytes))
    × ((file_copy ≡ file_delta) ↔ (
        (bytes : Bytes) × (previous : Bytes) × IsPlainFile copied bytes
        × HasFile copied_from copied.path previous
        × (previous ≢ bytes)))
    × ((file_copy ≡ file_raw) ↔ (
        (bytes : Bytes) × IsPlainFile copied bytes
        × ((previous : Bytes) → HasFile copied_from copied.path previous → ⊥)))
choose_by_source_example =
    choose_by_source storing granted constant_hash 4096 copied_from copied file_copy [] (tt, tt)
      chosen

kept : masked storing granted constant_hash new_tree options.omit ≡ ok rebuilt_tree
kept = undone.1

masked-IsMasked_example :
    IsMasked storing granted constant_hash (λ n. refl) options.omit new_tree rebuilt_tree
masked-IsMasked_example =
    masked-IsMasked storing granted constant_hash (λ n. refl) options.omit new_tree new_tree-IsSound
      kept
