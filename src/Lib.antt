-- ===== src/Lib.antt =====
-- difz makes patches between files and between directory trees. A single-file patch is a fixed
-- header, which binds the patch to its source and its target by their lengths and hashes, and one
-- frame of a compression library that has the source as its prefix. A tree is a snapshot: sorted
-- entries, each with a path, a content and a metadata record that is validated, encoded and hashed
-- in one canonical form. This library models the Rust program below rust/src and the codec crate
-- rust/zstdz.
--
-- Prelude holds what the parts share: tests on native numbers, lists, results, bytes and
-- little-endian words, i64, the order of byte strings, Rust's slice methods, UTF-8, and the cursor
-- of the metadata decoder (rust/src/metadata_decode.rs) as a monad of state and errors, with its
-- laws: Reads says that a reader returns a value from the bytes that were written for it, Parses
-- what is known of the bytes that it took.
--
-- File models single-file patches. File.Header is rust/src/lib.rs (Header::encode and
-- decode_prefix). File.Codec is rust/zstdz/src/lib.rs: window_log, append_frame and decode around
-- the library, whose functions are the fields of the record Native; contexts and raw pointers have
-- no counterpart. File.Patch is rust/src/file.rs: encode and apply. The allocator is a function
-- from a size to its answer, blake3 a function on bytes. The digits of a word are counted with 64
-- turns, one for each bit.
--
-- Metadata models portable metadata. Kinds, Family, Names, Omit and Time are rust/src/metadata.rs;
-- Records is rust/src/metadata_record.rs; Validation, Encoding and Normalization are
-- rust/src/metadata_canonical.rs (validate, write with its clients, normalize); Decoding is
-- rust/src/metadata_decode.rs; AttributeName is rust/src/attribute_name.rs; Borrowing is
-- rust/src/metadata_borrow.rs; Restore is rust/src/metadata_restore.rs, where the first entries of
-- the array of compromises are a list. Bytes are numbers below 256, words numbers below their
-- bound, which IsTyped states of a record as the Rust types do. The writer is modelled by the list
-- of byte strings that it puts, in order. Hashers concatenate what they are fed. sort_unstable is
-- an insertion sort.
--
-- Directory models snapshots. Paths is rust/src/directory.rs (the grammar of paths and of link
-- targets); Snapshot is rust/src/directory_record.rs; Structure is
-- rust/src/directory_structure.rs, where binary_search_by of the standard library is a search by
-- halves, for which the slice's length is fuel enough; how the library halves makes no difference
-- on slices whose paths ascend, and all callers have such slices; Canonical is
-- rust/src/directory_canonical.rs.
--
-- PathFilter models rust/src/path_filter.rs: Compile turns patterns into tokens, with the
-- pattern's length as fuel, since each turn takes a character; Matching is the dynamic program,
-- whose rows are lists that are filled from the right. Allocation succeeds there.
--
-- TreePatch models the patches between snapshots. TreePatch itself has the errors and limits of
-- rust/src/tree_patch.rs and its parts; Header is the envelope of that file, whose fields are byte
-- strings in the order in which they are copied into the header; Decoding is
-- rust/src/tree_patch_decode.rs on the cursor of Prelude, one reader for a rule, an entry and the
-- root's record, and the check of the hierarchy behind them; Encoding is
-- rust/src/tree_patch_encode.rs, where the writer's bytes so far are passed on from one put to the
-- next, with its projection onto the families that are kept; Applying is
-- rust/src/tree_patch_apply.rs, which passes on the entries that were rebuilt, whether each owns
-- its bytes, and the budget that is left. It uses File for the patches of single files, Directory
-- for the lookup of paths and the checks of the result, Metadata for the records and PathFilter to
-- compile the rules. A pattern is a list of characters, which the writer encodes as UTF-8 and the
-- reader decodes. A usize has 64 bits.
--
-- SymlinkTransport models rust/src/symlink_transport.rs: the constructor's checks, the writer, the
-- lookup by the same search by halves with the number of records as fuel, and in its child
-- Decoding the bounded reader. It uses Metadata for the records and the overrides and
-- Directory.Paths for the names.
--
-- Examples runs the parts at concrete inputs.
--
-- Not modelled: rust/src/linux_acl.rs, which translates access control lists to the wire format of
-- one system and is called by none of what is modelled; the platform adapters, the C interface and
-- the consumer, which are input and output or glue; the Zig program below src.
pub mod Prelude
pub mod Metadata
pub mod File
pub mod Directory
pub mod PathFilter
pub mod TreePatch
pub mod SymlinkTransport
pub mod Examples
