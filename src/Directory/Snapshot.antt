-- ===== src/Directory/Snapshot.antt =====
-- rust/src/directory_record.rs: the entries of a snapshot, and what the structure checks see of them.
use difz.Prelude.{ℕ, List, []}
use difz.Prelude.Bytes.{Bytes}
use difz.Metadata.Validation.{CanonicalMetadata}
use difz.Directory.Structure.{Kind, Record}

pub data Content : Type 0 where
  directory : ℕ → Content
  file : ℕ → Bytes → Content
  symlink : Bytes → Content

unfoldable pub kind_tag : Content → ℕ
kind_tag (directory mode) = 1
kind_tag (file mode bytes) = 2
kind_tag (symlink target) = 3

-- A symbolic link exposes 0o777.
unfoldable pub mode_of : Content → ℕ
mode_of (directory mode) = mode
mode_of (file mode bytes) = mode
mode_of (symlink target) = 511

unfoldable pub bytes_of : Content → Bytes
bytes_of (directory mode) = []
bytes_of (file mode bytes) = bytes
bytes_of (symlink target) = target

pub record Entry : Type 0 where
  pub path : Bytes
  pub content : Content
  pub metadata : CanonicalMetadata

pub record Snapshot : Type 0 where
  pub entries : List Entry
  pub root : CanonicalMetadata

unfoldable pub kind_of : Content → Kind
kind_of (directory mode) = Kind.directory
kind_of (file mode bytes) = Kind.file
kind_of (symlink target) = Kind.symlink

-- `View for Entry`
unfoldable pub structure : Entry → Record
unfolding kind_of mode_of bytes_of
structure e = record {
  path = e.path;
  mode = mode_of e.content;
  kind = kind_of e.content;
  data_bytes = bytes_of e.content;
}
