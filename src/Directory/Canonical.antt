-- ===== src/Directory/Canonical.antt =====
-- rust/src/directory_canonical.rs: snapshots whose physical relations hold, and their identity.
pub mod Relations
use difz.Prelude.{
  ℕ, ◌+◌, ◌-◌, ◌^◌, Bool, true, false, not, ◌&&◌, ◌||◌, List, [], ◌∷◌, ◌++◌, Option, none, some,
  ltb, ◌==◌, any, length, map, take, drop, get_elem?, is_empty, is_some, if◌then◌else◌, Result, ok,
  err, ok_or, ◌>>=◌, ◌>>◌, reject, concat_map, join,
}
use difz.Prelude.Bytes.{Bytes, bytes_eq, to_le}
use difz.Prelude.Integers.{i64_to_word}
use difz.Prelude.Text.{ascii}
use difz.Metadata.Kinds.{class_tag, ace_tag, os_tag}
use difz.Metadata.Time.{Time}
use difz.Metadata.Records.{Xattr, Ace, NativeAcl, Times, Hole, Metadata, metadata_is_empty}
use difz.Metadata.Validation.{CanonicalMetadata}
use difz.Metadata.Encoding
use difz.Directory.Paths.{Error, invalid_sparse_extent, invalid_hardlink_relation}
use difz.Directory.Structure
use difz.Directory.Structure.{find_path}
use difz.Directory.Snapshot.{
  Content, directory, file, symlink, Entry, Snapshot, structure, kind_tag, mode_of, bytes_of,
}

-- The derived equalities of the metadata records.
unfoldable pub list_eq {ℓ} : {A : Type ℓ} → (A → A → Bool) → List A → List A → Bool
list_eq same [] [] = true
list_eq same [] (y ∷ ys) = false
list_eq same (x ∷ xs) [] = false
list_eq same (x ∷ xs) (y ∷ ys) = same x y && list_eq same xs ys

unfoldable pub option_eq {ℓ} : {A : Type ℓ} → (A → A → Bool) → Option A → Option A → Bool
option_eq same none none = true
option_eq same none (some y) = false
option_eq same (some x) none = false
option_eq same (some x) (some y) = same x y

unfoldable pub xattr_eq : Xattr → Xattr → Bool
xattr_eq a b =
    class_tag a.class == class_tag b.class && bytes_eq a.name b.name && bytes_eq a.value b.value

unfoldable pub ace_eq : Ace → Ace → Bool
ace_eq a b =
    ace_tag a.tag == ace_tag b.tag
    && a.permissions.bits == b.permissions.bits
    && bytes_eq a.name b.name

unfoldable pub acl_eq : NativeAcl → NativeAcl → Bool
acl_eq a b = os_tag a.origin == os_tag b.origin && bytes_eq a.bytes b.bytes

-- Seconds are compared as the words that stand for them.
unfoldable pub time_eq : Time → Time → Bool
time_eq a b = i64_to_word a.sec == i64_to_word b.sec && a.nsec == b.nsec

unfoldable pub times_eq : Times → Times → Bool
times_eq a b =
    option_eq time_eq a.mtime b.mtime
    && option_eq time_eq a.atime b.atime
    && option_eq time_eq a.btime b.btime

unfoldable pub hole_eq : Hole → Hole → Bool
hole_eq a b = a.offset == b.offset && a.size == b.size

-- All fields but the referring link.
unfoldable pub shared_metadata_equal : Metadata → Metadata → Bool
shared_metadata_equal l r =
    list_eq xattr_eq l.xattrs r.xattrs
    && list_eq ace_eq l.aces r.aces
    && option_eq acl_eq l.native_acl r.native_acl
    && times_eq l.times r.times
    && l.finder_flags == r.finder_flags
    && option_eq bytes_eq l.finder_info r.finder_info
    && list_eq hole_eq l.holes r.holes

unfoldable pub check_hole : Content → Hole → Result Error (Unit {0})
check_hole (directory mode) hole = err invalid_sparse_extent
check_hole (symlink target) hole = err invalid_sparse_extent
check_hole (file mode bytes) hole = do
  reject (ltb (length bytes) hole.offset || ltb (length bytes - hole.offset) hole.size)
      invalid_sparse_extent
  reject (any (λ b. not (b == 0)) (take hole.size (drop hole.offset bytes))) invalid_sparse_extent

unfoldable pub check_holes : Content → List Hole → Result Error (Unit {0})
check_holes content [] = ok tt
check_holes content (hole ∷ holes) = do check_hole content hole; check_holes content holes

-- The file that a link repeats: its bytes, mode and other metadata are the link's.
unfoldable pub check_target : ℕ → Bytes → Metadata → Entry → Result Error (Unit {0})
check_target mode bytes metadata target = elim target.content [
  | directory mode' ↦ err invalid_hardlink_relation
  | symlink to ↦ err invalid_hardlink_relation
  | file target_mode target_bytes ↦
      reject
        (is_some target.metadata.metadata.hardlink_to
          || (not (mode == target_mode)
              || (not (bytes_eq bytes target_bytes)
                  || not (shared_metadata_equal metadata target.metadata.metadata))))
        invalid_hardlink_relation
]

-- `&entries[target]` at the index that the search found, which is in range.
unfoldable pub check_link : List Entry → Content → Metadata → Option Bytes → Result Error (Unit {0})
check_link before content metadata none = ok tt
check_link before (directory mode) metadata (some path) = err invalid_hardlink_relation
check_link before (symlink target) metadata (some path) = err invalid_hardlink_relation
check_link before (file mode bytes) metadata (some path) = do
  index ← ok_or (find_path (map structure before) path) invalid_hardlink_relation
  target ← ok_or (get_elem? before index) invalid_hardlink_relation
  check_target mode bytes metadata target

unfoldable pub check_relations : List Entry → List Entry → Result Error (Unit {0})
check_relations before [] = ok tt
check_relations before (entry ∷ rest) = do
  check_holes entry.content entry.metadata.metadata.holes
  check_link before entry.content entry.metadata.metadata entry.metadata.metadata.hardlink_to
  check_relations (before ++ entry ∷ []) rest

pub record CanonicalSnapshot : Type 0 where
  pub snapshot : Snapshot

unfoldable pub new : Snapshot → Result Error CanonicalSnapshot
new snapshot = do
  Structure.validate (map structure snapshot.entries)
  check_relations [] snapshot.entries
  reject (not (is_empty snapshot.root.metadata.holes)) invalid_sparse_extent
  reject (is_some snapshot.root.metadata.hardlink_to) invalid_hardlink_relation
  ok (record { snapshot = snapshot })

-- What the hasher is fed of one entry.
unfoldable pub entry_chunks : (Bytes → Bytes) → Entry → List Bytes
entry_chunks blake3 e =
    (kind_tag e.content ∷ [])
    ∷ to_le 2 (mode_of e.content)
    ∷ to_le 4 (length e.path)
    ∷ e.path
    ∷ to_le 8 (length (bytes_of e.content))
    ∷ bytes_of e.content
    ∷ Encoding.hash blake3 e.metadata
    ∷ []

unfoldable pub root_chunks : (Bytes → Bytes) → CanonicalMetadata → List Bytes
root_chunks blake3 root =
    if metadata_is_empty root.metadata
    then []
    else (ascii "DIFZTREE-ROOT" ++ 1 ∷ []) ∷ Encoding.hash blake3 root ∷ []

unfoldable pub hash : (Bytes → Bytes) → CanonicalSnapshot → Bytes
hash blake3 s = blake3 (
    join (
      (ascii "DIFZTREE-ID" ++ 2 ∷ [])
        ∷ to_le 4 (length s.snapshot.entries)
        ∷ concat_map (entry_chunks blake3) s.snapshot.entries
      ++ root_chunks blake3 s.snapshot.root))
