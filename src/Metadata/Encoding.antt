-- ===== src/Metadata/Encoding.antt =====
-- rust/src/metadata_canonical.rs: the field writer, and the length, the bytes and the identity that
-- are made with it.
pub mod Layout
pub mod Sizes
use difz.Prelude.{
  ℕ, ◌+◌, ◌*◌, Bool, not, List, [], ◌∷◌, ◌++◌, Option, none, some, concat_map, join, length,
  is_some, if◌then◌else◌, Result, ok, err, ok_or, ◌>>=◌, ◌>>◌, reject,
}
use difz.Prelude.Bytes.{Bytes, to_le}
use difz.Prelude.Cursor.{checked_add}
use difz.Prelude.Integers.{i64_to_word}
use difz.Prelude.Text.{ascii}
use difz.Metadata.Kinds.{Error, bad_metadata, out_of_memory, class_tag, ace_tag, os_tag}
use difz.Metadata.Time.{Time}
use difz.Metadata.Records.{Xattr, Ace, NativeAcl, Times, Hole, Metadata}
use difz.Metadata.Validation.{CanonicalMetadata}

-- The byte strings that `write` puts, in order. A list of `put` calls is the loop's unrolling.
unfoldable pub xattr_chunks : Xattr → List Bytes
unfolding class_tag
xattr_chunks x =
    (class_tag x.class ∷ [])
    ∷ to_le 4 (length x.name)
    ∷ x.name
    ∷ to_le 4 (length x.value)
    ∷ x.value
    ∷ []

unfoldable pub ace_chunks : Ace → List Bytes
unfolding ace_tag
ace_chunks a = (ace_tag a.tag ∷ a.permissions.bits ∷ []) ∷ to_le 4 (length a.name) ∷ a.name ∷ []

unfoldable pub native_acl_chunks : Option NativeAcl → List Bytes
unfolding os_tag
native_acl_chunks none = (0 ∷ []) ∷ []
native_acl_chunks (some acl) =
    (os_tag acl.origin ∷ []) ∷ to_le 4 (length acl.bytes) ∷ acl.bytes ∷ []

-- `bits | (u8::from(time.is_some()) << index)`, over three distinct bits.
abbrev flag : Option Time → ℕ → ℕ
flag time bit = if is_some time then bit else 0

unfoldable pub time_flags : Times → ℕ
time_flags times = flag times.mtime 1 + flag times.atime 2 + flag times.btime 4

unfoldable pub time_chunks : Option Time → List Bytes
time_chunks none = []
time_chunks (some time) = to_le 8 (i64_to_word time.sec) ∷ to_le 4 time.nsec ∷ []

unfoldable pub info_chunks : Option Bytes → List Bytes
info_chunks none = (0 ∷ []) ∷ []
info_chunks (some bytes) = (1 ∷ []) ∷ bytes ∷ []

unfoldable pub hole_chunks : Hole → List Bytes
hole_chunks hole = to_le 8 hole.offset ∷ to_le 8 hole.size ∷ []

unfoldable pub link_chunks : Option Bytes → List Bytes
link_chunks none = (0 ∷ []) ∷ []
link_chunks (some path) = (1 ∷ []) ∷ to_le 4 (length path) ∷ path ∷ []

unfoldable pub chunks : Metadata → List Bytes
chunks m =
    to_le 4 (length m.xattrs) ∷ concat_map xattr_chunks m.xattrs
    ++ (to_le 4 (length m.aces) ∷ concat_map ace_chunks m.aces
        ++ (native_acl_chunks m.native_acl
            ++ ((time_flags m.times ∷ []) ∷ time_chunks m.times.mtime
                ++ (time_chunks m.times.atime
                    ++ (time_chunks m.times.btime
                        ++ (to_le 4 m.finder_flags ∷ info_chunks m.finder_info
                            ++ (to_le 4 (length m.holes) ∷ concat_map hole_chunks m.holes
                                ++ link_chunks m.hardlink_to)))))))

-- `put(bytes)?` for each of them.
unfoldable pub put_all {ℓ} :
    {S : Type ℓ} → (S → Bytes → Result Error S) → S → List Bytes → Result Error S
put_all put s [] = ok s
put_all put s (bytes ∷ rest) = do s' ← put s bytes; put_all put s' rest

unfoldable pub write {ℓ} :
    {S : Type ℓ} → (S → Bytes → Result Error S) → S → CanonicalMetadata → Result Error S
write put s m = put_all put s (chunks m.metadata)

unfoldable pub encoded_len : CanonicalMetadata → Result Error ℕ
encoded_len m = write (λ n bytes. ok_or (checked_add n (length bytes)) bad_metadata) 0 m

-- The allocator's answer to a request for so many elements is `reserve`.
unfoldable pub encode : (ℕ → Bool) → CanonicalMetadata → Result Error Bytes
encode reserve m = do
  size ← encoded_len m
  reject (not (reserve size)) out_of_memory
  write (λ output bytes. ok (output ++ bytes)) [] m

-- `blake3` is a parameter; updates of the hasher concatenate.
unfoldable pub hash : (Bytes → Bytes) → CanonicalMetadata → Bytes
hash blake3 m = blake3 (ascii "DIFZMETA" ++ (1 ∷ join (chunks m.metadata)))
