-- ===== src/Metadata/Decoding.antt =====
-- rust/src/metadata_decode.rs: the bounded decoder of a canonical record.
pub mod Reading
pub mod RoundTrip
pub mod Inversion
pub mod Canonicity
use difz.Prelude.{
  ℕ, ◌-◌, ◌/◌, Bool, true, false, not, List, Option, none, some, bit_and, ltb, ◌==◌, length,
  if◌then◌else◌, Result, ok, err,
}
use difz.Prelude.Bytes.{Bytes}
use difz.Prelude.Cursor
use difz.Prelude.Cursor.{Cursor, Reader, pure, lift, ◌>>=◌, ◌>>◌, repeat}
use difz.Metadata.Kinds.{
  Error, bad_metadata, out_of_memory, truncated_metadata, trailing_metadata, class_try_from,
  ace_try_from, os_try_from,
}
use difz.Metadata.Time
use difz.Metadata.Time.{Time}
use difz.Metadata.Records.{Xattr, Ace, NativeAcl, Times, Hole, Metadata, permissions_from_bits}
use difz.Metadata.Validation.{CanonicalMetadata, new}

-- The methods of `Cursor`. A `u32` always fits the 64-bit `usize`.
unfoldable pub take : ℕ → Reader Error Bytes
take = Cursor.take_bytes truncated_metadata

unfoldable pub byte : Reader Error ℕ
byte = Cursor.byte truncated_metadata

unfoldable pub word32 : Reader Error ℕ
word32 = Cursor.word truncated_metadata 4

unfoldable pub word64 : Reader Error ℕ
word64 = Cursor.word truncated_metadata 8

unfoldable pub blob : Reader Error Bytes
unfolding word32 take
blob = do size ← word32; take size

unfoldable pub time : Reader Error Time
unfolding take
time = do bytes ← take 12; lift (Time.decode bytes)

-- `if test { return Err(e) }`
abbrev pub fail_if : Bool → Error → Reader Error (Unit {0})
fail_if true e c = err e
fail_if false e c = ok (tt, c)

-- The part of `vector` behind the count: forged counts are rejected before storage is requested.
-- The allocator's answer to a request for so many elements is `reserve`.
unfoldable pub check_count : (ℕ → Bool) → ℕ → ℕ → Reader Error (Unit {0})
check_count reserve minimum count c =
    if ltb ((length c.bytes - c.offset) / minimum) count
    then err truncated_metadata
    else if reserve count
    then ok (tt, c)
    else err out_of_memory

-- `vector` and the loop that fills what it returns.
unfoldable pub vector {ℓ} : {A : Type ℓ} → (ℕ → Bool) → ℕ → Reader Error A → Reader Error (List A)
unfolding word32 check_count repeat
vector reserve minimum item = do
  count ← word32
  check_count reserve minimum count
  repeat count item

unfoldable pub xattr : Reader Error Xattr
unfolding byte blob
xattr = do
  tag ← byte
  class ← lift (class_try_from tag)
  name ← blob
  value ← blob
  pure (record { class = class; name = name; value = value })

unfoldable pub ace : Reader Error Ace
unfolding byte blob
ace = do
  code ← byte
  tag ← lift (ace_try_from code)
  bits ← byte
  permissions ← lift (permissions_from_bits bits)
  name ← blob
  pure (record { tag = tag; permissions = permissions; name = name })

-- `if origin == 0 { None } else { … }`
unfoldable pub native_acl_from : ℕ → Reader Error (Option NativeAcl)
unfolding blob
native_acl_from code = if code == 0 then pure none else do
  origin ← lift (os_try_from code)
  bytes ← blob
  pure (some (record { origin = origin; bytes = bytes }))

unfoldable pub native_acl : Reader Error (Option NativeAcl)
unfolding byte native_acl_from
native_acl = do code ← byte; native_acl_from code

-- `if flags & bit != 0 { Some(cursor.time()?) } else { None }`
unfoldable pub time_if : Bool → Reader Error (Option Time)
unfolding time
time_if true = do value ← time; pure (some value)
time_if false = pure none

unfoldable pub times : Reader Error Times
unfolding byte time_if
times = do
  flags ← byte
  fail_if (not (bit_and flags 0xf8 == 0)) bad_metadata
  mtime ← time_if (not (bit_and flags 1 == 0))
  atime ← time_if (not (bit_and flags 2 == 0))
  btime ← time_if (not (bit_and flags 4 == 0))
  pure (record { mtime = mtime; atime = atime; btime = btime })

-- A byte 0 for nothing, 1 for a value, and nothing else.
unfoldable pub optional_from {ℓ} : {A : Type ℓ} → Reader Error A → ℕ → Reader Error (Option A)
optional_from item code =
    if code == 0
    then pure none
    else if code == 1
    then (do value ← item; pure (some value))
    else lift (err bad_metadata)

unfoldable pub optional {ℓ} : {A : Type ℓ} → Reader Error A → Reader Error (Option A)
unfolding byte optional_from
optional item = do code ← byte; optional_from item code

unfoldable pub hole : Reader Error Hole
unfolding word64
hole = do offset ← word64; size ← word64; pure (record { offset = offset; size = size })

unfoldable pub metadata : (ℕ → Bool) → Reader Error Metadata
metadata reserve = do
  xattrs ← vector reserve 9 xattr
  aces ← vector reserve 6 ace
  acl ← native_acl
  stamps ← times
  finder_flags ← word32
  finder_info ← optional (take 32)
  holes ← vector reserve 16 hole
  hardlink_to ← optional blob
  pure (record {
    xattrs = xattrs;
    aces = aces;
    native_acl = acl;
    times = stamps;
    finder_flags = finder_flags;
    finder_info = finder_info;
    holes = holes;
    hardlink_to = hardlink_to;
  })

-- `if cursor.offset != bytes.len()`, then the validating constructor.
abbrev pub finish : Result Error (Metadata × Cursor) → Result Error CanonicalMetadata
finish (err e) = err e
finish (ok (m, c)) = if c.offset == length c.bytes then new m else err trailing_metadata

unfoldable pub decode : (ℕ → Bool) → Bytes → Result Error CanonicalMetadata
decode reserve bytes = finish (metadata reserve (record { bytes = bytes; offset = 0 }))
