-- ===== src/Metadata/Validation.antt =====
-- rust/src/metadata_canonical.rs, `validate`: the records that may be encoded and hashed.
pub mod Sizes
use Prim.Native.Nat.{Ordering, compare}
use difz.Prelude.{
  ℕ, ◌^◌, Bool, true, false, not, ◌&&◌, List, [], ◌∷◌, Option, none, some, leb, ◌==◌, length,
  is_empty, Result, ok, ok_or, ◌>>=◌, ◌>>◌, reject,
}
use difz.Prelude.Bytes.{Bytes, bytes_eq}
use difz.Prelude.Cursor.{checked_add}
use difz.Prelude.Order.{cmp, then_with}
use difz.Metadata.Kinds.{
  Error, bad_metadata, duplicate_xattr, duplicate_ace, empty_native_acl, invalid_nsec,
  zero_length_hole, hole_overflow, class_tag, ace_tag,
}
use difz.Metadata.Names.{validate_xattr_name, validate_ace_name, validate_hardlink}
use difz.Metadata.Time.{Time, nsec_limit}
use difz.Metadata.Records.{Xattr, Ace, NativeAcl, Times, Hole, Metadata}

-- `u32::try_from(length)`
unfoldable pub wire_length : ℕ → Result Error (Unit {0})
wire_length n = reject (leb (2 ^ 32) n) bad_metadata

abbrev is_lt : Ordering → Bool
is_lt Ordering.lt = true
is_lt Ordering.eq = false
is_lt Ordering.gt = false

-- The order of attributes: by class, then by name. `(class, name)` of Rust's tuple order.
unfoldable pub xattr_cmp : Xattr → Xattr → Ordering
unfolding class_tag cmp
xattr_cmp a b = then_with (compare (class_tag a.class) (class_tag b.class)) (cmp a.name b.name)

unfoldable pub ace_cmp : Ace → Ace → Ordering
unfolding ace_tag cmp
ace_cmp a b = then_with (compare (ace_tag a.tag) (ace_tag b.tag)) (cmp a.name b.name)

-- `previous.class == class && previous.name == name`
unfoldable pub same_xattr : Xattr → Xattr → Bool
unfolding class_tag bytes_eq
same_xattr a b = class_tag a.class == class_tag b.class && bytes_eq a.name b.name

unfoldable pub same_ace : Ace → Ace → Bool
unfolding ace_tag bytes_eq
same_ace a b = ace_tag a.tag == ace_tag b.tag && bytes_eq a.name b.name

-- The comparison with the element before, if there is one.
unfoldable pub after_xattr : Option Xattr → Xattr → Result Error (Unit {0})
unfolding same_xattr xattr_cmp
after_xattr none x = ok tt
after_xattr (some previous) x = do
  reject (same_xattr previous x) duplicate_xattr
  reject (not (is_lt (xattr_cmp previous x))) bad_metadata

unfoldable pub validate_xattrs : Option Xattr → List Xattr → Result Error (Unit {0})
unfolding wire_length after_xattr
validate_xattrs previous [] = ok tt
validate_xattrs previous (x ∷ xs) = do
  validate_xattr_name x.class x.name
  wire_length (length x.value)
  after_xattr previous x
  validate_xattrs (some x) xs

unfoldable pub after_ace : Option Ace → Ace → Result Error (Unit {0})
unfolding same_ace ace_cmp
after_ace none x = ok tt
after_ace (some previous) x = do
  reject (same_ace previous x) duplicate_ace
  reject (not (is_lt (ace_cmp previous x))) bad_metadata

unfoldable pub validate_aces : Option Ace → List Ace → Result Error (Unit {0})
unfolding wire_length after_ace
validate_aces previous [] = ok tt
validate_aces previous (x ∷ xs) = do
  validate_ace_name x.tag x.name
  wire_length (length x.name)
  after_ace previous x
  validate_aces (some x) xs

unfoldable pub validate_native_acl : Option NativeAcl → Result Error (Unit {0})
unfolding wire_length
validate_native_acl none = ok tt
validate_native_acl (some acl) = do
  reject (is_empty acl.bytes) empty_native_acl
  wire_length (length acl.bytes)

unfoldable pub validate_time : Option Time → Result Error (Unit {0})
validate_time none = ok tt
validate_time (some time) = reject (leb nsec_limit time.nsec) invalid_nsec

unfoldable pub validate_times : Times → Result Error (Unit {0})
unfolding validate_time
validate_times times = do
  validate_time times.mtime
  validate_time times.atime
  validate_time times.btime

-- `previous_end.is_some_and(|end| offset <= end)`
abbrev pub touches : Option ℕ → ℕ → Bool
touches none offset = false
touches (some end) offset = leb offset end

unfoldable pub validate_holes : Option ℕ → List Hole → Result Error (Unit {0})
validate_holes previous [] = ok tt
validate_holes previous (hole ∷ holes) = do
  reject (hole.size == 0) zero_length_hole
  end ← ok_or (checked_add hole.offset hole.size) hole_overflow
  reject (touches previous hole.offset) bad_metadata
  validate_holes (some end) holes

unfoldable pub validate_link : Option Bytes → Result Error (Unit {0})
validate_link none = ok tt
validate_link (some path) = validate_hardlink path

unfoldable pub validate : Metadata → Result Error (Unit {0})
unfolding wire_length
validate m = do
  wire_length (length m.xattrs)
  validate_xattrs none m.xattrs
  wire_length (length m.aces)
  validate_aces none m.aces
  validate_native_acl m.native_acl
  validate_times m.times
  wire_length (length m.holes)
  validate_holes none m.holes
  validate_link m.hardlink_to

-- The wrapper around a validated record, and its constructor.
pub record CanonicalMetadata : Type 0 where
  pub metadata : Metadata

unfoldable pub new : Metadata → Result Error CanonicalMetadata
new m = do validate m; ok (record { metadata = m })
