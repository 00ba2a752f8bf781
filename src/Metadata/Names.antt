-- ===== src/Metadata/Names.antt =====
-- rust/src/metadata.rs: which attribute, hard-link and access-entry names are accepted.
use mathlib.Core.Option
use difz.Prelude.{
  ◌≡◌, refl, Bool, not, ◌&&◌, ◌||◌, List, [], ◌∷◌, leb, ltb, ◌==◌, is_empty, any, length, take,
  get_or, Result, ok, err, ◌>>◌, reject,
}
use difz.Prelude.Bytes.{Bytes, bytes_eq}
use difz.Prelude.Slices.{
  split_on, starts_with, ends_with, strip_prefix, contains, contains_bytes, eq_ignore_ascii_case,
  is_ascii_alphabetic,
}
use difz.Prelude.Text.{ascii}
use difz.Prelude.Utf8.{is_utf8}
use difz.Metadata.Kinds.{
  Error, empty_name, invalid_logical_name, reserved_transport_name, invalid_raw_name,
  invalid_hardlink, invalid_ace_name, Os, linux, macos, mswin, XattrClass, logical, raw, AceTag,
  owner, group, everyone, named_user, named_group, mask,
}

abbrev pub transport_names : List Bytes
transport_names =
    ascii "difz.btime"
    ∷ ascii "difz.mtime"
    ∷ ascii "difz.finder-info"
    ∷ ascii "difz.bsd-flags"
    ∷ ascii "difz.native-acl"
    ∷ ascii "difz.portable-acl"
    ∷ ascii "difz.sparse-holes"
    ∷ ascii "difz.hardlink-to"
    ∷ ascii "difz.raw-xattrs"
    ∷ ascii "difz.symlinks"
    ∷ []

unfoldable pub is_transport_name : Bytes → Bool
unfolding strip_prefix contains_bytes
is_transport_name name =
    contains_bytes transport_names (Option.get_or (strip_prefix name (ascii "user.")) name)

-- `/\:*?"<>|`
abbrev pub forbidden : Bytes
forbidden = ascii "/\\:*?\"<>|"

-- `name.get(..prefix.len()).is_some_and(|head| head.eq_ignore_ascii_case(prefix))`
abbrev has_prefix_ignoring_case : Bytes → Bytes → Bool
has_prefix_ignoring_case name prefix =
    leb (length prefix) (length name) && eq_ignore_ascii_case (take (length prefix) name) prefix

abbrev reserved_prefixes : List Bytes
reserved_prefixes = ascii "user." ∷ ascii "com.apple." ∷ ascii "$" ∷ []

unfoldable pub validate_logical_name : Bytes → Result Error (Unit {0})
unfolding contains is_utf8 ends_with eq_ignore_ascii_case
validate_logical_name name = do
  reject (is_empty name) empty_name
  reject
      (ltb 127 (length name)
        || (any (λ b. ltb b 0x20 || b == 0x7f || contains forbidden b) name
            || not (is_utf8 name)
            || get_or name 0 0 == b' '
            || ends_with name (ascii " ")
            || ends_with name (ascii ".")
            || any (has_prefix_ignoring_case name) reserved_prefixes
            || eq_ignore_ascii_case name (ascii "zone.identifier")))
      invalid_logical_name

-- The branch of `validate_xattr_name` for the attribute's class.
unfoldable pub validate_class_name : XattrClass → Bytes → Result Error (Unit {0})
unfolding validate_logical_name
validate_class_name logical name = validate_logical_name name
validate_class_name raw name =
    reject (ltb 255 (length name) || any (λ b. b == 0 || b == b'/' || b == b'\\') name)
      invalid_raw_name

unfoldable pub validate_xattr_name : XattrClass → Bytes → Result Error (Unit {0})
unfolding is_transport_name validate_class_name
validate_xattr_name class name = do
  reject (is_transport_name name) reserved_transport_name
  reject (is_empty name) empty_name
  validate_class_name class name

unfoldable pub validate_hardlink : Bytes → Result Error (Unit {0})
unfolding is_utf8 starts_with contains split_on bytes_eq
validate_hardlink path =
    reject
      (is_empty path
        || ltb 4096 (length path)
        || not (is_utf8 path)
        || starts_with path (ascii "/")
        || contains path b'\\'
        || contains path 0
        || (leb 2 (length path) && is_ascii_alphabetic (get_or path 0 0) && get_or path 1 0 == b':')
        || any (λ part. is_empty part || bytes_eq part (ascii ".") || bytes_eq part (ascii ".."))
            (split_on b'/' path))
      invalid_hardlink

abbrev is_principal : Bytes → Bool
is_principal name =
    not (is_empty name) && is_utf8 name && not (contains name b'/') && not (contains name 0)

abbrev valid_ace_name : AceTag → Bytes → Bool
valid_ace_name named_user name = is_principal name
valid_ace_name named_group name = is_principal name
valid_ace_name owner name = is_empty name
valid_ace_name group name = is_empty name
valid_ace_name everyone name = is_empty name
valid_ace_name mask name = is_empty name

unfoldable pub validate_ace_name : AceTag → Bytes → Result Error (Unit {0})
unfolding is_utf8 contains
validate_ace_name tag name = reject (not (valid_ace_name tag name)) invalid_ace_name

-- `name.starts_with(prefix) && name.len() > prefix.len()`
abbrev extends : Bytes → Bytes → Bool
extends name prefix = starts_with name prefix && ltb (length prefix) (length name)

unfoldable pub raw_accepted : Os → Bytes → Bool
unfolding starts_with contains
raw_accepted linux name =
    any (extends name) (ascii "user." ∷ ascii "system." ∷ ascii "security." ∷ ascii "trusted." ∷ [])
raw_accepted macos name = not (is_empty name) && leb (length name) 127 && not (contains name b'/')
raw_accepted mswin name =
    not (is_empty name) && leb (length name) 255 && not (any (contains forbidden) name)

reserved_name : validate_xattr_name raw (ascii "user.difz.mtime") ≡ err reserved_transport_name
unfolding validate_xattr_name
reserved_name = refl

accepted_name : validate_xattr_name logical (ascii "comment") ≡ ok tt
unfolding validate_xattr_name
accepted_name = refl

vendor_name : validate_xattr_name logical (ascii "COM.apple.x") ≡ err invalid_logical_name
unfolding validate_xattr_name
vendor_name = refl
