-- ===== src/Metadata/Validation/Sizes.antt =====
-- rust/src/metadata_canonical.rs, `validate`: the lengths and the times of accepted records.
use difz.Prelude.{
  reject-or, is_empty, ltb_false→le, ltb, ℕ, ◌^◌, ◌<◌, ◌≤◌, ◌≡◌, List, [], ◌∷◌, Option, none, some,
  arith, length, All, ok, >>-eq-ok, reject,
}
use difz.Prelude.Bytes.{Bytes}
use difz.Metadata.Kinds.{XattrClass, logical, raw, reserved_transport_name, empty_name}
use difz.Metadata.Names.{
  validate_logical_name, validate_class_name, validate_xattr_name, validate_hardlink,
  validate_ace_name, is_transport_name,
}
use difz.Metadata.Time.{Time}
use difz.Metadata.Records.{Xattr, Ace, NativeAcl, Metadata, OptionAll}
use difz.Metadata.Validation.{
  wire_length, after_xattr, validate_xattrs, after_ace, validate_aces, validate_native_acl,
  validate_time, validate_times, validate_holes, validate_link, validate,
}

abbrev pub FitsWire : Bytes → Type 0
FitsWire bytes = length bytes < 2 ^ 32

abbrev pub XattrFits : Xattr → Type 0
XattrFits x = FitsWire x.name × FitsWire x.value

abbrev pub IsCivil : Time → Type 0
IsCivil t = t.nsec < 1_000_000_000

pub record IsWire (m : Metadata) : Type 0 where
  pub xattr_count : length m.xattrs < 2 ^ 32
  pub xattrs : All XattrFits m.xattrs
  pub ace_count : length m.aces < 2 ^ 32
  pub aces : All (λ a. FitsWire a.name) m.aces
  pub native_acl : OptionAll (λ acl. FitsWire acl.bytes) m.native_acl
  pub mtime : OptionAll IsCivil m.times.mtime
  pub atime : OptionAll IsCivil m.times.atime
  pub btime : OptionAll IsCivil m.times.btime
  pub hole_count : length m.holes < 2 ^ 32
  pub hardlink_to : OptionAll FitsWire m.hardlink_to

wire_length-lt : (n : ℕ) → wire_length n ≡ ok tt → n < 2 ^ 32
unfolding wire_length
wire_length-lt n h = ground arith

logical_name-le : (name : Bytes) → validate_logical_name name ≡ ok tt → length name ≤ 127
unfolding validate_logical_name
logical_name-le name h =
    let (_, checked) = >>-eq-ok (reject (is_empty name) empty_name) _ h in
    ltb_false→le 127 (length name) (reject-or (ltb 127 (length name)) _ _ checked).0

class_name-le :
    (c : XattrClass) (name : Bytes) → validate_class_name c name ≡ ok tt → length name ≤ 255
unfolding validate_class_name
class_name-le logical name h = omega (arith, logical_name-le name h)
class_name-le raw name h =
    ltb_false→le 255 (length name) (reject-or (ltb 255 (length name)) _ _ h).0

xattr_name-le :
    (c : XattrClass) (name : Bytes) → validate_xattr_name c name ≡ ok tt → length name ≤ 255
unfolding validate_xattr_name
xattr_name-le c name h =
    let (_, rest) = >>-eq-ok (reject (is_transport_name name) reserved_transport_name) _ h in
    class_name-le c name (>>-eq-ok (reject (is_empty name) empty_name) _ rest).1

hardlink-le : (path : Bytes) → validate_hardlink path ≡ ok tt → length path ≤ 4096
unfolding validate_hardlink
hardlink-le path h = ground arith

xattrs_fit : (p : Option Xattr) (xs : List Xattr) → validate_xattrs p xs ≡ ok tt → All XattrFits xs
unfolding validate_xattrs
xattrs_fit p [] h = tt
xattrs_fit p (x ∷ xs) h =
    let (named, rest) = >>-eq-ok (validate_xattr_name x.class x.name) _ h in
    let (valued, rest') = >>-eq-ok (wire_length (length x.value)) _ rest in
    let (_, others) = >>-eq-ok (after_xattr p x) _ rest' in
    (
      (omega (arith, xattr_name-le x.class x.name named), wire_length-lt (length x.value) valued),
      xattrs_fit (some x) xs others,
    )

aces_fit :
    (p : Option Ace) (xs : List Ace) → validate_aces p xs ≡ ok tt → All (λ a. FitsWire a.name) xs
unfolding validate_aces
aces_fit p [] h = tt
aces_fit p (x ∷ xs) h =
    let (_, rest) = >>-eq-ok (validate_ace_name x.tag x.name) _ h in
    let (named, rest') = >>-eq-ok (wire_length (length x.name)) _ rest in
    let (_, others) = >>-eq-ok (after_ace p x) _ rest' in
    (wire_length-lt (length x.name) named, aces_fit (some x) xs others)

time-IsCivil : (t : Option Time) → validate_time t ≡ ok tt → OptionAll IsCivil t
unfolding validate_time
time-IsCivil none h = tt
time-IsCivil (some t) h = ground arith

native_acl_fits :
    (acl : Option NativeAcl)
    → validate_native_acl acl ≡ ok tt
    → OptionAll (λ a. FitsWire a.bytes) acl
unfolding validate_native_acl wire_length
native_acl_fits none h = tt
native_acl_fits (some acl) h = ground arith

link_fits : (link : Option Bytes) → validate_link link ≡ ok tt → OptionAll FitsWire link
unfolding validate_link
link_fits none h = tt
link_fits (some path) h = omega (arith, hardlink-le path h)

pub validate-IsWire : (m : Metadata) → validate m ≡ ok tt → IsWire m
unfolding validate validate_times
validate-IsWire m h =
    let (h₁, r₁) = >>-eq-ok (wire_length (length m.xattrs)) _ h in
    let (h₂, r₂) = >>-eq-ok (validate_xattrs none m.xattrs) _ r₁ in
    let (h₃, r₃) = >>-eq-ok (wire_length (length m.aces)) _ r₂ in
    let (h₄, r₄) = >>-eq-ok (validate_aces none m.aces) _ r₃ in
    let (h₅, r₅) = >>-eq-ok (validate_native_acl m.native_acl) _ r₄ in
    let (h₆, r₆) = >>-eq-ok (validate_times m.times) _ r₅ in
    let (h₇, r₇) = >>-eq-ok (wire_length (length m.holes)) _ r₆ in
    let (_, h₈) = >>-eq-ok (validate_holes none m.holes) _ r₇ in
    let (mtime, t₁) = >>-eq-ok (validate_time m.times.mtime) _ h₆ in
    let (atime, t₂) = >>-eq-ok (validate_time m.times.atime) _ t₁ in
    record {
      xattr_count = wire_length-lt (length m.xattrs) h₁;
      xattrs = xattrs_fit none m.xattrs h₂;
      ace_count = wire_length-lt (length m.aces) h₃;
      aces = aces_fit none m.aces h₄;
      native_acl = native_acl_fits m.native_acl h₅;
      mtime = time-IsCivil m.times.mtime mtime;
      atime = time-IsCivil m.times.atime atime;
      btime = time-IsCivil m.times.btime t₂;
      hole_count = wire_length-lt (length m.holes) h₇;
      hardlink_to = link_fits m.hardlink_to h₈;
    }
