-- ===== src/Metadata/Records.antt =====
-- rust/src/metadata_record.rs: the records that a metadata value is made of.
use difz.Prelude.{
  ℕ, ◌^◌, ◌<◌, ◌≡◌, Bool, not, ◌&&◌, List, [], Option, none, some, bit_and, ◌==◌, length, All,
  is_empty, is_some, Result, ok, ◌>>◌, reject,
}
use difz.Prelude.Bytes.{Bytes, IsByte}
use difz.Prelude.Integers.{IsI64}
use difz.Metadata.Kinds.{Error, bad_metadata, XattrClass, AceTag, Os}
use difz.Metadata.Time.{Time}

pub record Permissions : Type 0 where
  pub bits : ℕ

-- `bits & !known != 0`, with the known bits 1, 2 and 4 of a u8.
unfoldable pub permissions_from_bits : ℕ → Result Error Permissions
permissions_from_bits bits = do
  reject (not (bit_and bits 0xf8 == 0)) bad_metadata
  ok (record { bits = bits })

unfoldable pub permits : Permissions → ℕ → Bool
permits p bit = bit_and p.bits bit == bit

pub record Xattr : Type 0 where
  pub class : XattrClass
  pub name : Bytes
  pub value : Bytes

pub record Ace : Type 0 where
  pub tag : AceTag
  pub permissions : Permissions
  pub name : Bytes

pub record NativeAcl : Type 0 where
  pub origin : Os
  pub bytes : Bytes

pub record Times : Type 0 where
  pub mtime : Option Time
  pub atime : Option Time
  pub btime : Option Time

abbrev pub no_times : Times
no_times = record { mtime = none; atime = none; btime = none }

pub record Hole : Type 0 where
  pub offset : ℕ
  pub size : ℕ

pub record Metadata : Type 0 where
  pub xattrs : List Xattr
  pub aces : List Ace
  pub native_acl : Option NativeAcl
  pub times : Times
  pub finder_flags : ℕ
  pub finder_info : Option Bytes
  pub holes : List Hole
  pub hardlink_to : Option Bytes

abbrev pub no_metadata : Metadata
no_metadata = record {
  xattrs = [];
  aces = [];
  native_acl = none;
  times = no_times;
  finder_flags = 0;
  finder_info = none;
  holes = [];
  hardlink_to = none;
}

unfoldable pub metadata_is_empty : Metadata → Bool
metadata_is_empty m =
    is_empty m.xattrs
    && is_empty m.aces
    && not (is_some m.native_acl)
    && not (is_some m.times.mtime)
    && not (is_some m.times.atime)
    && not (is_some m.times.btime)
    && m.finder_flags == 0
    && not (is_some m.finder_info)
    && is_empty m.holes
    && not (is_some m.hardlink_to)

-- What the types of the Rust fields guarantee: bytes, words of their width, three permission bits,
-- thirty-two bytes of finder information.
abbrev pub IsTime : Time → Type 0
IsTime t = IsI64 t.sec × (t.nsec < 2 ^ 32)

abbrev pub OptionAll {ℓ κ} : {A : Type ℓ} → (A → Type κ) → Option A → Type κ
OptionAll P none = Unit
OptionAll P (some a) = P a

abbrev pub IsXattr : Xattr → Type 0
IsXattr x = All IsByte x.name × All IsByte x.value

abbrev pub IsAce : Ace → Type 0
IsAce a = (a.permissions.bits < 8) × All IsByte a.name

abbrev pub IsHole : Hole → Type 0
IsHole h = (h.offset < 2 ^ 64) × (h.size < 2 ^ 64)

abbrev pub IsInfo : Bytes → Type 0
IsInfo bytes = (length bytes ≡ 32) × All IsByte bytes

pub record IsTyped (m : Metadata) : Type 0 where
  pub xattrs : All IsXattr m.xattrs
  pub aces : All IsAce m.aces
  pub native_acl : OptionAll (λ acl. All IsByte acl.bytes) m.native_acl
  pub mtime : OptionAll IsTime m.times.mtime
  pub atime : OptionAll IsTime m.times.atime
  pub btime : OptionAll IsTime m.times.btime
  pub finder_flags : m.finder_flags < 2 ^ 32
  pub finder_info : OptionAll IsInfo m.finder_info
  pub holes : All IsHole m.holes
  pub hardlink_to : OptionAll (All IsByte) m.hardlink_to
