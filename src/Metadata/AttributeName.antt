-- ===== src/Metadata/AttributeName.antt =====
-- rust/src/attribute_name.rs: attribute names as the operating systems spell them.
pub mod RoundTrip
use difz.Prelude.{
  ℕ, ◌+◌, ◌≡◌, refl, Bool, true, false, not, ◌&&◌, ◌||◌, List, [], ◌∷◌, ◌++◌, Option, none, some,
  leb, ltb, ◌==◌, any, length, is_empty, is_ok, if◌then◌else◌, Result, ok, err, ◌>>◌, reject,
  map_err,
}
use difz.Prelude.Bytes.{Bytes}
use difz.Prelude.Slices.{contains, strip_prefix}
use difz.Prelude.Text.{ascii}
use difz.Prelude.Utf8.{is_utf8}
use difz.Metadata.Kinds.{Os, linux, macos, mswin, XattrClass, logical, raw}
use difz.Metadata.Names.{validate_logical_name}

pub data Error : Type 0 where
  invalid_name : Error

abbrev maximum : Os → ℕ
maximum linux = 255
maximum macos = 127
maximum mswin = 255

abbrev is_mswin : Os → Bool
is_mswin linux = false
is_mswin macos = false
is_mswin mswin = true

-- The checks of the class, before anything is written.
unfoldable pub check_name : Os → XattrClass → Bytes → Result Error (Unit {0})
check_name os logical name = map_err (λ _. invalid_name) (validate_logical_name name)
check_name os raw name =
    reject
      (is_empty name
        || ltb (maximum os) (length name)
        || contains name 0
        || (is_mswin os && (any (contains (ascii ":\\/")) name || not (is_utf8 name))))
      invalid_name

abbrev pub native_prefix : Os → XattrClass → Bytes
native_prefix linux logical = ascii "user."
native_prefix linux raw = []
native_prefix macos class = []
native_prefix mswin class = []

-- `CStr::from_bytes_with_nul` of the bytes and a terminator: no other NUL may stand among them.
abbrev c_string : Bytes → Result Error Bytes
c_string bytes = reject (contains bytes 0) invalid_name >> ok (bytes ++ 0 ∷ [])

-- The C string that is written into an output of so many bytes.
unfoldable pub to_native : Os → XattrClass → Bytes → ℕ → Result Error Bytes
to_native os class name capacity = do
  check_name os class name
  reject (leb capacity (length (native_prefix os class) + length name)) invalid_name
  c_string (native_prefix os class ++ name)

-- `validate_logical_name(logical).is_ok().then_some(logical)`
abbrev if_logical : Option Bytes → Option Bytes
if_logical none = none
if_logical (some name) = if is_ok (validate_logical_name name) then some name else none

unfoldable pub from_native : Os → XattrClass → Bytes → Option Bytes
from_native os raw native = some native
from_native linux logical native = if_logical (strip_prefix native (ascii "user."))
from_native macos logical native = if_logical (some native)
from_native mswin logical native = if_logical (some native)

user_name : to_native linux logical (ascii "tag") 9 ≡ ok (ascii "user.tag" ++ 0 ∷ [])
unfolding to_native check_name validate_logical_name contains
user_name = refl
