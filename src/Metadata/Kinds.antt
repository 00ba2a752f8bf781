-- ===== src/Metadata/Kinds.antt =====
-- rust/src/metadata.rs: the error type and the wire enums.
use difz.Prelude.{ℕ, ◌==◌, if◌then◌else◌, Result, ok, err}

pub data Error : Type 0 where
  invalid_omit_mask empty_family unknown_family duplicate_family invalid_nsec bad_metadata : Error
  empty_name invalid_logical_name reserved_transport_name invalid_raw_name invalid_hardlink : Error
  invalid_ace_name out_of_memory duplicate_xattr duplicate_ace empty_native_acl : Error
  zero_length_hole hole_overflow truncated_metadata trailing_metadata : Error

-- The `wire_enum!`s: each type with its tags and the `TryFrom<u8>` that reads them.
pub data Os : Type 0 where
  linux macos mswin : Os

unfoldable pub os_tag : Os → ℕ
os_tag linux = 1
os_tag macos = 2
os_tag mswin = 3

unfoldable pub os_try_from : ℕ → Result Error Os
os_try_from tag =
    if tag == 1
    then ok linux
    else if tag == 2
    then ok macos
    else if tag == 3
    then ok mswin
    else err bad_metadata

pub data XattrClass : Type 0 where
  logical raw : XattrClass

unfoldable pub class_tag : XattrClass → ℕ
class_tag logical = 1
class_tag raw = 2

unfoldable pub class_try_from : ℕ → Result Error XattrClass
class_try_from tag = if tag == 1 then ok logical else if tag == 2 then ok raw else err bad_metadata

pub data AceTag : Type 0 where
  owner group everyone named_user named_group mask : AceTag

unfoldable pub ace_tag : AceTag → ℕ
ace_tag owner = 1
ace_tag group = 2
ace_tag everyone = 3
ace_tag named_user = 4
ace_tag named_group = 5
ace_tag mask = 6

unfoldable pub ace_try_from : ℕ → Result Error AceTag
ace_try_from tag =
    if tag == 1
    then ok owner
    else if tag == 2
    then ok group
    else if tag == 3
    then ok everyone
    else if tag == 4
    then ok named_user
    else if tag == 5
    then ok named_group
    else if tag == 6
    then ok mask
    else err bad_metadata
