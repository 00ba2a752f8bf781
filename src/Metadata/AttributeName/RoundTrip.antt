-- ===== src/Metadata/AttributeName/RoundTrip.antt =====
-- rust/src/attribute_name.rs: names written as native names and read back.
use difz.Prelude.{
  leb_false→lt, ℕ, ◌+◌, ◌≤◌, ◌≡◌, refl, false, [], ◌∷◌, ◌++◌, some, arith, leb, length,
  length-append, ok, reject, >>-eq-ok, reject-eq-ok, map_err-eq-ok,
}
use difz.Prelude.Bytes.{Bytes}
use difz.Prelude.Slices.{contains, strip_prefix, starts_with}
use difz.Metadata.Kinds.{Os, linux, macos, mswin, XattrClass, logical, raw}
use difz.Metadata.Names.{validate_logical_name}
use difz.Metadata.AttributeName.{invalid_name, check_name, native_prefix, to_native, from_native}

from_native-prefix :
    (os : Os) (class : XattrClass) (name : Bytes)
    → check_name os class name ≡ ok tt
    → from_native os class (native_prefix os class ++ name) ≡ some name
unfolding from_native check_name strip_prefix starts_with
from_native-prefix linux raw name h = refl
from_native-prefix macos raw name h = refl
from_native-prefix mswin raw name h = refl
from_native-prefix linux logical name h =
    rw (map_err-eq-ok (λ _. invalid_name) (validate_logical_name name) h) refl
from_native-prefix macos logical name h =
    rw (map_err-eq-ok (λ _. invalid_name) (validate_logical_name name) h) refl
from_native-prefix mswin logical name h =
    rw (map_err-eq-ok (λ _. invalid_name) (validate_logical_name name) h) refl

-- If a name is written as a native name, the result is a body without NUL and a terminator, it
-- fits into the output, and reading the body back for the same system and class gives the name.
pub from_native-to_native :
    (os : Os) (class : XattrClass) (name : Bytes) (capacity : ℕ) {native : Bytes}
    → to_native os class name capacity ≡ ok native
    → (body : Bytes) × (native ≡ body ++ 0 ∷ [])
      × (contains body 0 ≡ false)
      × (length native ≤ capacity)
      × (from_native os class body ≡ some name)
unfolding to_native
from_native-to_native os class name capacity {native} e =
    let body = native_prefix os class ++ name in
    let (checked, e₁) = >>-eq-ok (check_name os class name) _ e in
    let (room, e₂) =
      >>-eq-ok (reject (leb capacity (length (native_prefix os class) + length name)) invalid_name)
        _ e₁ in
    let (clean, e₃) = >>-eq-ok (reject (contains body 0) invalid_name) _ e₂ in
    let whole : native ≡ body ++ 0 ∷ [] = cc e₃ in
    let fits = leb_false→lt capacity _ (reject-eq-ok _ invalid_name room) in
    (
      body,
      whole,
      reject-eq-ok (contains body 0) invalid_name clean,
      rw whole (
          omega (
            arith,
            fits,
            length-append body (0 ∷ []),
            length-append (native_prefix os class) name,
          )),
      from_native-prefix os class name checked,
    )
