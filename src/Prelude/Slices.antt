-- ===== src/Prelude/Slices.antt =====
-- What the source uses of Rust's slice methods beyond those of `Prelude.Lists`.
pub mod Fields
use difz.Prelude.{
  ℕ, ◌+◌, ◌-◌, Bool, true, false, ◌&&◌, List, [], ◌∷◌, map, Option, none, some, leb, ◌==◌, length,
  drop, if◌then◌else◌,
}
use difz.Prelude.Bytes.{Bytes, bytes_eq}

abbrev prepend : ℕ → List Bytes → List Bytes
prepend x [] = (x ∷ []) ∷ []
prepend x (part ∷ parts) = (x ∷ part) ∷ parts

-- `bytes.split(|b| *b == separator)`: one part more than there are separators.
unfoldable pub split_on : ℕ → Bytes → List Bytes
split_on separator [] = [] ∷ []
split_on separator (x ∷ xs) =
    let parts = split_on separator xs in if x == separator then [] ∷ parts else prepend x parts

unfoldable pub starts_with : Bytes → Bytes → Bool
starts_with xs [] = true
starts_with [] (p ∷ ps) = false
starts_with (x ∷ xs) (p ∷ ps) = x == p && starts_with xs ps

unfoldable pub ends_with : Bytes → Bytes → Bool
unfolding bytes_eq
ends_with xs suffix =
    leb (length suffix) (length xs) && bytes_eq (drop (length xs - length suffix) xs) suffix

-- `strip_prefix`
unfoldable pub strip_prefix : Bytes → Bytes → Option Bytes
unfolding starts_with
strip_prefix xs prefix = if starts_with xs prefix then some (drop (length prefix) xs) else none

unfoldable pub contains : Bytes → ℕ → Bool
contains [] b = false
contains (x ∷ xs) b = if x == b then true else contains xs b

-- Membership of a byte string in a list of them.
unfoldable pub contains_bytes : List Bytes → Bytes → Bool
unfolding bytes_eq
contains_bytes [] b = false
contains_bytes (x ∷ xs) b = if bytes_eq x b then true else contains_bytes xs b

abbrev pub to_lower : ℕ → ℕ
to_lower b = if leb b'A' b && leb b b'Z' then b + 32 else b

unfoldable pub eq_ignore_ascii_case : Bytes → Bytes → Bool
unfolding bytes_eq
eq_ignore_ascii_case xs ys = bytes_eq (map to_lower xs) (map to_lower ys)

abbrev pub is_ascii_alphabetic : ℕ → Bool
is_ascii_alphabetic b = leb b'a' (to_lower b) && leb (to_lower b) b'z'
