-- ===== src/Directory/Paths.antt =====
-- rust/src/directory.rs: the grammar of tree paths and of symbolic links.
pub mod Containment
pub mod Sizes
use difz.Prelude.{
  ℕ, zero, suc, ◌+◌, ◌-◌, ◌≡◌, refl, Bool, not, ◌&&◌, ◌||◌, List, [], ◌∷◌, leb, ltb, ◌==◌, is_empty,
  any, length, get_or, if◌then◌else◌, Result, ok, err, ◌>>=◌, ◌>>◌, reject,
}
use difz.Prelude.Bytes.{Bytes, bytes_eq}
use difz.Prelude.Slices.{split_on, starts_with, contains, is_ascii_alphabetic}
use difz.Prelude.Text.{ascii}
use difz.Prelude.Utf8.{is_utf8}

pub data Error : Type 0 where
  empty_path invalid_utf8 absolute_path backslash_separator nul_byte invalid_component : Error
  drive_prefix paths_not_sorted duplicate_path missing_parent parent_not_directory : Error
  invalid_mode invalid_entry_data symlink_escapes_root too_many_entries path_too_long : Error
  invalid_hardlink_relation invalid_sparse_extent : Error

abbrev pub max_entries : ℕ
max_entries = 1000000

abbrev pub max_path_bytes : ℕ
max_path_bytes = 4096

unfoldable pub validate_text : Bytes → Result Error (Unit {0})
unfolding is_utf8 starts_with contains
validate_text bytes = do
  reject (not (is_utf8 bytes)) invalid_utf8
  reject (starts_with bytes (ascii "/")) absolute_path
  reject (contains bytes b'\\') backslash_separator
  reject (contains bytes 0) nul_byte
  reject
      (leb 2 (length bytes) && is_ascii_alphabetic (get_or bytes 0 0) && get_or bytes 1 0 == b':')
      drive_prefix

abbrev pub is_dot : Bytes → Bool
is_dot part = bytes_eq part (ascii ".")

abbrev pub is_dots : Bytes → Bool
is_dots part = bytes_eq part (ascii "..")

unfoldable pub validate_path : Bytes → Result Error (Unit {0})
unfolding split_on bytes_eq
validate_path path = do
  reject (is_empty path) empty_path
  reject (ltb max_path_bytes (length path)) path_too_long
  validate_text path
  reject (any (λ part. is_empty part || is_dot part || is_dots part) (split_on b'/' path))
      invalid_component

-- `iter().filter(|byte| **byte == b'/').count()`
unfoldable pub count_byte : ℕ → Bytes → ℕ
count_byte separator [] = 0
count_byte separator (x ∷ xs) =
    let rest = count_byte separator xs in if x == separator then suc rest else rest

-- One part of a target: the depth below the root after it.
unfoldable pub descend : ℕ → Bytes → Result Error ℕ
unfolding bytes_eq
descend depth part =
    if is_empty part
    then err invalid_component
    else if is_dot part
    then ok depth
    else if is_dots part
    then reject (depth == 0) symlink_escapes_root >> ok (depth - 1)
    else ok (depth + 1)

-- The loop over the parts.
unfoldable pub walk : ℕ → List Bytes → Result Error (Unit {0})
walk depth [] = ok tt
walk depth (part ∷ parts) = descend depth part >>= λ next. walk next parts

unfoldable pub validate_symlink_target : Bytes → Bytes → Result Error (Unit {0})
validate_symlink_target link_path target = do
  validate_path link_path
  reject (is_empty target) invalid_entry_data
  validate_text target
  walk (count_byte b'/' link_path) (split_on b'/' target)

inside : validate_symlink_target (ascii "a/b/link") (ascii "../c/../../x") ≡ ok tt
unfolding validate_symlink_target validate_path validate_text walk descend count_byte
inside = refl

escapes : validate_symlink_target (ascii "a/link") (ascii "../../x") ≡ err symlink_escapes_root
unfolding validate_symlink_target validate_path validate_text walk descend count_byte
escapes = refl
