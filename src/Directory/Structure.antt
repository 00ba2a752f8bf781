-- ===== src/Directory/Structure.antt =====
-- rust/src/directory_structure.rs: the order and the hierarchy of a snapshot's entries.
pub mod Order
pub mod Search
pub mod Hierarchy
pub mod Likeness
use mathlib.Core.Option
use Prim.Native.Nat.{Ordering}
use difz.Prelude.{
  ℕ, zero, suc, ◌+◌, ◌*◌, ◌/◌, ◌≡◌, refl, Bool, true, false, not, List, [], ◌∷◌, ◌++◌, Option, none,
  some, ltb, leb, ◌==◌, is_empty, length, get_elem?, take, drop, if◌then◌else◌, Result, ok, err,
  ◌>>=◌, ◌>>◌, reject, ok_or,
}
use difz.Prelude.Bytes.{Bytes}
use difz.Prelude.Order.{cmp}
use difz.Prelude.Text.{ascii}
use difz.Directory.Paths.{
  Error, paths_not_sorted, duplicate_path, missing_parent, parent_not_directory, invalid_mode,
  invalid_entry_data, too_many_entries, max_entries, validate_path, validate_symlink_target,
}

pub data Kind : Type 0 where
  directory file symlink : Kind

pub record Record : Type 0 where
  pub path : Bytes
  pub mode : ℕ
  pub kind : Kind
  pub data_bytes : Bytes

-- `binary_search_by` on the paths: the index of an entry with the path. The fuel bounds the halvings.
unfoldable pub search : ℕ → List Record → Bytes → Option ℕ
search zero entries path = none
search (suc fuel) entries path = elim (get_elem? entries (length entries / 2)) [
  | none ↦ none
  | some entry ↦ elim (cmp entry.path path) [
    | Ordering.lt ↦
        Option.map (λ i. length entries / 2 + 1 + i)
          (search fuel (drop (length entries / 2 + 1) entries) path)
    | Ordering.eq ↦ some (length entries / 2)
    | Ordering.gt ↦ search fuel (take (length entries / 2) entries) path
  ]
]

-- A search halves the slice, so its length is fuel enough.
unfoldable pub find_path : List Record → Bytes → Option ℕ
find_path entries path = search (length entries) entries path

-- `&path[..slash]` at the last slash.
unfoldable pub parent_path : Bytes → Option Bytes
parent_path [] = none
parent_path (x ∷ xs) = elim (parent_path xs) [
  | some parent ↦ some (x ∷ parent)
  | none ↦ if x == b'/' then some [] else none
]

-- `Mode::from_bits`: `bits & !0o777 != 0` of a u16.
unfoldable pub mode_from_bits : ℕ → Result Error ℕ
mode_from_bits bits = do reject (ltb 511 bits) invalid_mode; ok bits

unfoldable pub check_content : Record → Result Error (Unit {0})
check_content entry = elim entry.kind [
  | directory ↦ reject (not (is_empty entry.data_bytes)) invalid_entry_data
  | file ↦ ok tt
  | symlink ↦
      reject (not (entry.mode == 511)) invalid_mode
      >> validate_symlink_target entry.path entry.data_bytes
]

abbrev pub last : List Record → Option Record
last [] = none
last (x ∷ []) = some x
last (x ∷ y ∷ ys) = last (y ∷ ys)

unfoldable pub check_order : Option Record → Bytes → Result Error (Unit {0})
check_order none path = ok tt
check_order (some previous) path = elim (cmp previous.path path) [
  | Ordering.eq ↦ err duplicate_path
  | Ordering.gt ↦ err paths_not_sorted
  | Ordering.lt ↦ ok tt
]

abbrev check_directory : Kind → Result Error (Unit {0})
check_directory directory = ok tt
check_directory file = err parent_not_directory
check_directory symlink = err parent_not_directory

-- `entries[parent]` at an index that the search returned.
abbrev kind_at : List Record → ℕ → Kind
kind_at [] i = file
kind_at (x ∷ xs) zero = x.kind
kind_at (x ∷ xs) (suc i) = kind_at xs i

unfoldable pub check_parent : List Record → Option Bytes → Result Error (Unit {0})
check_parent before none = ok tt
check_parent before (some path) = do
  parent ← ok_or (find_path before path) missing_parent
  check_directory (kind_at before parent)

-- One turn of the loop; `before` is `entries[..index]`.
unfoldable pub check_entry : List Record → Record → Result Error (Unit {0})
check_entry before entry = do
  validate_path entry.path
  mode ← mode_from_bits entry.mode
  check_content entry
  check_order (last before) entry.path
  check_parent before (parent_path entry.path)

unfoldable pub check_entries : List Record → List Record → Result Error (Unit {0})
check_entries before [] = ok tt
check_entries before (entry ∷ rest) = do
  check_entry before entry
  check_entries (before ++ entry ∷ []) rest

unfoldable pub validate : List Record → Result Error (Unit {0})
validate entries = do
  reject (ltb max_entries (length entries)) too_many_entries
  check_entries [] entries
