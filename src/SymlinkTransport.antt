-- ===== src/SymlinkTransport.antt =====
-- rust/src/symlink_transport.rs: the attribute of a directory that carries its symbolic links'
-- metadata.
pub mod Decoding
pub mod Layout
pub mod RoundTrip
pub mod Lookup
pub mod Acceptance
use Prim.Native.Nat.{Ordering}
use mathlib.Core.Option
use difz.Prelude.{
  ℕ, zero, suc, ◌+◌, ◌-◌, ◌*◌, ◌/◌, Bool, true, false, not, ◌&&◌, ◌||◌, List, [], ◌∷◌, ◌++◌, Option,
  none, some, bit_and, bit_or, ltb, ◌==◌, length, take, drop, get_elem?, is_empty, is_some,
  if◌then◌else◌, Result, ok, err, ok_or, map_err, reject, ◌>>=◌, ◌>>◌,
}
use difz.Prelude.Bytes.{Bytes, bytes_eq, to_le}
use difz.Prelude.Cursor.{checked_add}
use difz.Prelude.Order.{cmp}
use difz.Prelude.Slices.{contains}
use difz.Prelude.Text.{ascii}
use difz.Metadata.Kinds
use difz.Metadata.Time
use difz.Metadata.Time.{Time, as_bytes, encode_time_override, decode_time_override}
use difz.Metadata.Records.{metadata_is_empty}
use difz.Metadata.Validation.{CanonicalMetadata}
use difz.Metadata.Encoding
use difz.Directory.Paths.{validate_path}

abbrev pub max_bytes : ℕ
max_bytes = 65_536

abbrev pub magic : Bytes
magic = ascii "DIFZLINK" ++ 1 ∷ []

abbrev pub max_records : ℕ
max_records = (max_bytes - length magic - 4) / 31

pub data Error : Type 0 where
  invalid_transport transport_too_large out_of_memory : Error
  metadata_error : Kinds.Error → Error

pub record Record : Type 0 where
  pub name : Bytes
  pub metadata : CanonicalMetadata
  pub absent_times : ℕ
  pub observed_mtime : Option Time
  pub acl_override : Bool
  pub finder_override : Bool

pub record Transport : Type 0 where
  pub records : List Record

-- `a != b` on `bool`.
abbrev pub differ : Bool → Bool → Bool
differ true b = not b
differ false b = b

abbrev pub has_bit : ℕ → ℕ → Bool
has_bit flags bit = not (bit_and flags bit == 0)

unfoldable pub validate : Record → Result Error (Unit {0})
validate r = do
  let m = r.metadata.metadata
  reject (differ (is_some m.times.mtime || has_bit r.absent_times 1) (is_some r.observed_mtime))
      invalid_transport
  map_err (λ e. invalid_transport) (validate_path r.name)
  reject
      (has_bit r.absent_times 0xf8
        || ((has_bit r.absent_times 1 && is_some m.times.mtime)
            || ((has_bit r.absent_times 2 && is_some m.times.atime)
                || (has_bit r.absent_times 4 && is_some m.times.btime))))
      invalid_transport
  reject
      (contains r.name b'/'
        || ((metadata_is_empty m
              && (r.absent_times == 0 && (not r.acl_override && not r.finder_override)))
            || (not (is_empty m.holes) || is_some m.hardlink_to)))
      invalid_transport

-- `previous.name >= name`
abbrev pub not_before : Option Bytes → Bytes → Bool
not_before none name = false
not_before (some previous) name = elim (cmp previous name) [ Ordering.lt ↦ false | _ ↦ true ]

unfoldable pub check_records : Option Bytes → List Record → Result Error (Unit {0})
check_records previous [] = ok tt
check_records previous (r ∷ records) = do
  validate r
  reject (not_before previous r.name) invalid_transport
  observed ← map_err metadata_error (encode_time_override r.observed_mtime)
  check_records (some r.name) records

unfoldable pub new : List Record → Result Error Transport
new records = do
  reject (ltb max_records (length records)) transport_too_large
  check_records none records
  ok (record { records = records })

abbrev pub bit_if : Bool → ℕ → ℕ
bit_if b bit = if b then bit else 0

-- `absent_times | (u8::from(acl_override) << 3) | (u8::from(finder_override) << 4)`
unfoldable pub flags_of : Record → ℕ
flags_of r = bit_or (bit_or r.absent_times (bit_if r.acl_override 8)) (bit_if r.finder_override 16)

-- One count after the other, each within the limit.
unfoldable pub add_counts : ℕ → List ℕ → Result Error ℕ
add_counts size [] = ok size
add_counts size (count ∷ counts) = do
  next ← ok_or (checked_add size count) transport_too_large
  reject (ltb max_bytes next) transport_too_large
  add_counts next counts

unfoldable pub encoded_len : ℕ → List Record → Result Error ℕ
encoded_len size [] = ok size
encoded_len size (r ∷ records) = do
  observed ← map_err metadata_error (encode_time_override r.observed_mtime)
  blob ← map_err metadata_error (Encoding.encoded_len r.metadata)
  next ← add_counts size (9 ∷ length (as_bytes observed) ∷ length r.name ∷ blob ∷ [])
  encoded_len next records

-- `binary_search_by` on the names. The fuel bounds the halvings.
unfoldable pub search : ℕ → List Record → Bytes → Option ℕ
search zero records name = none
search (suc fuel) records name = elim (get_elem? records (length records / 2)) [
  | none ↦ none
  | some r ↦ elim (cmp r.name name) [
    | Ordering.lt ↦
        Option.map (λ i. length records / 2 + 1 + i)
          (search fuel (drop (length records / 2 + 1) records) name)
    | Ordering.eq ↦ some (length records / 2)
    | Ordering.gt ↦ search fuel (take (length records / 2) records) name
  ]
]

unfoldable pub find : Transport → Bytes → Option Record
find t name = elim (search (length t.records) t.records name) [
  | none ↦ none
  | some i ↦ get_elem? t.records i
]

module _ (reserve : ℕ → Bool) where
  unfoldable pub record_chunks : Record → Result Error Bytes
  record_chunks r = do
    blob ← map_err metadata_error (Encoding.encode reserve r.metadata)
    observed ← map_err metadata_error (encode_time_override r.observed_mtime)
    ok (
        to_le 4 (length r.name)
        ++ (to_le 4 (length blob) ++ (flags_of r ∷ (as_bytes observed ++ (r.name ++ blob)))))

  unfoldable pub put_records : Bytes → List Record → Result Error Bytes
  put_records output [] = ok output
  put_records output (r ∷ records) = do
    bytes ← record_chunks r
    put_records (output ++ bytes) records

  unfoldable pub encode : Transport → Result Error Bytes
  encode t = do
    size ← encoded_len (length magic + 4) t.records
    reject (not (reserve size)) out_of_memory
    put_records (magic ++ to_le 4 (length t.records)) t.records
