-- ===== src/File/Header.antt =====
-- rust/src/lib.rs: the fixed ZDIF v4 header.
pub mod RoundTrip
use difz.Prelude.{
  ℕ, ◌+◌, ◌-◌, ◌^◌, ◌<◌, ◌≡◌, Bool, true, false, not, ◌&&◌, List, [], ◌∷◌, ◌++◌, length, take, drop,
  leb, if◌then◌else◌, Result, ok, err, ◌>>=◌, ◌>>◌, reject, All,
}
use difz.Prelude.Bytes.{Bytes, IsByte, bytes_eq, to_le, from_le}
use difz.Prelude.Text.{ascii}

abbrev pub magic : Bytes
magic = ascii "ZDIF" ++ (4 ∷ [])

abbrev pub source_hash_at : ℕ
source_hash_at = 5

abbrev pub target_hash_at : ℕ
target_hash_at = source_hash_at + 32

abbrev pub source_length_at : ℕ
source_length_at = target_hash_at + 32

abbrev pub target_length_at : ℕ
target_length_at = source_length_at + 8

abbrev pub header_len : ℕ
header_len = target_length_at + 8

pub record Header : Type 0 where
  pub source_hash : Bytes
  pub target_hash : Bytes
  pub source_len : ℕ
  pub target_len : ℕ

pub data HeaderError : Type 0 where
  invalid_magic truncated : HeaderError

-- The five `copy_from_slice`s fill the array one after the other.
unfoldable pub encode : Header → Bytes
encode h =
    magic ++ (h.source_hash ++ (h.target_hash ++ (to_le 8 h.source_len ++ to_le 8 h.target_len)))

-- `encoded[low..high]`
abbrev pub slice : Bytes → ℕ → ℕ → Bytes
slice bytes low high = take (high - low) (drop low bytes)

-- A `get(..n)` that is absent differs from every slice; `try_into` on exact ranges cannot fail.
unfoldable pub decode_prefix : Bytes → Result HeaderError (Header × Bytes)
decode_prefix bytes = do
  reject (not (leb 5 (length bytes) && bytes_eq (take 5 bytes) magic)) invalid_magic
  reject (not (leb header_len (length bytes))) truncated
  ok (
    record {
      source_hash = slice bytes source_hash_at target_hash_at;
      target_hash = slice bytes target_hash_at source_length_at;
      source_len = from_le (slice bytes source_length_at target_length_at);
      target_len = from_le (slice bytes target_length_at header_len);
    },
    drop header_len bytes,
  )

-- What the fields' types guarantee.
pub record IsTyped (h : Header) : Type 0 where
  pub source_hash : (length h.source_hash ≡ 32) × All IsByte h.source_hash
  pub target_hash : (length h.target_hash ≡ 32) × All IsByte h.target_hash
  pub source_len : h.source_len < 2 ^ 64
  pub target_len : h.target_len < 2 ^ 64
