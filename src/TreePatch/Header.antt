-- ===== src/TreePatch/Header.antt =====
-- rust/src/tree_patch.rs: the header of a tree patch, with a checksum over itself and the body.
pub mod RoundTrip
pub mod Inversion
use difz.Prelude.{
  ℕ, ◌+◌, ◌-◌, ◌*◌, ◌/◌, ◌%◌, ◌^◌, ◌<◌, ◌≤◌, ◌≡◌, Bool, not, ◌||◌, List, [], ◌∷◌, ◌++◌, bit_and,
  bit_or, leb, ltb, ◌==◌, join, length, take, drop, if◌then◌else◌, Result, ok, map_err, ◌>>=◌, ◌>>◌,
  reject, All,
}
use difz.Prelude.Bytes.{Bytes, IsByte, bytes_eq, to_le, from_le}
use difz.Prelude.Text.{ascii}
use difz.Metadata.Omit
use difz.Metadata.Omit.{Omit}
use difz.TreePatch.{
  Error, limit_exceeded, unexpected_end_of_input, invalid_magic, unsupported_version,
  patch_hash_mismatch, reader_too_old, unsupported_flags, EnvelopeLimits,
}

abbrev pub header_len : ℕ
header_len = 120

abbrev pub checksum_offset : ℕ
checksum_offset = 88

abbrev pub version : ℕ
version = 2

abbrev pub magic : Bytes
magic = ascii "DIFZTREE"

pub record Header : Type 0 where
  pub needed_reader : ℕ
  pub root_metadata : Bool
  pub omit : Omit
  pub rule_count : ℕ
  pub entry_count : ℕ
  pub source_hash : Bytes
  pub target_hash : Bytes

-- What the fields' types guarantee; a mask has the bits of the six families.
pub record IsTyped (h : Header) : Type 0 where
  pub needed_reader : h.needed_reader < 2 ^ 16
  pub omit : h.omit.bits < 2 ^ 6
  pub rule_count : h.rule_count < 2 ^ 32
  pub entry_count : h.entry_count < 2 ^ 32
  pub source_hash : (length h.source_hash ≡ 32) × All IsByte h.source_hash
  pub target_hash : (length h.target_hash ≡ 32) × All IsByte h.target_hash

abbrev pub one_if : Bool → ℕ
one_if b = if b then 1 else 0

-- `(omit.bits() << 1) | u32::from(root_metadata)`
unfoldable pub flags_of : Header → ℕ
flags_of h = bit_or (h.omit.bits * 2 % 2 ^ 32) (one_if h.root_metadata)

-- The fields before the checksum, in the order of the `copy_from_slice`s.
unfoldable pub fields : Header → List Bytes
unfolding flags_of
fields h =
    magic
    ∷ to_le 2 version
    ∷ to_le 2 h.needed_reader
    ∷ to_le 4 (flags_of h)
    ∷ to_le 4 h.rule_count
    ∷ to_le 4 h.entry_count
    ∷ h.source_hash
    ∷ h.target_hash
    ∷ []

-- `encoded[low..high]`, and a word of four bytes.
abbrev pub slice : Bytes → ℕ → ℕ → Bytes
slice bytes low high = take (high - low) (drop low bytes)

unfoldable pub word : Bytes → ℕ → ℕ
word bytes offset = from_le (slice bytes offset (offset + 4))

module _ (blake3 : Bytes → Bytes) where
  -- Updates of the hasher concatenate.
  unfoldable pub checksum : Bytes → Bytes → Bytes
  checksum prefix body = blake3 (ascii "DIFZTREE-PATCH" ++ 2 ∷ (prefix ++ body))

  unfoldable pub encode : Header → Bytes → Bytes
  encode h body = join (fields h) ++ checksum (join (fields h)) body

  -- The checks of the fields behind the checksum, and the header that they hold.
  unfoldable pub decode_fields : Bytes → EnvelopeLimits → Result Error (Header × Bytes)
  unfolding word
  decode_fields bytes limits = do
    let body = drop header_len bytes
    let needed_reader = from_le (slice bytes 10 12)
    let flags = word bytes 12
    let rules = word bytes 16
    let entries = word bytes 20
    reject (ltb version needed_reader) reader_too_old
    reject (not (bit_and flags 0xffff_ff80 == 0)) unsupported_flags
    omit ← map_err (λ e. unsupported_flags) (Omit.from_bits (flags / 2))
    reject (ltb limits.max_rules rules || ltb limits.max_entries entries) limit_exceeded
    reject (ltb (length body / 9) rules || ltb ((length body - rules * 9) / 41) entries)
        unexpected_end_of_input
    ok (
      record {
        needed_reader = needed_reader;
        root_metadata = not (bit_and flags 1 == 0);
        omit = omit;
        rule_count = rules;
        entry_count = entries;
        source_hash = slice bytes 24 56;
        target_hash = slice bytes 56 88;
      },
      body,
    )

  unfoldable pub decode_prefix : Bytes → EnvelopeLimits → Result Error (Header × Bytes)
  decode_prefix bytes limits = do
    reject (ltb limits.max_patch_bytes (length bytes)) limit_exceeded
    reject (not (leb header_len (length bytes))) unexpected_end_of_input
    reject (not (bytes_eq (slice bytes 0 8) magic)) invalid_magic
    reject (not (from_le (slice bytes 8 10) == version)) unsupported_version
    reject
        (not (
          bytes_eq (checksum (take checksum_offset bytes) (drop header_len bytes))
            (slice bytes checksum_offset header_len)))
        patch_hash_mismatch
    decode_fields bytes limits
