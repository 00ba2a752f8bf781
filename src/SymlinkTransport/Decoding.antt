-- ===== src/SymlinkTransport/Decoding.antt =====
-- rust/src/symlink_transport.rs, `decode`: the bounded reader of the attribute.
use difz.Prelude.{
  ℕ, zero, suc, ◌-◌, ◌/◌, Bool, not, List, [], ◌∷◌, Option, none, some, bit_and, ltb, ◌==◌, length,
  if◌then◌else◌, Result, ok, err, map_err, reject,
}
use difz.Prelude.Bytes.{Bytes, bytes_eq}
use difz.Prelude.Cursor
use difz.Prelude.Cursor.{Cursor, Reader, pure, lift, ◌>>=◌, ◌>>◌}
use difz.Metadata.Kinds
use difz.Metadata.Time.{decode_time_override}
use difz.Metadata.Decoding
use difz.SymlinkTransport.{
  Error, invalid_transport, transport_too_large, out_of_memory, max_bytes, magic, Record, Transport,
  has_bit, not_before, validate,
}

-- The methods of `Reader`.
unfoldable pub take : ℕ → Reader Error Bytes
take = Cursor.take_bytes invalid_transport

unfoldable pub byte : Reader Error ℕ
byte = Cursor.byte invalid_transport

unfoldable pub word : Reader Error ℕ
word = Cursor.word invalid_transport 4

-- `&bytes[begin..reader.position]`: a byte 0, or a byte 1 and twelve more.
unfoldable pub override_from : ℕ → Reader Error Bytes
override_from tag =
    if tag == 0
    then pure (0 ∷ [])
    else if tag == 1
    then (do time ← take 12; pure (1 ∷ time))
    else lift (err invalid_transport)

abbrev pub record_error : Kinds.Error → Error
record_error Kinds.Error.out_of_memory = out_of_memory
record_error _ = invalid_transport

-- Forged counts are rejected before storage is requested.
unfoldable pub check_count : (ℕ → Bool) → ℕ → Reader Error (Unit {0})
check_count reserve count c =
    if ltb ((length c.bytes - c.offset) / 31) count
    then err invalid_transport
    else if reserve count
    then ok (tt, c)
    else err out_of_memory

module _ (reserve : ℕ → Bool) where
  -- One record, behind the name of the record before it.
  unfoldable pub next : Option Bytes → Reader Error Record
  next previous = do
    name_size ← word
    record_size ← word
    flags ← byte
    lift (reject (not (bit_and flags 0xe0 == 0)) invalid_transport)
    tag ← byte
    bytes ← override_from tag
    observed ← lift (map_err (λ e. invalid_transport) (decode_time_override bytes))
    name ← take name_size
    blob ← take record_size
    metadata ← lift (map_err record_error (Decoding.decode reserve blob))
    lift (
        validate (record {
          name = name;
          metadata = metadata;
          absent_times = bit_and flags 7;
          observed_mtime = observed;
          acl_override = has_bit flags 8;
          finder_override = has_bit flags 16;
        }))
    lift (reject (not_before previous name) invalid_transport)
    pure (record {
      name = name;
      metadata = metadata;
      absent_times = bit_and flags 7;
      observed_mtime = observed;
      acl_override = has_bit flags 8;
      finder_override = has_bit flags 16;
    })

  unfoldable pub read_records : ℕ → Option Bytes → Reader Error (List Record)
  read_records zero previous = pure []
  read_records (suc n) previous = do
    r ← next previous
    rest ← read_records n (some r.name)
    pure (r ∷ rest)

  unfoldable pub transport : Reader Error (List Record)
  transport = do
    start ← take 9
    lift (reject (not (bytes_eq start magic)) invalid_transport)
    count ← word
    check_count reserve count
    read_records count none

  unfoldable pub finish : Result Error (List Record × Cursor) → Result Error Transport
  finish (err e) = err e
  finish (ok (records, c)) =
      if c.offset == length c.bytes
      then ok (record { records = records })
      else err invalid_transport

  unfoldable pub decode : Bytes → Result Error Transport
  decode bytes =
      if ltb max_bytes (length bytes)
      then err transport_too_large
      else finish (transport (record { bytes = bytes; offset = 0 }))
