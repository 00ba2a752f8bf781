-- ===== src/File/Patch.antt =====
-- rust/src/file.rs: one patch is a header and a frame, bound to both files by their hashes.
pub mod Apply
pub mod RoundTrip
use difz.Prelude.{
  ℕ, ◌+◌, ◌^◌, ◌<◌, Bool, not, ◌&&◌, List, [], ◌∷◌, ◌++◌, ltb, ◌==◌, length, if◌then◌else◌, Result,
  ok, err, ◌>>=◌, ◌>>◌, reject, map_err,
}
use difz.Prelude.Bytes.{Bytes, bytes_eq}
use difz.File.Codec
use difz.File.Codec.{CodecError, Native}
use difz.File.Header
use difz.File.Header.{Header, HeaderError, header_len, decode_prefix}

pub data Error : Type 0 where
  out_of_memory invalid_magic truncated size_mismatch source_hash_mismatch : Error
  target_hash_mismatch window_too_large compression_failed decompression_failed : Error
  resource_limit_exceeded : Error

unfoldable pub from_codec : CodecError → Error
from_codec CodecError.out_of_memory = out_of_memory
from_codec CodecError.window_too_large = window_too_large
from_codec CodecError.compression_failed = compression_failed
from_codec CodecError.decompression_failed = decompression_failed

unfoldable pub from_header : HeaderError → Error
from_header HeaderError.invalid_magic = invalid_magic
from_header HeaderError.truncated = truncated

unfoldable pub window_log : ℕ → ℕ → Result Error ℕ
window_log source target = map_err from_codec (Codec.window_log source target)

-- The compression library, the allocator and the hash function are parameters.
module _ (native : Native) (reserve : ℕ → Bool) (blake3 : Bytes → Bytes) where
  unfoldable pub header_for : Bytes → Bytes → Header
  header_for source target = record {
    source_hash = blake3 source;
    target_hash = blake3 target;
    source_len = length source;
    target_len = length target;
  }

  unfoldable pub encode : Bytes → Bytes → Result Error Bytes
  encode source target = do
    window ← window_log (length source) (length target)
    let header = header_for source target
    reject (not (reserve header_len)) out_of_memory
    map_err from_codec (Codec.append_frame native reserve source target (Header.encode header))

  -- The checks between the header and the frame.
  unfoldable pub check_source : Bytes → Header → Result Error (Unit {0})
  check_source source header = do
    reject (not (header.source_len == length source)) size_mismatch
    reject (not (bytes_eq header.source_hash (blake3 source))) source_hash_mismatch

  unfoldable pub reconstruct : Bytes → Header → Bytes → Result Error Bytes
  reconstruct source header frame = do
    output ← map_err from_codec (Codec.decode native reserve source frame header.target_len)
    reject (not (bytes_eq header.target_hash (blake3 output))) target_hash_mismatch
    ok output

  -- A limit of 0 is no limit.
  unfoldable pub apply : Bytes → Bytes → ℕ → Result Error Bytes
  apply source patch maximum = do
    (header, frame) ← map_err from_header (decode_prefix patch)
    check_source source header
    reject (not (maximum == 0) && ltb maximum header.target_len) resource_limit_exceeded
    window ← window_log (length source) header.target_len
    reconstruct source header frame
