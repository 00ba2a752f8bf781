-- ===== src/Metadata/Time.antt =====
-- rust/src/metadata.rs: times, and the two override records of the transport attributes.
pub mod RoundTrip
pub mod Overrides
use difz.Prelude.{
  ℕ, ◌+◌, ◌-◌, not, ◌&&◌, ◌||◌, [], ◌∷◌, ◌++◌, Option, none, some, leb, ◌==◌, length, take, drop,
  replicate, if◌then◌else◌, Result, ok, ◌>>=◌, ◌>>◌, reject, get_or,
}
use difz.Prelude.Bytes.{Bytes, bytes_eq, to_le, from_le}
use difz.Prelude.Integers.{ℤ, i64_to_word, word_to_i64}
use difz.Metadata.Kinds.{Error, invalid_nsec, bad_metadata}

pub record Time : Type 0 where
  pub sec : ℤ
  pub nsec : ℕ

abbrev pub nsec_limit : ℕ
nsec_limit = 1_000_000_000

-- The twelve bytes of a time, seconds first.
unfoldable pub time_bytes : Time → Bytes
time_bytes t = to_le 8 (i64_to_word t.sec) ++ to_le 4 t.nsec

unfoldable pub encode : Time → Result Error Bytes
unfolding time_bytes
encode t = do reject (leb nsec_limit t.nsec) invalid_nsec; ok (time_bytes t)

unfoldable pub decode : Bytes → Result Error Time
decode bytes = do
  reject (not (length bytes == 12)) bad_metadata
  let sec = word_to_i64 (from_le (take 8 bytes))
  let nsec = from_le (drop 8 bytes)
  reject (leb nsec_limit nsec) invalid_nsec
  ok (record { sec = sec; nsec = nsec })

pub record ModificationOverride : Type 0 where
  pub original : Option Time
  pub observed : Time

-- `InlineBytes<N>`: an array of N bytes of which the first `length` count.
pub record InlineBytes : Type 0 where
  pub bytes : Bytes
  pub size : ℕ

unfoldable pub as_bytes : InlineBytes → Bytes
as_bytes inline = take inline.size inline.bytes

unfoldable pub encode_time_override : Option Time → Result Error InlineBytes
encode_time_override none = ok (record { bytes = replicate 13 0; size = 1 })
encode_time_override (some time) = do
  bytes ← encode time
  ok (record { bytes = 1 ∷ bytes; size = 13 })

unfoldable pub decode_time_override : Bytes → Result Error (Option Time)
unfolding bytes_eq
decode_time_override bytes = if bytes_eq bytes (0 ∷ []) then ok none else do
  reject (not (length bytes == 13) || not (get_or bytes 0 0 == 1)) bad_metadata
  time ← decode (drop 1 bytes)
  ok (some time)

unfoldable pub encode_modification_override : ModificationOverride → Result Error InlineBytes
encode_modification_override value = do
  original ← encode_time_override value.original
  observed ← encode value.observed
  let prefix = as_bytes original
  let size = length prefix + length observed
  ok (record { bytes = prefix ++ (observed ++ replicate (25 - size) 0); size = size })

unfoldable pub decode_modification_override : Bytes → Result Error ModificationOverride
decode_modification_override bytes = do
  reject (not (length bytes == 13) && not (length bytes == 25)) bad_metadata
  let prefix = length bytes - 12
  original ← decode_time_override (take prefix bytes)
  observed ← decode (drop prefix bytes)
  ok (record { original = original; observed = observed })
