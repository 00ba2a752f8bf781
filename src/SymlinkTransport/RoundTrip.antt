-- ===== src/SymlinkTransport/RoundTrip.antt =====
-- rust/src/symlink_transport.rs: `encode`, and `decode` behind it.
pub mod Records
use native.Mathlib.Nat.{le-div_iff_mul-le}
use difz.Prelude.{
  ℕ, ◌+◌, ◌-◌, ◌/◌, ◌^◌, ◌<◌, ◌≤◌, ◌≡◌, refl, sym, ap, ◌∙◌, Bool, true, false, not, List, [], ◌∷◌,
  ◌++◌, append-nil, Option, none, some, arith, bit_and, concat_map, length, length-append,
  length-concat_map, ltb, ◌==◌, ==_iff, ==_refl, le→ltb_false, not-false, Result, ok, map_err,
  reject, reject-or, >>-eq-ok, >>=-eq-ok, reject-eq-ok, map_err-eq-ok, All, subst, if◌then◌else◌,
}
use difz.Prelude.Bits.{clear_seven}
use difz.Prelude.Bits.Flags.{packed-high, packed-low, packed-first, packed-second}
use difz.Prelude.Bytes.{Bytes, bytes_eq, bytes_eq_refl, to_le, length-to_le}
use difz.Prelude.Cursor.{Cursor, Reader, pure, lift, ◌>>=◌, ◌>>◌, at}
use difz.Prelude.Cursor.Reads.{
  Reads, Reads-pure, Reads-lift, Reads-bind, Reads-take_bytes, Reads-word, Reads-byte, Reads-all,
}
use difz.Metadata.Time.{Time, encode_time_override, decode_time_override, time_bytes}
use difz.Metadata.Time.Overrides.{
  InRange, IsCivil, option_bytes, encode_time_override-bytes, decode_time_override-bytes,
  length-time_bytes,
}
use difz.Metadata.Records.{IsTyped}
use difz.Metadata.Validation
use difz.Metadata.Decoding
use difz.Metadata.Decoding.RoundTrip.{decode-written}
use difz.Metadata.Encoding.Layout.{written}
use difz.Metadata.Encoding.Sizes.{written_size}
use difz.Directory.Paths.{validate_path}
use difz.Directory.Paths.Sizes.{path_size, not_empty}
use difz.SymlinkTransport.{
  Error, invalid_transport, transport_too_large, metadata_error, max_bytes, max_records, magic,
  Record, Transport, has_bit, validate, not_before, check_records, new, flags_of, encode,
}
use difz.SymlinkTransport.Decoding.{
  take, byte, word, override_from, record_error, check_count, next, read_records, transport, finish,
  decode,
}
use difz.SymlinkTransport.Layout.{record_bytes, transport_bytes, encode-eq-ok_links}
use difz.SymlinkTransport.RoundTrip.Records.{
  IsSoundRecord, validate-name, Reads-check, option_size, Reads-next,
}

module _ (reserve : ℕ → Bool) (ample : (n : ℕ) → reserve n ≡ true) where
  -- Every record of a chain is as long as the reader's count check assumes.
  least_sizes :
      (previous : Option Bytes) (records : List Record)
      → check_records previous records ≡ ok tt
      → All (λ r. 31 ≤ length (record_bytes r)) records
  unfolding check_records option_bytes
  least_sizes previous [] h = tt
  least_sizes previous (r ∷ records) h =
      let (valid, h₁) = >>-eq-ok (validate r) _ h in
      let (_, h₂) = >>-eq-ok (reject (not_before previous r.name) invalid_transport) _ h₁ in
      let (_, _, h₃) =
        >>=-eq-ok (map_err metadata_error (encode_time_override r.observed_mtime)) _ h₂ in
      (
        omega (
          arith,
          length-append {0},
          length-to_le,
          option_size r.observed_mtime,
          validate-name r valid,
          written_size r.metadata.metadata,
        ),
        least_sizes (some r.name) records h₃,
      )

  Reads-records :
      (previous : Option Bytes) (records : List Record)
      → All IsSoundRecord records
      → check_records previous records ≡ ok tt
      → length (concat_map record_bytes records) < 2 ^ 32
      → Reads
          (read_records reserve (length records) previous)
          (concat_map record_bytes records)
          records
  unfolding read_records check_records
  Reads-records previous [] sound h small = Reads-pure []
  Reads-records previous (r ∷ records) (sound, sounds) h small =
      let (valid, h₁) = >>-eq-ok (validate r) _ h in
      let (before, h₂) = >>-eq-ok (reject (not_before previous r.name) invalid_transport) _ h₁ in
      let (inline, made, h₃) =
        >>=-eq-ok (map_err metadata_error (encode_time_override r.observed_mtime)) _ h₂ in
      let (_, civil) =
        encode_time_override-bytes r.observed_mtime inline (map_err-eq-ok metadata_error _ made) in
      let total = length-append (record_bytes r) (concat_map record_bytes records) in
      let first : Reads (next reserve previous) (record_bytes r) r =
        Reads-next reserve ample previous r sound valid (reject-eq-ok _ invalid_transport before)
          civil (omega (arith, total, small)) in
      let others = Reads-records (some r.name) records sounds h₃ (omega (arith, total, small)) in
      let tail : Reads
          (read_records reserve (length records) (some r.name) >>= λ rest. pure (r ∷ rest))
          (concat_map record_bytes records ++ []) (r ∷ records) =
        Reads-bind (read_records reserve (length records) (some r.name)) (λ rest. pure (r ∷ rest)) _
          [] records (r ∷ records) others (Reads-pure (r ∷ records)) in
      Reads-bind (next reserve previous) _ (record_bytes r) _ r (r ∷ records) first
        (rw append-nil at tail)

  count_passes :
      (count : ℕ) (c : Cursor)
      → count ≤ (length c.bytes - c.offset) / 31
      → check_count reserve count c ≡ ok (tt, c)
  unfolding check_count
  count_passes count c fits = rw (le→ltb_false _ _ fits, ample count) refl

  Reads-counted :
      (records : List Record)
      → All IsSoundRecord records
      → check_records none records ≡ ok tt
      → length (concat_map record_bytes records) < 2 ^ 32
      → Reads
          (check_count reserve (length records) >> read_records reserve (length records) none)
          (concat_map record_bytes records)
          records
  Reads-counted records sound h small = record { run = filled }
    where
      filled :
          (before rest : Bytes)
          → length (before ++ (concat_map record_bytes records ++ rest)) < 2 ^ 64
          → (check_count reserve (length records) >> read_records reserve (length records) none)
              (at before (concat_map record_bytes records ++ rest))
            ≡ ok (records, at (before ++ concat_map record_bytes records) rest)
      filled before rest short =
          let size = length-append (concat_map record_bytes records) rest in
          let total = length-append before (concat_map record_bytes records ++ rest) in
          let most = length-concat_map record_bytes 31 records (least_sizes none records h) in
          let thirty_one : 0 < 31 = omega arith in
          let fits : length records
              ≤ (length (before ++ (concat_map record_bytes records ++ rest)) - length before)
                / 31 =
            (le-div_iff_mul-le thirty_one).1 (omega (arith, size, total, most)) in
          rw
            (
              count_passes (length records) (at before (concat_map record_bytes records ++ rest))
                  fits,
              ◌>>=◌,
            )
            ((Reads-records none records sound h small).run before rest short)

  Reads-transport :
      (records : List Record)
      → All IsSoundRecord records
      → check_records none records ≡ ok tt
      → length (transport_bytes records) < 2 ^ 32
      → Reads (transport reserve) (transport_bytes records) records
  unfolding transport take word
  Reads-transport records sound h small =
      let body = concat_map record_bytes records in
      let most = length-concat_map record_bytes 31 records (least_sizes none records h) in
      let total = length-append (to_le 4 (length records)) body in
      Reads-bind (take 9) _ magic _ magic records (Reads-take_bytes invalid_transport 9 magic refl)
        (Reads-check (reject (not (bytes_eq magic magic)) invalid_transport) _ _ records
          (rw (bytes_eq_refl magic) refl)
          (Reads-bind word _ (to_le 4 (length records)) body (length records) records
            (Reads-word invalid_transport 4 (length records) (omega (arith, small, most, total)))
            (Reads-counted records sound h (omega (arith, small, total)))))

  -- If every allocation succeeds, every record is within its types and valid, `new` accepts the
  -- records and `encode` writes the transport, then `decode` returns the transport.
  pub decode-encode_links :
      (t : Transport) {bytes : Bytes}
      → All IsSoundRecord t.records
      → new t.records ≡ ok t
      → encode reserve t ≡ ok bytes
      → decode reserve bytes ≡ ok t
  unfolding decode finish new
  decode-encode_links t {bytes} sound made h =
      let (_, h₁) =
        >>-eq-ok (reject (ltb max_records (length t.records)) transport_too_large) _ made in
      let (checked, _) = >>-eq-ok (check_records none t.records) _ h₁ in
      let (whole, fits) = encode-eq-ok_links reserve t h in
      let size = ap (length {A = ℕ}) whole in
      let read =
        Reads-all (transport reserve) (transport_bytes t.records) t.records
          (Reads-transport t.records sound checked (omega (arith, fits, size)))
          (omega (arith, fits, size)) in
      rw
        (
          whole,
          le→ltb_false max_bytes _ (rw whole at fits),
          read,
          ==_refl (length (transport_bytes t.records)),
        )
        refl
