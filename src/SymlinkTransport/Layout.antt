-- ===== src/SymlinkTransport/Layout.antt =====
-- rust/src/symlink_transport.rs, `encode`: what the writer puts, and how long it is.
use difz.Prelude.{
  ℕ, ◌+◌, ◌≤◌, ◌≡◌, sym, ap, ◌∙◌, Bool, not, List, [], ◌∷◌, ◌++◌, append-nil, append_assoc, some,
  arith, concat_map, length, length-append, ltb, ltb_false→le, ok, ok_or, map_err, reject, >>-eq-ok,
  >>=-eq-ok, reject-eq-ok, map_err-eq-ok, ok_or-eq-ok,
}
use difz.Prelude.Bytes.{Bytes, to_le, length-to_le}
use difz.Prelude.Cursor.{checked_add}
use difz.Metadata.Time.{as_bytes, encode_time_override}
use difz.Metadata.Time.Overrides.{option_bytes, encode_time_override-bytes}
use difz.Metadata.Encoding
use difz.Metadata.Encoding.Layout.{written, encode-eq-ok, encoded_len-eq-ok}
use difz.SymlinkTransport.{
  transport_too_large, out_of_memory, metadata_error, max_bytes, magic, Record, Transport, flags_of,
  add_counts, encoded_len, record_chunks, put_records, encode,
}

abbrev pub record_bytes : Record → Bytes
record_bytes r =
    to_le 4 (length r.name)
    ++ (to_le 4 (length (written r.metadata.metadata))
        ++ (flags_of r
            ∷ (option_bytes r.observed_mtime ++ (r.name ++ written r.metadata.metadata))))

abbrev pub transport_bytes : List Record → Bytes
transport_bytes records = magic ++ (to_le 4 (length records) ++ concat_map record_bytes records)

abbrev sum : List ℕ → ℕ
sum [] = 0
sum (n ∷ ns) = n + sum ns

add_counts-eq-ok :
    (size : ℕ) (counts : List ℕ) {total : ℕ}
    → size ≤ max_bytes
    → add_counts size counts ≡ ok total
    → (total ≡ size + sum counts) × (total ≤ max_bytes)
unfolding add_counts
add_counts-eq-ok size [] {total} small h =
    let same : size ≡ total = cc h in (omega (arith, same), omega (arith, same, small))
add_counts-eq-ok size (n ∷ ns) small h =
    let (next, first, h₁) = >>=-eq-ok (ok_or (checked_add size n) transport_too_large) _ h in
    let (low, later) = >>-eq-ok (reject (ltb max_bytes next) transport_too_large) _ h₁ in
    let added : next ≡ size + n = sum_of size n next (ok_or-eq-ok _ transport_too_large first) in
    let (total, high) =
      add_counts-eq-ok next ns (ltb_false→le _ _ (reject-eq-ok _ transport_too_large low)) later in
    (omega (arith, total, added), high)
  where
    sum_of : (a b n : ℕ) → checked_add a b ≡ some n → n ≡ a + b
    sum_of a b n e = ground arith

encoded_len-records :
    (size : ℕ) (records : List Record) {total : ℕ}
    → size ≤ max_bytes
    → encoded_len size records ≡ ok total
    → (total ≡ size + length (concat_map record_bytes records)) × (total ≤ max_bytes)
unfolding encoded_len
encoded_len-records size [] {total} small h =
    let same : size ≡ total = cc h in (omega (arith, same), omega (arith, same, small))
encoded_len-records size (r ∷ records) small h =
    let (observed, o, h₁) =
      >>=-eq-ok (map_err metadata_error (encode_time_override r.observed_mtime)) _ h in
    let (blob, b, h₂) = >>=-eq-ok (map_err metadata_error (Encoding.encoded_len r.metadata)) _ h₁ in
    let (next, n, h₃) =
      >>=-eq-ok (add_counts size (9 ∷ length (as_bytes observed) ∷ length r.name ∷ blob ∷ [])) _
        h₂ in
    let (bytes, _) =
      encode_time_override-bytes r.observed_mtime observed (map_err-eq-ok metadata_error _ o) in
    let record_size = encoded_len-eq-ok r.metadata (map_err-eq-ok metadata_error _ b) in
    let (added, low) = add_counts-eq-ok size _ small n in
    let (total, high) = encoded_len-records next records low h₃ in
    let tail = r.name ++ written r.metadata.metadata in
    (
      omega (
        arith,
        total,
        added,
        record_size,
        ap (length {A = ℕ}) bytes,
        length-append (record_bytes r) (concat_map record_bytes records),
        length-append {0},
        length-to_le 4 (length r.name),
        length-to_le 4 (length (written r.metadata.metadata)),
      ),
      high,
    )

module _ (reserve : ℕ → Bool) where
  record_chunks-eq-ok :
      (r : Record) {bytes : Bytes} → record_chunks reserve r ≡ ok bytes → bytes ≡ record_bytes r
  unfolding record_chunks
  record_chunks-eq-ok r {bytes} h =
      let (blob, b, h₁) =
        >>=-eq-ok (map_err metadata_error (Encoding.encode reserve r.metadata)) _ h in
      let (observed, o, h₂) =
        >>=-eq-ok (map_err metadata_error (encode_time_override r.observed_mtime)) _ h₁ in
      let (override, _) =
        encode_time_override-bytes r.observed_mtime observed (map_err-eq-ok metadata_error _ o) in
      let whole = encode-eq-ok reserve r.metadata (map_err-eq-ok metadata_error _ b) in
      sym (rw (← whole, ← override) (cc h₂))

  put_records-eq-ok :
      (output : Bytes) (records : List Record) {bytes : Bytes}
      → put_records reserve output records ≡ ok bytes
      → bytes ≡ output ++ concat_map record_bytes records
  unfolding put_records
  put_records-eq-ok output [] {bytes} h =
      let same : output ≡ bytes = cc h in rw (← same) (sym (append-nil output))
  put_records-eq-ok output (r ∷ records) h =
      let (bytes, first, later) = >>=-eq-ok (record_chunks reserve r) _ h in
      put_records-eq-ok (output ++ bytes) records later
      ∙ ap (λ t. (output ++ t) ++ concat_map record_bytes records) (record_chunks-eq-ok r first)
      ∙ append_assoc output (record_bytes r) (concat_map record_bytes records)

  -- What `encode` returned, and that it fits.
  pub encode-eq-ok_links :
      (t : Transport) {bytes : Bytes}
      → encode reserve t ≡ ok bytes
      → (bytes ≡ transport_bytes t.records) × (length bytes ≤ max_bytes)
  unfolding encode
  encode-eq-ok_links t h =
      let (size, sized, h₁) = >>=-eq-ok (encoded_len (length magic + 4) t.records) _ h in
      let (_, h₂) = >>-eq-ok (reject (not (reserve size)) out_of_memory) _ h₁ in
      let (total, fits) = encoded_len-records (length magic + 4) t.records (omega arith) sized in
      let whole =
        put_records-eq-ok (magic ++ to_le 4 (length t.records)) t.records h₂
        ∙ append_assoc magic (to_le 4 (length t.records)) (concat_map record_bytes t.records) in
      (
        whole,
        omega (
          arith,
          total,
          fits,
          ap (length {A = ℕ}) whole,
          length-append (to_le 4 (length t.records)) (concat_map record_bytes t.records),
          length-to_le 4 (length t.records),
        ),
      )
