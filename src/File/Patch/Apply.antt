-- ===== src/File/Patch/Apply.antt =====
-- rust/src/file.rs, `apply`: what a success establishes, and the errors of a wrong source.
use difz.Prelude.{
  ℕ, ◌≤◌, ◌≡◌, ◌≢◌, sym, ◌⊎◌, inl, inr, Bool, not, ◌&&◌, arith, ltb, ◌==◌, ==_iff, length, is_empty,
  ok, err, reject, map_err, >>=-eq-ok, >>-eq-ok, map_err-eq-ok, Bool-cases,
}
use difz.Prelude.Bytes.{Bytes, bytes_eq, bytes_eq→eq}
use difz.File.Codec
use difz.File.Codec.{CodecError, Native, Parameter, max_input_len, settings, bit_length}
use difz.File.Codec.Window.{window_log-eq-ok}
use difz.File.Header.{Header, decode_prefix}
use difz.File.Patch.{
  size_mismatch, source_hash_mismatch, target_hash_mismatch, from_codec, from_header,
  resource_limit_exceeded, window_log, check_source, reconstruct, apply,
}

within :
    (maximum target : ℕ)
    → reject (not (maximum == 0) && ltb maximum target) resource_limit_exceeded ≡ ok tt
    → (maximum ≡ 0) ⊎ (target ≤ maximum)
within maximum target h = ground arith

module _ (native : Native) (reserve : ℕ → Bool) (blake3 : Bytes → Bytes) where
  -- What the header says of both files.
  pub record IsBound (source output : Bytes) (maximum : ℕ) (h : Header) : Type 0 where
    pub source_len : h.source_len ≡ length source
    pub source_hash : h.source_hash ≡ blake3 source
    pub target_len : h.target_len ≡ length output
    pub target_hash : h.target_hash ≡ blake3 output
    pub limit : (maximum ≡ 0) ⊎ (length output ≤ maximum)
    pub window : (length source ≤ max_input_len) × (length output ≤ max_input_len)

  check_source-eq-ok :
      (source : Bytes) (h : Header)
      → check_source native reserve blake3 source h ≡ ok tt
      → (h.source_len ≡ length source) × (h.source_hash ≡ blake3 source)
  unfolding check_source
  check_source-eq-ok source h e = ground (arith, bytes_eq→eq h.source_hash (blake3 source))

  codec_decode-eq-ok :
      (source frame : Bytes) (expected : ℕ) {output : Bytes}
      → Codec.decode native reserve source frame expected ≡ ok output
      → length output ≡ expected
  unfolding Codec.decode
  codec_decode-eq-ok source frame expected {output} e =
      let (w, _, e₁) = >>=-eq-ok (Codec.window_log (length source) expected) _ e in
      let (_, e₂) = >>-eq-ok (reject (not (reserve expected)) CodecError.out_of_memory) _ e₁ in
      let (_, e₃) = >>-eq-ok (reject (not native.create_dctx) CodecError.out_of_memory) _ e₂ in
      let (_, e₄) =
        >>-eq-ok
          (reject (not (native.set_max_window max_input_len)) CodecError.decompression_failed) _
          e₃ in
      let (_, e₅) =
        >>-eq-ok
          (reject (not (is_empty source) && not (native.dctx_ref_prefix source))
            CodecError.decompression_failed)
          _ e₄ in
      let (out, _, e₆) =
        >>=-eq-ok
          (Codec.checked_value (native.decompress max_input_len source frame expected)
            CodecError.decompression_failed)
          _ e₅ in
      let (exact, e₇) =
        >>-eq-ok (reject (not (length out == expected)) CodecError.decompression_failed) _ e₆ in
      let same : out ≡ output = cc e₇ in rw (← same) (ground arith)

  reconstruct-eq-ok :
      (source : Bytes) (h : Header) (frame : Bytes) {output : Bytes}
      → reconstruct native reserve blake3 source h frame ≡ ok output
      → (h.target_len ≡ length output) × (h.target_hash ≡ blake3 output)
  unfolding reconstruct
  reconstruct-eq-ok source h frame {output} e =
      let (out, e₁, e₂) =
        >>=-eq-ok (map_err from_codec (Codec.decode native reserve source frame h.target_len)) _
          e in
      let size = codec_decode-eq-ok source frame h.target_len (map_err-eq-ok from_codec _ e₁) in
      let (hashed, e₃) =
        >>-eq-ok (reject (not (bytes_eq h.target_hash (blake3 out))) target_hash_mismatch) _ e₂ in
      let same : out ≡ output = cc e₃ in
      rw (← same) (sym size, ground (arith, bytes_eq→eq h.target_hash (blake3 out)))

  -- If `apply` succeeds, the patch begins with a header that is bound to both files: the header's
  -- lengths and hashes are those of the source and of the output, the output is within the limit
  -- unless that is 0, and both files are within the codec's limit.
  pub apply-eq-ok :
      (source patch : Bytes) (maximum : ℕ) (output : Bytes)
      → apply native reserve blake3 source patch maximum ≡ ok output
      → (h : Header) × (frame : Bytes) × (decode_prefix patch ≡ ok (h, frame))
        × IsBound source output maximum h
  unfolding apply window_log
  apply-eq-ok source patch maximum output e =
      let ((h, frame), e₁, r₁) = >>=-eq-ok (map_err from_header (decode_prefix patch)) _ e in
      let (checked, r₂) = >>-eq-ok (check_source native reserve blake3 source h) _ r₁ in
      let (limited, r₃) =
        >>-eq-ok (reject (not (maximum == 0) && ltb maximum h.target_len) resource_limit_exceeded) _
          r₂ in
      let (w, small, r₄) = >>=-eq-ok (window_log (length source) h.target_len) _ r₃ in
      let (source_len, source_hash) = check_source-eq-ok source h checked in
      let (target_len, target_hash) = reconstruct-eq-ok source h frame r₄ in
      let (source_fits, target_fits) =
        window_log-eq-ok (length source) h.target_len
          (map_err-eq-ok from_codec (Codec.window_log (length source) h.target_len) small) in
      (
        h,
        frame,
        map_err-eq-ok from_header (decode_prefix patch) e₁,
        record {
          source_len = source_len;
          source_hash = source_hash;
          target_len = target_len;
          target_hash = target_hash;
          limit = rw (← target_len) (within maximum h.target_len limited);
          window = (source_fits, rw (← target_len) target_fits);
        },
      )

  -- If a patch's header decodes and its source length or its source hash is not that of the
  -- source, `apply` fails with a size mismatch or a source hash mismatch.
  pub apply_wrong_source :
      (source patch : Bytes) (maximum : ℕ) (h : Header) (frame : Bytes)
      → decode_prefix patch ≡ ok (h, frame)
      → (h.source_len ≢ length source) ⊎ (h.source_hash ≢ blake3 source)
      → (apply native reserve blake3 source patch maximum ≡ err size_mismatch)
        ⊎ (apply native reserve blake3 source patch maximum ≡ err source_hash_mismatch)
  unfolding apply check_source
  apply_wrong_source source patch maximum h frame read wrong =
      elim (Bool-cases (h.source_len == length source)) [
        | inr other ↦ inl (rw (read, other))
        | inl same ↦ elim (Bool-cases (bytes_eq h.source_hash (blake3 source))) [
          | inr other ↦ inr (rw (read, same, other))
          | inl equal ↦ absurd (elim wrong [
            | inl ne ↦ ne ((==_iff h.source_len (length source)).0 same)
            | inr ne ↦ ne (bytes_eq→eq h.source_hash (blake3 source) equal)
          ])
        ]
      ]
