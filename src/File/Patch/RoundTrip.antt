-- ===== src/File/Patch/RoundTrip.antt =====
-- rust/src/file.rs: `encode`, and `apply` behind it.
use difz.Prelude.{
  ℕ, ◌≤◌, ◌≡◌, refl, sym, Bool, true, false, not, ◌&&◌, List, ◌++◌, Option, none, some, arith, ltb,
  ==_refl, length, is_empty, ok, reject, >>=-eq-ok, >>-eq-ok, map_err-eq-ok, All, max, subst,
}
use difz.Prelude.Bytes.{Bytes, IsByte, bytes_eq_refl}
use difz.File.Codec
use difz.File.Codec.{CodecError, Native, Parameter, max_input_len, settings, bit_length}
use difz.File.Codec.Window.{window_log-eq-ok}
use difz.File.Header
use difz.File.Header.{Header, HeaderError, header_len, decode_prefix}
use difz.File.Header.RoundTrip.{decode_prefix-encode}
use difz.File.Patch.{
  out_of_memory, from_codec, window_log, header_for, encode, check_source, reconstruct, apply,
}

-- What the patch format relies on: a hash of 32 bytes, and a decompressor that inverts the
-- compressor given the same prefix and the exact capacity.
pub record IsHash (blake3 : Bytes → Bytes) : Type 0 where
  pub size : (bytes : Bytes) → length (blake3 bytes) ≡ 32
  pub bytes : (bytes : Bytes) → All IsByte (blake3 bytes)

pub record IsLossless (native : Native) : Type 0 where
  pub dctx : native.create_dctx ≡ true
  pub window : native.set_max_window max_input_len ≡ true
  pub prefix : (source : Bytes) → native.dctx_ref_prefix source ≡ true
  pub inverse :
      (parameters : List (Parameter × ℕ)) (source target frame : Bytes) (bound : ℕ)
      → native.compress2 parameters source target bound ≡ some frame
      → native.decompress max_input_len source frame (length target) ≡ some target

checked_value-eq-ok :
    {A : Type 0} (o : Option A) (e : CodecError) {a : A}
    → Codec.checked_value o e ≡ ok a
    → o ≡ some a
checked_value-eq-ok none e h = cc
checked_value-eq-ok (some b) e h = cc h

both_false : (b : Bool) → (not b && false) ≡ false
both_false true = refl
both_false false = refl

module _ (native : Native) (reserve : ℕ → Bool) (blake3 : Bytes → Bytes) where
  append_frame-eq-ok :
      (source target output : Bytes) {bytes : Bytes}
      → Codec.append_frame native reserve source target output ≡ ok bytes
      → (parameters : List (Parameter × ℕ)) × (bound : ℕ) × (frame : Bytes) × (native.compress2
            parameters source target bound
          ≡ some frame)
        × (bytes ≡ output ++ frame)
  unfolding Codec.append_frame
  append_frame-eq-ok source target output {bytes} e =
      let p = native.get_cparams (length target) (length source) in
      let (w, _, e₁) = >>=-eq-ok (Codec.window_log (length source) (length target)) _ e in
      let (_, e₂) = >>-eq-ok (reject (not native.create_cctx) CodecError.out_of_memory) _ e₁ in
      let (cycle, _, e₃) = >>=-eq-ok (Codec.cycle_log native reserve p) _ e₂ in
      let parameters = settings p (bit_length (max (length source) (length target))) cycle w in
      let (_, e₄) = >>-eq-ok (Codec.set_all native reserve parameters) _ e₃ in
      let (_, e₅) =
        >>-eq-ok
          (reject (not (is_empty source) && not (native.ref_prefix source))
            CodecError.compression_failed)
          _ e₄ in
      let (bound, _, e₆) =
        >>=-eq-ok
          (Codec.checked_value (native.compress_bound (length target))
            CodecError.compression_failed)
          _ e₅ in
      let (_, e₇) = >>-eq-ok (reject (not (reserve bound)) CodecError.out_of_memory) _ e₆ in
      let (frame, e₈, e₉) =
        >>=-eq-ok
          (Codec.checked_value (native.compress2 parameters source target bound)
            CodecError.compression_failed)
          _ e₇ in
      let (_, e₁₀) =
        >>-eq-ok (reject (ltb bound (length frame)) CodecError.compression_failed) _ e₉ in
      (
        parameters,
        bound,
        frame,
        checked_value-eq-ok (native.compress2 parameters source target bound) _ e₈,
        cc e₁₀,
      )

  check_source-header_for :
      (source target : Bytes)
      → check_source native reserve blake3 source (header_for native reserve blake3 source target)
        ≡ ok tt
  unfolding check_source header_for
  check_source-header_for source target =
      rw (==_refl (length source), bytes_eq_refl (blake3 source)) refl

  decode-inverse :
      IsLossless native
      → ((n : ℕ) → reserve n ≡ true)
      → (source target frame : Bytes) (w : ℕ)
      → Codec.window_log (length source) (length target) ≡ ok w
      → native.decompress max_input_len source frame (length target) ≡ some target
      → Codec.decode native reserve source frame (length target) ≡ ok target
  unfolding Codec.decode
  decode-inverse lossless ample source target frame w granted inverse =
      rw
        (
          granted,
          ample (length target),
          lossless.dctx,
          lossless.window,
          lossless.prefix source,
          both_false (is_empty source),
          inverse,
          ==_refl (length target),
        )
        refl

  reconstruct-inverse :
      IsLossless native
      → ((n : ℕ) → reserve n ≡ true)
      → (source target frame : Bytes) (w : ℕ)
      → Codec.window_log (length source) (length target) ≡ ok w
      → native.decompress max_input_len source frame (length target) ≡ some target
      → reconstruct native reserve blake3 source
          (header_for native reserve blake3 source target)
          frame
        ≡ ok target
  unfolding reconstruct header_for
  reconstruct-inverse lossless ample source target frame w granted inverse =
      rw
        (
          decode-inverse lossless ample source target frame w granted inverse,
          bytes_eq_refl (blake3 target),
        )
        refl

  header_for-IsTyped :
      IsHash blake3
      → (source target : Bytes) → length source ≤ max_input_len
      → length target ≤ max_input_len
      → Header.IsTyped (header_for native reserve blake3 source target)
  unfolding header_for
  header_for-IsTyped hash source target s t = record {
    source_hash = (hash.size source, hash.bytes source);
    target_hash = (hash.size target, hash.bytes target);
    source_len = omega (arith, s);
    target_len = omega (arith, t);
  }

  apply-joined :
      IsHash blake3
      → IsLossless native
      → ((n : ℕ) → reserve n ≡ true)
      → (source target frame : Bytes) (w : ℕ)
      → Codec.window_log (length source) (length target) ≡ ok w
      → native.decompress max_input_len source frame (length target) ≡ some target
      → apply native reserve blake3 source
          (Header.encode (header_for native reserve blake3 source target) ++ frame)
          0
        ≡ ok target
  unfolding apply window_log header_for
  apply-joined hash lossless ample source target frame w granted inverse =
      let header = header_for native reserve blake3 source target in
      let fits = window_log-eq-ok (length source) (length target) granted in
      rw
        (
          decode_prefix-encode header frame (header_for-IsTyped hash source target fits.0 fits.1),
          check_source-header_for source target,
          granted,
        )
        (reconstruct-inverse lossless ample source target frame w granted inverse)

  -- If the hash function returns 32 bytes, the decompressor inverts the compressor for the same
  -- source and the exact size, and every allocation succeeds, then applying a patch that `encode`
  -- returned for a source and a target to that source, without a limit, succeeds and returns the
  -- target.
  pub apply-encode :
      IsHash blake3
      → IsLossless native
      → ((n : ℕ) → reserve n ≡ true)
      → (source target patch : Bytes) → encode native reserve blake3 source target ≡ ok patch
      → apply native reserve blake3 source patch 0 ≡ ok target
  unfolding encode window_log
  apply-encode hash lossless ample source target patch e =
      let header = header_for native reserve blake3 source target in
      let (w, granted, e₁) = >>=-eq-ok (window_log (length source) (length target)) _ e in
      let (_, e₂) = >>-eq-ok (reject (not (reserve header_len)) out_of_memory) _ e₁ in
      let (parameters, bound, frame, compressed, joined) =
        append_frame-eq-ok source target (Header.encode header) (map_err-eq-ok from_codec _ e₂) in
      subst (λ bytes. apply native reserve blake3 source bytes 0 ≡ ok target) (sym joined)
        (apply-joined hash lossless ample source target frame w
          (map_err-eq-ok from_codec (Codec.window_log (length source) (length target)) granted)
          (lossless.inverse parameters source target frame bound compressed))

  -- A patch that `encode` returned begins with the header of its two files.
  pub encode-header :
      IsHash blake3
      → (source target patch : Bytes) → encode native reserve blake3 source target ≡ ok patch
      → (frame : Bytes) × (decode_prefix patch
          ≡ ok (header_for native reserve blake3 source target, frame))
  unfolding encode window_log
  encode-header hash source target patch e =
      let header = header_for native reserve blake3 source target in
      let (w, granted, e₁) = >>=-eq-ok (window_log (length source) (length target)) _ e in
      let (_, e₂) = >>-eq-ok (reject (not (reserve header_len)) out_of_memory) _ e₁ in
      let (parameters, bound, frame, compressed, joined) =
        append_frame-eq-ok source target (Header.encode header) (map_err-eq-ok from_codec _ e₂) in
      let fits =
        window_log-eq-ok (length source) (length target)
          (map_err-eq-ok from_codec (Codec.window_log (length source) (length target)) granted) in
      (
        frame,
        rw joined (
            decode_prefix-encode header frame
              (header_for-IsTyped hash source target fits.0 fits.1)),
      )
