-- ===== src/Examples/File.antt =====
-- rust/src/file.rs, rust/src/lib.rs, rust/zstdz/src/lib.rs: headers and patches with a codec that stores.
use difz.Prelude.{
  ℕ, zero, suc, ◌+◌, ◌^◌, ◌≤◌, ◌≡◌, ◌≢◌, ◌⊎◌, inl, refl, sym, true, [], ◌∷◌, ◌++◌, some, arith,
  replicate, ok, err, All, max, ◌-◌, ◌↔◌, take,
}
use difz.Prelude.Bytes.{Bytes, IsByte, bytes_eq, to_le, from_le}
use difz.Examples.Inputs.{granted, are_bytes-All}
use difz.File.Codec
use difz.File.Codec.{
  Native, CParams, window_log, bit_length, settings, set_all, cycle_log, append_frame,
}
use difz.File.Codec.Window.{window_log_bounds}
use difz.File.Header
use difz.File.Header.{Header, HeaderError, magic, invalid_magic, decode_prefix}
use difz.File.Header.RoundTrip.{
  decode_prefix-encode, decode_prefix-eq-ok, decode_prefix-invalid_magic_iff,
}
use difz.File.Patch
use difz.File.Patch.{
  size_mismatch, source_hash_mismatch, header_for, encode, apply, check_source, reconstruct,
}
use difz.File.Patch.Apply.{IsBound, apply-eq-ok, apply_wrong_source}
use difz.File.Patch.RoundTrip.{IsHash, IsLossless, apply-encode}

abbrev pub storing : Native
storing = record {
  btlazy2 = 6;
  create_cctx = true;
  get_cparams = λ target source. record {
    chain_log = 16;
    hash_log = 17;
    search_log = 4;
    min_match = 5;
    target_length = 32;
    strategy = 5;
  };
  set_parameter = λ parameter value. true;
  ref_prefix = λ source. true;
  compress_bound = λ n. some (n + 64);
  compress2 = λ parameters source target bound. some target;
  create_dctx = true;
  set_max_window = λ n. true;
  dctx_ref_prefix = λ source. true;
  decompress = λ n source frame size. some frame;
}

abbrev pub constant_hash : Bytes → Bytes
constant_hash bytes = replicate 32 7

pub All-replicate : (n : ℕ) → All IsByte (replicate n 7)
All-replicate zero = tt
All-replicate (suc n) = (omega arith, All-replicate n)

pub constant_hash-IsHash : IsHash constant_hash
constant_hash-IsHash = record { size = λ bytes. refl; bytes = λ bytes. All-replicate 32 }

pub storing-IsLossless : IsLossless storing
storing-IsLossless = record {
  dctx = refl;
  window = refl;
  prefix = λ source. refl;
  inverse = λ parameters source target frame bound e. sym e;
}

abbrev old_file : Bytes
old_file = 1 ∷ 2 ∷ []

abbrev new_file : Bytes
new_file = 1 ∷ 3 ∷ 2 ∷ []

abbrev patch_header : Header
patch_header = record {
  source_hash = replicate 32 7;
  target_hash = replicate 32 7;
  source_len = 2;
  target_len = 3;
}

abbrev patch : Bytes
patch = Header.encode patch_header ++ new_file

patch_is : encode storing granted constant_hash old_file new_file ≡ ok patch
unfolding encode Header.encode Patch.window_log window_log bit_length append_frame cycle_log
    settings set_all header_for
patch_is = refl

patch_applies : apply storing granted constant_hash old_file patch 0 ≡ ok new_file
unfolding apply decode_prefix Header.encode check_source reconstruct Codec.decode Patch.window_log
    window_log bit_length bytes_eq to_le from_le
patch_applies = refl

bytes_of_patch : All IsByte patch
unfolding Header.encode to_le
bytes_of_patch = are_bytes-All patch refl

header_is_read : decode_prefix patch ≡ ok (patch_header, new_file)
unfolding decode_prefix Header.encode bytes_eq to_le from_le
header_is_read = refl

patch_header-IsTyped : Header.IsTyped patch_header
patch_header-IsTyped = record {
  source_hash = (refl, All-replicate 32);
  target_hash = (refl, All-replicate 32);
  source_len = omega arith;
  target_len = omega arith;
}

decode_prefix-encode_example :
    decode_prefix (Header.encode patch_header ++ new_file) ≡ ok (patch_header, new_file)
decode_prefix-encode_example = decode_prefix-encode patch_header new_file patch_header-IsTyped

decode_prefix-eq-ok_example :
    (patch ≡ Header.encode patch_header ++ new_file) × Header.IsTyped patch_header
decode_prefix-eq-ok_example =
    decode_prefix-eq-ok patch patch_header new_file bytes_of_patch header_is_read

decode_prefix-invalid_magic_iff_example :
    (decode_prefix (90 ∷ 68 ∷ 73 ∷ []) ≡ err invalid_magic) ↔ (take 5 (90 ∷ 68 ∷ 73 ∷ []) ≢ magic)
decode_prefix-invalid_magic_iff_example = decode_prefix-invalid_magic_iff (90 ∷ 68 ∷ 73 ∷ [])

abbrev large_file : ℕ
large_file = 5000

abbrev window : ℕ
window = 13

window_of_large_file : window_log large_file 300 ≡ ok window
unfolding window_log bit_length
window_of_large_file = refl

window_log_bounds_example :
    (10 ≤ window)
    × (window ≤ 31)
    × (large_file ≤ 2 ^ window)
    × (300 ≤ 2 ^ window)
    × ((window ≡ 10) ⊎ (2 ^ (window - 1) ≤ max large_file 300))
window_log_bounds_example = window_log_bounds large_file 300 window window_of_large_file

apply-encode_example : apply storing granted constant_hash old_file patch 0 ≡ ok new_file
apply-encode_example =
    apply-encode storing granted constant_hash constant_hash-IsHash storing-IsLossless (λ n. refl)
      old_file new_file patch patch_is

apply-eq-ok_example :
    (h : Header) × (frame : Bytes) × (decode_prefix patch ≡ ok (h, frame))
    × IsBound storing granted constant_hash old_file new_file 0 h
apply-eq-ok_example =
    apply-eq-ok storing granted constant_hash old_file patch 0 new_file patch_applies

apply_wrong_source_example :
    (apply storing granted constant_hash new_file patch 0 ≡ err size_mismatch)
    ⊎ (apply storing granted constant_hash new_file patch 0 ≡ err source_hash_mismatch)
apply_wrong_source_example =
    apply_wrong_source storing granted constant_hash new_file patch 0 patch_header new_file
      header_is_read (inl (λ e. absurd (omega (arith, e))))
