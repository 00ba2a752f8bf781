-- ===== src/File/Codec.antt =====
-- rust/zstdz/src/lib.rs: the limits around the compression library, which is a parameter.
pub mod Window
use difz.Prelude.{
  ℕ, ◌+◌, ◌-◌, ◌/◌, ◌^◌, ◌<◌, ◌≤◌, zero, suc, Bool, ◌||◌, ◌&&◌, not, List, [], ◌∷◌, ◌++◌, Option,
  none, some, ltb, leb, ◌==◌, min, max, length, is_empty, if◌then◌else◌, Result, ok, err, ◌>>=◌,
  ◌>>◌, reject,
}
use difz.Prelude.Bytes.{Bytes}

pub data CodecError : Type 0 where
  out_of_memory window_too_large compression_failed decompression_failed : CodecError

abbrev pub max_input_len : ℕ
max_input_len = 2 ^ 31

-- `64 - n.leading_zeros()`: the number of binary digits of a 64-bit word.
abbrev digits : ℕ → ℕ → ℕ
digits zero n = 0
digits (suc fuel) n = let rest = digits fuel (n / 2) in if n == 0 then 0 else suc rest

unfoldable pub bit_length : ℕ → ℕ
bit_length n = digits 64 n

-- `clamp(10, 31)`
unfoldable pub window_log : ℕ → ℕ → Result CodecError ℕ
window_log source target = do
  reject (ltb max_input_len source || ltb max_input_len target) window_too_large
  ok (min 31 (max 10 (bit_length (max source target))))

-- `ZSTD_compressionParameters`, of which the source copies each field.
pub record CParams : Type 0 where
  pub chain_log : ℕ
  pub hash_log : ℕ
  pub search_log : ℕ
  pub min_match : ℕ
  pub target_length : ℕ
  pub strategy : ℕ

pub data Parameter : Type 0 where
  compression_level nb_workers enable_long_distance_matching window_log_parameter : Parameter
  chain_log_parameter hash_log_parameter search_log_parameter min_match_parameter : Parameter
  target_length_parameter strategy_parameter : Parameter

-- The library behind the bindings. `false` and `none` stand for an error status or a null context;
-- `btlazy2` is the number of a generated constant.
pub record Native : Type 0 where
  pub btlazy2 : ℕ
  pub create_cctx : Bool
  pub get_cparams : ℕ → ℕ → CParams
  pub set_parameter : Parameter → ℕ → Bool
  pub ref_prefix : Bytes → Bool
  pub compress_bound : ℕ → Option ℕ
  pub compress2 : List (Parameter × ℕ) → Bytes → Bytes → ℕ → Option Bytes
  pub create_dctx : Bool
  pub set_max_window : ℕ → Bool
  pub dctx_ref_prefix : Bytes → Bool
  pub decompress : ℕ → Bytes → Bytes → ℕ → Option Bytes

-- `checked(status, error)?` for a call whose status alone counts.
abbrev checked : Bool → CodecError → Result CodecError (Unit {0})
checked succeeded e = reject (not succeeded) e

abbrev pub checked_value {ℓ} : {A : Type ℓ} → Option A → CodecError → Result CodecError A
checked_value none e = err e
checked_value (some a) e = ok a

abbrev one_if : Bool → ℕ
one_if b = if b then 1 else 0

-- The ten parameters that are set, in order; `raw_log` is `usize::BITS - leading_zeros`.
unfoldable pub settings : CParams → ℕ → ℕ → ℕ → List (Parameter × ℕ)
settings p raw_log cycle_log window =
    (compression_level, 9)
    ∷ (nb_workers, 0)
    ∷ (enable_long_distance_matching, one_if (ltb cycle_log raw_log))
    ∷ (window_log_parameter, window)
    ∷ (chain_log_parameter, p.chain_log)
    ∷ (hash_log_parameter, p.hash_log)
    ∷ (search_log_parameter, p.search_log)
    ∷ (min_match_parameter, p.min_match)
    ∷ (target_length_parameter, p.target_length)
    ∷ (strategy_parameter, p.strategy)
    ∷ []

module _ (native : Native) (reserve : ℕ → Bool) where
  open native use {
    btlazy2, create_cctx, get_cparams, set_parameter, ref_prefix, compress_bound, compress2,
    create_dctx, set_max_window, dctx_ref_prefix, decompress,
  }

  unfoldable pub set_all : List (Parameter × ℕ) → Result CodecError (Unit {0})
  set_all [] = ok tt
  set_all ((parameter, value) ∷ rest) = do
    checked (set_parameter parameter value) compression_failed
    set_all rest

  -- `chain_log.checked_sub(u32::from(strategy >= btlazy2))`
  unfoldable pub cycle_log : CParams → Result CodecError ℕ
  cycle_log p = do
    reject (ltb p.chain_log (one_if (leb btlazy2 p.strategy))) compression_failed
    ok (p.chain_log - one_if (leb btlazy2 p.strategy))

  -- On failure the output that the caller holds is unchanged: the result is an error without one.
  unfoldable pub append_frame : Bytes → Bytes → Bytes → Result CodecError Bytes
  append_frame source target output = do
    window ← window_log (length source) (length target)
    reject (not create_cctx) out_of_memory
    let p = get_cparams (length target) (length source)
    cycle ← cycle_log p
    let parameters = settings p (bit_length (max (length source) (length target))) cycle window
    set_all parameters
    reject (not (is_empty source) && not (ref_prefix source)) compression_failed
    bound ← checked_value (compress_bound (length target)) compression_failed
    reject (not (reserve bound)) out_of_memory
    frame ← checked_value (compress2 parameters source target bound) compression_failed
    reject (ltb bound (length frame)) compression_failed
    ok (output ++ frame)

  unfoldable pub decode : Bytes → Bytes → ℕ → Result CodecError Bytes
  decode source frame expected = do
    window ← window_log (length source) expected
    reject (not (reserve expected)) out_of_memory
    reject (not create_dctx) out_of_memory
    checked (set_max_window max_input_len) decompression_failed
    reject (not (is_empty source) && not (dctx_ref_prefix source)) decompression_failed
    output ← checked_value (decompress max_input_len source frame expected) decompression_failed
    reject (not (length output == expected)) decompression_failed
    ok output
