-- ===== src/SymlinkTransport/RoundTrip/Records.antt =====
-- rust/src/symlink_transport.rs: the reader of one record on what `encode` writes for it.
use difz.Prelude.{
  ℕ, ◌+◌, ◌^◌, ◌<◌, ◌≤◌, ◌≡◌, refl, sym, ap, ◌∙◌, Bool, true, false, not, [], ◌∷◌, ◌++◌, append-nil,
  Option, none, some, arith, bit_and, length, length-append, ◌==◌, ==_iff, not-false, Result, ok,
  map_err, reject, reject-or, >>-eq-ok, map_err-eq-ok, subst, if◌then◌else◌,
}
use difz.Prelude.Bits.{clear_seven}
use difz.Prelude.Bits.Flags.{packed-high, packed-low, packed-first, packed-second}
use difz.Prelude.Bytes.{Bytes, to_le, length-to_le}
use difz.Prelude.Cursor.{Reader, pure, lift, ◌>>=◌, ◌>>◌}
use difz.Prelude.Cursor.Reads.{
  Reads, Reads-pure, Reads-lift, Reads-bind, Reads-take_bytes, Reads-word, Reads-byte,
}
use difz.Metadata.Time.{Time, decode_time_override, time_bytes}
use difz.Metadata.Time.Overrides.{
  InRange, IsCivil, option_bytes, decode_time_override-bytes, length-time_bytes,
}
use difz.Metadata.Records.{IsTyped}
use difz.Metadata.Validation
use difz.Metadata.Decoding
use difz.Metadata.Decoding.RoundTrip.{decode-written}
use difz.Metadata.Encoding.Layout.{written}
use difz.Directory.Paths.{validate_path}
use difz.Directory.Paths.Sizes.{path_size, not_empty}
use difz.SymlinkTransport.{
  Error, invalid_transport, Record, has_bit, validate, not_before, flags_of,
}
use difz.SymlinkTransport.Decoding.{take, byte, word, override_from, record_error, next}
use difz.SymlinkTransport.Layout.{record_bytes}

-- What holds of every record by the types of its fields.
pub record IsSoundRecord (r : Record) : Type 0 where
  pub typed : IsTyped r.metadata.metadata
  pub valid : Validation.validate r.metadata.metadata ≡ ok tt
  pub absent_times : r.absent_times < 256
  pub observed : InRange r.observed_mtime

-- Facts of an accepted record: three bits of absent times and a name that is not empty.
validate-bits : (r : Record) → r.absent_times < 256 → validate r ≡ ok tt → r.absent_times < 8
unfolding validate
validate-bits r small h =
    let (_, h₁) = >>-eq-ok (reject _ invalid_transport) _ h in
    let (_, h₂) = >>-eq-ok (map_err (λ e. invalid_transport) (validate_path r.name)) _ h₁ in
    let (bits, _) = >>-eq-ok (reject _ invalid_transport) _ h₂ in
    let (high, _) = reject-or (has_bit r.absent_times 0xf8) _ invalid_transport bits in
    let zeros : bit_and r.absent_times 0xf8 ≡ 0 =
      (==_iff (bit_and r.absent_times 0xf8) 0).0 (not-false _ high) in
    omega (arith, zeros, clear_seven r.absent_times small)

pub validate-name : (r : Record) → validate r ≡ ok tt → 1 ≤ length r.name
unfolding validate
validate-name r h =
    let (_, h₁) = >>-eq-ok (reject _ invalid_transport) _ h in
    let (path, _) = >>-eq-ok (map_err (λ e. invalid_transport) (validate_path r.name)) _ h₁ in
    not_empty r.name (path_size r.name (map_err-eq-ok (λ e. invalid_transport) _ path)).0

-- A check that passes takes nothing.
pub Reads-check :
    {B : Type 0} (r : Result Error (Unit {0})) (k : Reader Error B) (ys : Bytes) (b : B)
    → r ≡ ok tt
    → Reads k ys b
    → Reads (lift r >> k) ys b
Reads-check r k ys b e rk = Reads-bind (lift r) (λ _. k) [] ys tt b (Reads-lift r tt e) rk

Reads-flags : (n : ℕ) → Reads byte (n ∷ []) n
unfolding byte
Reads-flags n = Reads-byte invalid_transport n

Reads-override :
    {B : Type 0} (o : Option Time) (k : Bytes → Reader Error B) (ys : Bytes) (b : B)
    → Reads (k (option_bytes o)) ys b
    → Reads (byte >>= λ tag. override_from tag >>= k) (option_bytes o ++ ys) b
unfolding byte override_from option_bytes take
Reads-override none k ys b rest =
    Reads-bind byte _ (0 ∷ []) ys 0 b (Reads-byte invalid_transport 0)
      (Reads-bind (override_from 0) k [] ys (0 ∷ []) b (Reads-pure (0 ∷ [])) rest)
Reads-override (some t) k ys b rest =
    let read : Reads (override_from 1) (time_bytes t ++ []) (1 ∷ time_bytes t) =
      Reads-bind (take 12) (λ time. pure (1 ∷ time)) (time_bytes t) [] _ _
        (Reads-take_bytes invalid_transport 12 (time_bytes t) (length-time_bytes t))
        (Reads-pure (1 ∷ time_bytes t)) in
    Reads-bind byte _ (1 ∷ []) (time_bytes t ++ ys) 1 b (Reads-byte invalid_transport 1) (
      Reads-bind (override_from 1) k (time_bytes t) ys (1 ∷ time_bytes t) b (rw append-nil at read)
        rest)

-- Bits 3 and 4 of the flags.
has_third : (b : Bool) → not ((if b then 8 else 0) == 0) ≡ b
has_third true = refl
has_third false = refl

has_fourth : (b : Bool) → not ((if b then 16 else 0) == 0) ≡ b
has_fourth true = refl
has_fourth false = refl

module _ (r : Record) (low : r.absent_times < 8) where
  flags-high : bit_and (flags_of r) 0xe0 ≡ 0
  unfolding flags_of
  flags-high = packed-high r.absent_times low r.acl_override r.finder_override

  flags-times : bit_and (flags_of r) 7 ≡ r.absent_times
  unfolding flags_of
  flags-times = packed-low r.absent_times low r.acl_override r.finder_override

  flags-acl : has_bit (flags_of r) 8 ≡ r.acl_override
  unfolding flags_of
  flags-acl =
      rw (packed-first r.absent_times low r.acl_override r.finder_override)
        (has_third r.acl_override)

  flags-finder : has_bit (flags_of r) 16 ≡ r.finder_override
  unfolding flags_of
  flags-finder =
      rw (packed-second r.absent_times low r.acl_override r.finder_override)
        (has_fourth r.finder_override)

pub option_size : (o : Option Time) → 1 ≤ length (option_bytes o)
unfolding option_bytes
option_size none = omega arith
option_size (some t) = omega arith

-- The record that the reader builds from the flags.
abbrev reread : Record → ℕ → Record
reread r flags = record {
  name = r.name;
  metadata = r.metadata;
  absent_times = bit_and flags 7;
  observed_mtime = r.observed_mtime;
  acl_override = has_bit flags 8;
  finder_override = has_bit flags 16;
}

reread_same :
    (r : Record) (flags : ℕ)
    → bit_and flags 7 ≡ r.absent_times
    → has_bit flags 8 ≡ r.acl_override
    → has_bit flags 16 ≡ r.finder_override
    → reread r flags ≡ r
reread_same r flags times acl finder = rw (times, acl, finder) refl

module _ (reserve : ℕ → Bool) (ample : (n : ℕ) → reserve n ≡ true) where
  pub Reads-next :
      (previous : Option Bytes) (r : Record)
      → IsSoundRecord r
      → validate r ≡ ok tt
      → not_before previous r.name ≡ false
      → IsCivil r.observed_mtime
      → length (record_bytes r) < 2 ^ 32
      → Reads (next reserve previous) (record_bytes r) r
  unfolding next word take
  Reads-next previous r sound valid before civil small = rw append-nil at read
    where
      low : r.absent_times < 8
      low = validate-bits r sound.absent_times valid

      size :
          (length (record_bytes r)
            ≡ 9
              + length (option_bytes r.observed_mtime)
              + length r.name
              + length (written r.metadata.metadata))
      size = omega (arith, length-append {0}, length-to_le)

      same : reread r (flags_of r) ≡ r
      same = reread_same r (flags_of r) (flags-times r low) (flags-acl r low) (flags-finder r low)

      read :
          Reads {E = Error} {A = Record}
            (next reserve previous)
            (to_le 4 (length r.name)
              ++ (to_le 4 (length (written r.metadata.metadata))
                  ++ ((flags_of r ∷ [])
                      ++ (option_bytes r.observed_mtime
                          ++ ([] ++ (r.name ++ (written r.metadata.metadata ++ [])))))))
            r
      read =
          let m = written r.metadata.metadata in
          Reads-bind word _ (to_le 4 (length r.name)) _ (length r.name) r
            (Reads-word invalid_transport 4 (length r.name) (omega (arith, size, small)))
            (Reads-bind word _ (to_le 4 (length m)) _ (length m) r
              (Reads-word invalid_transport 4 (length m) (omega (arith, size, small)))
              (Reads-bind byte _ (flags_of r ∷ []) _ (flags_of r) r (Reads-flags (flags_of r)) (
                Reads-check (reject (not (bit_and (flags_of r) 0xe0 == 0)) invalid_transport) _ _ r
                  (rw (flags-high r low) refl)
                  (Reads-override r.observed_mtime _ _ r (
                    Reads-bind
                      (lift (
                        map_err (λ e. invalid_transport)
                          (decode_time_override (option_bytes r.observed_mtime))))
                      _ [] _ r.observed_mtime r
                      (Reads-lift _ r.observed_mtime (
                        rw (decode_time_override-bytes r.observed_mtime sound.observed civil) refl))
                      (Reads-bind (take (length r.name)) _ r.name _ r.name r
                        (Reads-take_bytes invalid_transport (length r.name) r.name refl)
                        (Reads-bind (take (length m)) _ m [] m r
                          (Reads-take_bytes invalid_transport (length m) m refl)
                          (Reads-bind (lift (map_err record_error (Decoding.decode reserve m))) _ []
                            [] r.metadata r
                            (Reads-lift _ r.metadata (
                              rw
                                (decode-written reserve r.metadata.metadata ample sound.typed
                                  sound.valid (omega (arith, size, small)))
                                refl))
                            (Reads-check _ _ [] r (ap validate same ∙ valid) (
                              Reads-check (reject (not_before previous r.name) invalid_transport) _
                                [] r (rw before refl)
                                (subst (λ v. Reads {E = Error} {A = Record} (pure v) [] r)
                                  (sym same) (Reads-pure r))))))))))))
