-- ===== src/Metadata/Decoding/RoundTrip.antt =====
-- rust/src/metadata_decode.rs: the decoder on the encodings of canonical records.
use difz.Prelude.{
  subst, ℕ, ◌+◌, ◌^◌, ◌<◌, ◌≤◌, ◌≡◌, refl, sym, ap, Bool, true, false, not, List, [], ◌∷◌, ◌++◌,
  append-nil, append_assoc, Option, none, some, arith, concat_map, join, length, length-append,
  Result, ok, err, ◌==◌, ==_refl, All, bit_and, is_some, if◌then◌else◌,
}
use difz.Prelude.Bytes.{Bytes, to_le, length-to_le}
use difz.Prelude.Cursor.{pure, ◌>>=◌}
use difz.Prelude.Cursor.Reads.{
  Reads, Reads-pure, Reads-bind, Reads-byte, Reads-all, Reads-take_bytes,
}
use difz.Metadata.Kinds.{truncated_metadata}
use difz.Metadata.Time.{Time}
use difz.Metadata.Records.{
  Xattr, Ace, Times, Hole, Metadata, OptionAll, IsTime, IsTyped, IsAce, IsHole,
}
use difz.Metadata.Validation.{CanonicalMetadata, new, validate}
use difz.Metadata.Validation.Sizes.{IsWire, IsCivil, XattrFits, FitsWire, validate-IsWire}
use difz.Metadata.Encoding.{
  time_flags, time_chunks, info_chunks, link_chunks, xattr_chunks, ace_chunks, hole_chunks, encode,
}
use difz.Metadata.Encoding.Layout.{
  written, sections, written-eq-sections, xattr_bytes, ace_bytes, hole_bytes, times_bytes,
  encode-written,
}
use difz.Metadata.Decoding.{
  byte, take, time_if, times, xattr, ace, hole, vector, native_acl, optional, blob, word32,
  metadata, decode,
}
use difz.Metadata.Decoding.Reading.{
  Reads-xattr, Reads-ace, Reads-hole, Reads-native_acl, Reads-time_if, Reads-optional, Reads-vector,
  Reads-word32, Reads-blob, blob_bytes,
}

-- The flag byte tells which times follow.
FlagsTell : Times → Type 0
FlagsTell t =
    ((bit_and (time_flags t) 0xf8 == 0) ≡ true)
    × (not (bit_and (time_flags t) 1 == 0) ≡ is_some t.mtime)
    × (not (bit_and (time_flags t) 2 == 0) ≡ is_some t.atime)
    × (not (bit_and (time_flags t) 4 == 0) ≡ is_some t.btime)

flags_tell : (a b c : Option Time) → FlagsTell (record { mtime = a; atime = b; btime = c })
unfolding FlagsTell time_flags
flags_tell none none none = (refl, refl, refl, refl)
flags_tell none none (some c) = (refl, refl, refl, refl)
flags_tell none (some b) none = (refl, refl, refl, refl)
flags_tell none (some b) (some c) = (refl, refl, refl, refl)
flags_tell (some a) none none = (refl, refl, refl, refl)
flags_tell (some a) none (some c) = (refl, refl, refl, refl)
flags_tell (some a) (some b) none = (refl, refl, refl, refl)
flags_tell (some a) (some b) (some c) = (refl, refl, refl, refl)

both :
    (o : Option Time)
    → OptionAll IsTime o
    → OptionAll IsCivil o
    → (t : Time) → o ≡ some t
    → IsTime t × (t.nsec < 1_000_000_000)
both none typed civil t e = cc
both (some s) typed civil t e =
    let same : s ≡ t = cc in subst (λ u. IsTime u × (u.nsec < 1_000_000_000)) same (typed, civil)

Reads-times :
    (t : Times)
    → OptionAll IsTime t.mtime
    → OptionAll IsTime t.atime
    → OptionAll IsTime t.btime
    → OptionAll IsCivil t.mtime
    → OptionAll IsCivil t.atime
    → OptionAll IsCivil t.btime
    → Reads times (times_bytes t) t
unfolding times byte FlagsTell
Reads-times t m a b mc ac bc =
    let (clear, first, second, third) = flags_tell t.mtime t.atime t.btime in
    let rest : Reads _
        (join (time_chunks t.mtime)
          ++ (join (time_chunks t.atime) ++ (join (time_chunks t.btime) ++ [])))
        t =
      Reads-bind (time_if (is_some t.mtime))
        (λ mtime. time_if (is_some t.atime) >>= λ atime. time_if (is_some t.btime) >>= λ btime.
          pure (record { mtime = mtime; atime = atime; btime = btime }))
        _ _ t.mtime t (Reads-time_if t.mtime (both t.mtime m mc))
        (Reads-bind (time_if (is_some t.atime)) _ _ _ t.atime _
          (Reads-time_if t.atime (both t.atime a ac))
          (Reads-bind (time_if (is_some t.btime)) _ _ _ t.btime _
            (Reads-time_if t.btime (both t.btime b bc)) (Reads-pure t))) in
    Reads-bind byte _ (time_flags t ∷ []) _ _ _ (Reads-byte truncated_metadata (time_flags t))
      (rw (clear, first, second, third) (rw append-nil at rest))

xattr_size : (xs : List Xattr) → All (λ x. 9 ≤ length (xattr_bytes x)) xs
unfolding xattr_chunks
xattr_size [] = tt
xattr_size (x ∷ xs) = (omega (arith, length-append {0}, length-to_le), xattr_size xs)

ace_size : (xs : List Ace) → All (λ x. 6 ≤ length (ace_bytes x)) xs
unfolding ace_chunks
ace_size [] = tt
ace_size (x ∷ xs) = (omega (arith, length-append {0}, length-to_le), ace_size xs)

hole_size : (xs : List Hole) → All (λ x. 16 ≤ length (hole_bytes x)) xs
unfolding hole_chunks
hole_size [] = tt
hole_size (x ∷ xs) = (omega (arith, length-append {0}, length-to_le), hole_size xs)

All-Reads-xattr : (xs : List Xattr) → All XattrFits xs → All (λ x. Reads xattr (xattr_bytes x) x) xs
All-Reads-xattr [] h = tt
All-Reads-xattr (x ∷ xs) ((name, value), rest) = (Reads-xattr x name value, All-Reads-xattr xs rest)

All-Reads-ace :
    (xs : List Ace)
    → All IsAce xs
    → All (λ a. FitsWire a.name) xs
    → All (λ a. Reads ace (ace_bytes a) a) xs
All-Reads-ace [] t h = tt
All-Reads-ace (x ∷ xs) ((bits, _), t) (name, rest) =
    (Reads-ace x bits name, All-Reads-ace xs t rest)

All-Reads-hole : (xs : List Hole) → All IsHole xs → All (λ h. Reads hole (hole_bytes h) h) xs
All-Reads-hole [] t = tt
All-Reads-hole (x ∷ xs) ((offset, size), t) = (Reads-hole x offset size, All-Reads-hole xs t)

Reads-info :
    (o : Option Bytes)
    → OptionAll (λ bytes. (length bytes ≡ 32) × All difz.Prelude.Bytes.IsByte bytes) o
    → Reads (optional (take 32)) (join (info_chunks o)) o
unfolding info_chunks take
Reads-info none h = Reads-optional _ [] none (λ bytes. bytes) (λ a e. cc)
Reads-info (some bytes) h = rw append-nil (
    Reads-optional _ [] (some bytes) (λ b. b)
      (λ b e.
        Reads-take_bytes truncated_metadata 32 b (let same : bytes ≡ b = cc in rw (← same) h.0)))

Reads-link :
    (o : Option Bytes) → OptionAll FitsWire o → Reads (optional blob) (join (link_chunks o)) o
unfolding link_chunks
Reads-link none h = Reads-optional _ [] none (λ bytes. bytes) (λ a e. cc)
Reads-link (some path) h = rw append-nil (
    Reads-optional _ [] (some path) blob_bytes
      (λ b e. Reads-blob b (let same : path ≡ b = cc in rw (← same) h)))

abbrev pub Ample : (ℕ → Bool) → Type 0
Ample reserve = (n : ℕ) → reserve n ≡ true

pub Reads-metadata :
    (reserve : ℕ → Bool) (m : Metadata)
    → Ample reserve
    → IsTyped m
    → IsWire m
    → Reads (metadata reserve) (sections m) m
unfolding metadata
Reads-metadata reserve m ample t w =
    Reads-bind (vector reserve 9 xattr) _ _ _ m.xattrs _
      (Reads-vector reserve 9 xattr xattr_bytes m.xattrs (omega arith) w.xattr_count (ample _)
        (xattr_size m.xattrs) (All-Reads-xattr m.xattrs w.xattrs))
      (Reads-bind (vector reserve 6 ace) _ _ _ m.aces _
        (Reads-vector reserve 6 ace ace_bytes m.aces (omega arith) w.ace_count (ample _)
          (ace_size m.aces) (All-Reads-ace m.aces t.aces w.aces))
        (Reads-bind native_acl _ _ _ m.native_acl _ (Reads-native_acl m.native_acl w.native_acl) (
          Reads-bind times _ _ _ m.times _
            (Reads-times m.times t.mtime t.atime t.btime w.mtime w.atime w.btime)
            (Reads-bind word32 _ _ _ m.finder_flags _ (Reads-word32 m.finder_flags t.finder_flags) (
              Reads-bind (optional (take 32)) _ _ _ m.finder_info _
                (Reads-info m.finder_info t.finder_info)
                (Reads-bind (vector reserve 16 hole) _ _ _ m.holes _
                  (Reads-vector reserve 16 hole hole_bytes m.holes (omega arith) w.hole_count
                    (ample _) (hole_size m.holes) (All-Reads-hole m.holes t.holes))
                  (rw append-nil at (
                    Reads-bind (optional blob) (λ link. pure (record m { hardlink_to = link })) _ []
                      m.hardlink_to m (Reads-link m.hardlink_to w.hardlink_to)
                      (Reads-pure m)))))))))

-- The bytes that the encoder writes for a canonical record decode to that record.
pub decode-written :
    (reserve : ℕ → Bool) (m : Metadata)
    → Ample reserve
    → IsTyped m
    → validate m ≡ ok tt
    → length (written m) < 2 ^ 64
    → decode reserve (written m) ≡ ok (record { metadata = m })
unfolding decode new
decode-written reserve m ample t valid fits =
    let layout = written-eq-sections m in
    let read =
      Reads-all (metadata reserve) (sections m) m
        (Reads-metadata reserve m ample t (validate-IsWire m valid)) (rw layout at fits) in
    rw (layout, read, ==_refl (length (sections m)), valid)

-- If a canonical record is valid, its fields are within their types, its encoding is shorter than
-- 2^64 bytes and every allocation succeeds, then `encode` succeeds and `decode` of its bytes
-- returns the record.
pub decode-encode :
    (reserve : ℕ → Bool) (c : CanonicalMetadata)
    → Ample reserve
    → IsTyped c.metadata
    → validate c.metadata ≡ ok tt
    → length (written c.metadata) < 2 ^ 64
    → (bytes : Bytes) × (encode reserve c ≡ ok bytes) × (decode reserve bytes ≡ ok c)
decode-encode reserve c ample t valid fits = (
  written c.metadata,
  encode-written reserve c fits (ample _),
  decode-written reserve c.metadata ample t valid fits,
)
