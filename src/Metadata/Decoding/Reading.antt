-- ===== src/Metadata/Decoding/Reading.antt =====
-- rust/src/metadata_decode.rs: each reader of the decoder on what is written for its field.
use native.Mathlib.Nat.{le-div_iff_mul-le}
use difz.Prelude.{
  lt→leb_false, ℕ, ◌-◌, ◌/◌, ◌^◌, ◌<◌, ◌≤◌, ◌≡◌, refl, Bool, true, false, List, [], ◌∷◌, ◌++◌,
  append-nil, append_assoc, Option, none, some, arith, concat_map, join, length, length-append,
  length-concat_map, le→ltb_false, ok, ◌==◌, All, is_some, take-append, drop-append,
}
use difz.Prelude.Bits.{clear_seven}
use difz.Prelude.Bytes.{Bytes, to_le, length-to_le, from_le-to_le}
use difz.Prelude.Cursor.{Cursor, Reader, pure, lift, ◌>>=◌, ◌>>◌, repeat, at}
use difz.Prelude.Cursor.Reads.{
  Reads, Reads-pure, Reads-lift, Reads-bind, Reads-take_bytes, Reads-word, Reads-byte, Reads-repeat,
}
use difz.Prelude.Integers.{i64_to_word, i64_to_word-lt, word_to_i64-i64_to_word}
use difz.Metadata.Kinds.{
  Error, class_tag, class_try_from, ace_tag, ace_try_from, os_tag, os_try_from, truncated_metadata,
  XattrClass, logical, raw, AceTag, owner, group, everyone, named_user, named_group, mask, Os,
  linux, macos, mswin,
}
use difz.Metadata.Time
use difz.Metadata.Time.{Time}
use difz.Metadata.Records.{
  Xattr, Ace, NativeAcl, Hole, Permissions, permissions_from_bits, IsTime, OptionAll,
}
use difz.Metadata.Encoding.{xattr_chunks, ace_chunks, native_acl_chunks, time_chunks, hole_chunks}
use difz.Metadata.Encoding.Layout.{xattr_bytes, ace_bytes, hole_bytes, counted}
use difz.Metadata.Decoding.{
  take, byte, word32, word64, blob, time, check_count, vector, xattr, ace, native_acl_from,
  native_acl, time_if, optional_from, optional, hole,
}

class_try_from-class_tag : (c : XattrClass) → class_try_from (class_tag c) ≡ ok c
unfolding class_try_from class_tag
class_try_from-class_tag logical = refl
class_try_from-class_tag raw = refl

os_try_from-os_tag : (o : Os) → os_try_from (os_tag o) ≡ ok o
unfolding os_try_from os_tag
os_try_from-os_tag linux = refl
os_try_from-os_tag macos = refl
os_try_from-os_tag mswin = refl

tag-ne-zero : (o : Os) → (os_tag o == 0) ≡ false
unfolding os_tag
tag-ne-zero linux = refl
tag-ne-zero macos = refl
tag-ne-zero mswin = refl

ace_try_from-ace_tag : (t : AceTag) → ace_try_from (ace_tag t) ≡ ok t
unfolding ace_try_from ace_tag
ace_try_from-ace_tag owner = refl
ace_try_from-ace_tag group = refl
ace_try_from-ace_tag everyone = refl
ace_try_from-ace_tag named_user = refl
ace_try_from-ace_tag named_group = refl
ace_try_from-ace_tag mask = refl

permissions_from_bits-bits : (p : Permissions) → p.bits < 8 → permissions_from_bits p.bits ≡ ok p
unfolding permissions_from_bits
permissions_from_bits-bits p h = ground (arith, clear_seven p.bits)

pub Reads-word32 : (v : ℕ) → v < 2 ^ 32 → Reads word32 (to_le 4 v) v
unfolding word32
Reads-word32 v h = Reads-word truncated_metadata 4 v h

Reads-word64 : (v : ℕ) → v < 2 ^ 64 → Reads word64 (to_le 8 v) v
unfolding word64
Reads-word64 v h = Reads-word truncated_metadata 8 v h

-- A byte string behind its length.
abbrev pub blob_bytes : Bytes → Bytes
blob_bytes bytes = to_le 4 (length bytes) ++ bytes

pub Reads-blob : (bytes : Bytes) → length bytes < 2 ^ 32 → Reads blob (blob_bytes bytes) bytes
unfolding blob take
Reads-blob bytes h =
    Reads-bind word32 _ (to_le 4 (length bytes)) bytes _ _ (Reads-word32 (length bytes) h)
      (Reads-take_bytes truncated_metadata (length bytes) bytes refl)

pub Reads-xattr :
    (x : Xattr) → length x.name < 2 ^ 32 → length x.value < 2 ^ 32 → Reads xattr (xattr_bytes x) x
unfolding xattr byte xattr_chunks
Reads-xattr x hn hv = simp append_assoc at read
  where
    read :
        Reads xattr
          ((class_tag x.class ∷ []) ++ ([] ++ (blob_bytes x.name ++ (blob_bytes x.value ++ []))))
          x
    read = Reads-bind byte _ _ _ _ _ (Reads-byte truncated_metadata (class_tag x.class)) (
        Reads-bind (lift (class_try_from (class_tag x.class))) _ [] _ x.class _
          (Reads-lift _ x.class (class_try_from-class_tag x.class))
          (Reads-bind blob _ _ _ _ _ (Reads-blob x.name hn)
            (Reads-bind blob _ _ _ _ _ (Reads-blob x.value hv) (Reads-pure x))))

pub Reads-ace :
    (a : Ace) → a.permissions.bits < 8 → length a.name < 2 ^ 32 → Reads ace (ace_bytes a) a
unfolding ace byte ace_chunks
Reads-ace a hp hn = simp append_assoc at read
  where
    read :
        Reads ace
          ((ace_tag a.tag ∷ [])
            ++ ([] ++ ((a.permissions.bits ∷ []) ++ ([] ++ (blob_bytes a.name ++ [])))))
          a
    read = Reads-bind byte _ _ _ _ _ (Reads-byte truncated_metadata (ace_tag a.tag)) (
        Reads-bind (lift (ace_try_from (ace_tag a.tag))) _ [] _ a.tag _
          (Reads-lift _ a.tag (ace_try_from-ace_tag a.tag))
          (Reads-bind byte _ _ _ _ _ (Reads-byte truncated_metadata a.permissions.bits) (
            Reads-bind (lift (permissions_from_bits a.permissions.bits)) _ [] _ a.permissions _
              (Reads-lift _ a.permissions (permissions_from_bits-bits a.permissions hp))
              (Reads-bind blob _ _ _ _ _ (Reads-blob a.name hn) (Reads-pure a)))))

-- A tag is not 0, so a present list of entries is told from an absent one.
Reads-native_acl_from :
    (acl : NativeAcl)
    → length acl.bytes < 2 ^ 32
    → Reads (native_acl_from (os_tag acl.origin)) ([] ++ (blob_bytes acl.bytes ++ [])) (some acl)
unfolding native_acl_from
Reads-native_acl_from acl h = rw (tag-ne-zero acl.origin) (
    Reads-bind (lift (os_try_from (os_tag acl.origin))) _ [] _ acl.origin _
      (Reads-lift _ acl.origin (os_try_from-os_tag acl.origin))
      (Reads-bind blob _ _ _ _ _ (Reads-blob acl.bytes h) (Reads-pure (some acl))))

pub Reads-native_acl :
    (acl : Option NativeAcl)
    → OptionAll (λ a. length a.bytes < 2 ^ 32) acl
    → Reads native_acl (join (native_acl_chunks acl)) acl
unfolding native_acl byte native_acl_chunks
Reads-native_acl none h =
    Reads-bind byte _ (0 ∷ []) [] _ _ (Reads-byte truncated_metadata 0) (Reads-pure none)
Reads-native_acl (some acl) h = simp append_assoc at read
  where
    read :
        Reads native_acl
          ((os_tag acl.origin ∷ []) ++ ([] ++ (blob_bytes acl.bytes ++ [])))
          (some acl)
    read =
        Reads-bind byte _ _ _ _ _ (Reads-byte truncated_metadata (os_tag acl.origin))
          (Reads-native_acl_from acl h)

time_of_bytes :
    (t : Time) → IsTime t → t.nsec < 1_000_000_000 → Time.decode (Time.time_bytes t) ≡ ok t
unfolding Time.decode Time.time_bytes
time_of_bytes t typed h =
    let seconds = length-to_le 8 (i64_to_word t.sec) in
    let nanos = length-to_le 4 t.nsec in
    let front = take-append (to_le 8 (i64_to_word t.sec)) (to_le 4 t.nsec) in
    let back = drop-append (to_le 8 (i64_to_word t.sec)) (to_le 4 t.nsec) in
    rw (
      length-append (to_le 8 (i64_to_word t.sec)) (to_le 4 t.nsec),
      seconds,
      nanos,
      rw seconds at front,
      rw seconds at back,
      from_le-to_le 8 (i64_to_word t.sec) (i64_to_word-lt t.sec typed.0),
      from_le-to_le 4 t.nsec typed.1,
      word_to_i64-i64_to_word t.sec typed.0,
      lt→leb_false 1_000_000_000 t.nsec h,
    )

time_length : (t : Time) → length (Time.time_bytes t) ≡ 12
unfolding Time.time_bytes
time_length t = omega (
  arith,
  length-append (to_le 8 (i64_to_word t.sec)) (to_le 4 t.nsec),
  length-to_le 8 (i64_to_word t.sec),
  length-to_le 4 t.nsec,
)

Reads-time : (t : Time) → IsTime t → t.nsec < 1_000_000_000 → Reads time (Time.time_bytes t) t
unfolding time take
Reads-time t typed h =
    let read : Reads time (Time.time_bytes t ++ []) t =
      Reads-bind (take 12) (λ bytes. lift (Time.decode bytes)) (Time.time_bytes t) [] _ _
        (Reads-take_bytes truncated_metadata 12 _ (time_length t))
        (Reads-lift (Time.decode (Time.time_bytes t)) t (time_of_bytes t typed h)) in
    rw append-nil at read

pub Reads-time_if :
    (o : Option Time)
    → ((t : Time) → o ≡ some t → IsTime t × (t.nsec < 1_000_000_000))
    → Reads (time_if (is_some o)) (join (time_chunks o)) o
unfolding time_if time_chunks
Reads-time_if none h = Reads-pure none
Reads-time_if (some t) h =
    let (typed, small) = h t refl in
    let read : Reads (time_if true) (Time.time_bytes t ++ []) (some t) =
      Reads-bind time _ (Time.time_bytes t) [] _ _ (Reads-time t typed small)
        (Reads-pure (some t)) in
    unfold Time.time_bytes in rw append_assoc at read

pub Reads-hole : (h : Hole) → h.offset < 2 ^ 64 → h.size < 2 ^ 64 → Reads hole (hole_bytes h) h
unfolding hole hole_chunks
Reads-hole h ho hs =
    Reads-bind word64 _ (to_le 8 h.offset) _ _ _ (Reads-word64 h.offset ho)
      (Reads-bind word64 _ (to_le 8 h.size) _ _ _ (Reads-word64 h.size hs) (Reads-pure h))

pub Reads-optional {ℓ} :
    {A : Type ℓ} (item : Reader Error A) (xs : Bytes) (o : Option A) (write : A → Bytes)
    → ((a : A) → o ≡ some a → Reads item (write a) a)
    → Reads (optional item) (elim o [ none ↦ 0 ∷ [] | some a ↦ 1 ∷ write a ]) o
unfolding optional optional_from byte
Reads-optional item xs none write h =
    Reads-bind byte _ (0 ∷ []) [] _ _ (Reads-byte truncated_metadata 0) (Reads-pure none)
Reads-optional item xs (some a) write h =
    let read =
      Reads-bind item (λ value. pure (some value)) (write a) [] a (some a) (h a refl)
        (Reads-pure (some a)) in
    Reads-bind byte _ (1 ∷ []) _ _ _ (Reads-byte truncated_metadata 1) (rw append-nil at read)

check_count_passes :
    (reserve : ℕ → Bool) (minimum count : ℕ) (c : Cursor)
    → count ≤ (length c.bytes - c.offset) / minimum
    → reserve count ≡ true
    → check_count reserve minimum count c ≡ ok (tt, c)
unfolding check_count
check_count_passes reserve minimum count c fits granted =
    rw (le→ltb_false ((length c.bytes - c.offset) / minimum) count fits, granted)

-- A counted list, if the count fits and every item has the minimal size.
pub Reads-vector {ℓ} :
    {A : Type ℓ} (reserve : ℕ → Bool) (minimum : ℕ) (item : Reader Error A) (write : A → Bytes)
    (vs : List A)
    → 0 < minimum
    → length vs < 2 ^ 32
    → reserve (length vs) ≡ true
    → All (λ v. minimum ≤ length (write v)) vs
    → All (λ v. Reads item (write v) v) vs
    → Reads (vector reserve minimum item) (counted write vs) vs
unfolding vector
Reads-vector reserve minimum item write vs hm hc hr hl hi =
    Reads-bind word32 _ _ _ _ _ (Reads-word32 (length vs) hc) (record { run = filled })
  where
    filled :
        (before rest : Bytes)
        → length (before ++ (concat_map write vs ++ rest)) < 2 ^ 64
        → (check_count reserve minimum (length vs) >> repeat (length vs) item)
            (at before (concat_map write vs ++ rest))
          ≡ ok (vs, at (before ++ concat_map write vs) rest)
    filled before rest h =
        let size = length-append (concat_map write vs) rest in
        let total = length-append before (concat_map write vs ++ rest) in
        let most = length-concat_map write minimum vs hl in
        let fits : length vs
            ≤ (length (before ++ (concat_map write vs ++ rest)) - length before) / minimum =
          (le-div_iff_mul-le hm).1 (omega (arith, size, total, most)) in
        rw
          (
            check_count_passes reserve minimum (length vs) (at before (concat_map write vs ++ rest))
                fits hr,
            ◌>>=◌,
          )
          ((Reads-repeat item write vs hi).run before rest h)
