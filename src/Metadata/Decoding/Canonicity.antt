-- ===== src/Metadata/Decoding/Canonicity.antt =====
-- rust/src/metadata_decode.rs: the bytes of a record that was decoded.
use difz.Prelude.{
  ℕ, ◌+◌, ◌<◌, ◌≡◌, refl, sym, ◌∙◌, Bool, true, false, not, [], ◌∷◌, append-nil, Option, none, some,
  arith, join, length, Result, ok, err, ◌==◌, ==_iff, if◌then◌else◌, All, bit_and, is_some,
  Bool-cases, inl, inr, >>-eq-ok,
}
use difz.Prelude.Bits.{clear_seven, low_bit, second_bit, third_bit}
use difz.Prelude.Bytes.{Bytes, IsByte}
use difz.Prelude.Cursor.{Cursor, Reader}
use difz.Prelude.Cursor.Parses.{
  Parses, Parses-pure, Parses-lift, Parses-bind, Parses-take_bytes, Parses-byte, Parses-repeat,
  Parses-mono, Parses-still, Parses-all,
}
use difz.Metadata.Kinds.{Error, bad_metadata, truncated_metadata}
use difz.Metadata.Records.{
  Times, Metadata, IsTime, IsTyped, IsInfo, OptionAll, IsXattr, IsAce, IsHole,
}
use difz.Metadata.Validation.{CanonicalMetadata, new, validate}
use difz.Metadata.Encoding.{time_flags, info_chunks, link_chunks}
use difz.Metadata.Encoding.Layout.{
  xattr_bytes, ace_bytes, hole_bytes, counted, times_bytes, sections, written, written-eq-sections,
}
use difz.Metadata.Decoding.{
  take, byte, word32, blob, fail_if, check_count, vector, xattr, ace, native_acl, time_if, times,
  optional_from, optional, hole, metadata, finish, decode,
}
use difz.Metadata.Decoding.Reading.{blob_bytes}
use difz.Metadata.Decoding.Inversion.{
  Written, Parses-xattr, Parses-ace, Parses-hole, Parses-native_acl, Parses-time_if, Parses-word32,
  Parses-blob,
}

-- Three flags that were read make up the byte that they were read from.
flags_of :
    (flags : ℕ) (a b c : Bool)
    → flags < 256
    → not (bit_and flags 0xf8 == 0) ≡ false
    → a ≡ not (bit_and flags 1 == 0)
    → b ≡ not (bit_and flags 2 == 0)
    → c ≡ not (bit_and flags 4 == 0)
    → (if a then 1 else 0) + (if b then 2 else 0) + (if c then 4 else 0) ≡ flags
flags_of flags a b c h clear ea eb ec =
    ground (arith, clear_seven flags, low_bit flags, second_bit flags, third_bit flags)

TimesTyped : Times → Type 0
TimesTyped t = OptionAll IsTime t.mtime × OptionAll IsTime t.atime × OptionAll IsTime t.btime

fail_if_still :
    (b : Bool) (e : Error) (c c' : Cursor) (v : Unit {0})
    → fail_if b e c ≡ ok (v, c')
    → (c' ≡ c) × (b ≡ false)
fail_if_still true e c c' v h = cc
fail_if_still false e c c' v h = (cc, refl)

Parses-times : Parses times (Written times_bytes TimesTyped)
unfolding times byte time_flags TimesTyped
Parses-times = Parses-bind _ _ byte _ (Parses-byte truncated_metadata) λ flags x₁ h₁.
    Parses-bind (λ _ xs. (xs ≡ []) × (not (bit_and flags 0xf8 == 0) ≡ false)) _
      (fail_if (not (bit_and flags 0xf8 == 0)) bad_metadata) _
      (Parses-still _ _ λ c c' v e.
        let (still, clear) = fail_if_still (not (bit_and flags 0xf8 == 0)) bad_metadata c c' v e in
        (still, (refl, clear)))
      λ _ x₂ h₂.
        Parses-bind _ _ (time_if (not (bit_and flags 1 == 0))) _ (Parses-time_if _) λ m x₃ h₃.
          Parses-bind _ _ (time_if (not (bit_and flags 2 == 0))) _ (Parses-time_if _) λ a x₄ h₄.
            Parses-bind _ _ (time_if (not (bit_and flags 4 == 0))) _ (Parses-time_if _) λ b x₅ h₅.
              Parses-pure _ (record { mtime = m; atime = a; btime = b })
                (
                  rw (
                    h₁.0,
                    h₂.0,
                    h₃.0,
                    h₄.0,
                    h₅.0,
                    append-nil,
                    flags_of flags (is_some m) (is_some a) (is_some b) h₁.1 h₂.1 h₃.1 h₄.1 h₅.1,
                  ),
                  (h₃.2, h₄.2, h₅.2),
                )

-- A byte 0, or a byte 1 and the value.
abbrev tagged {ℓ} : {A : Type ℓ} → (A → Bytes) → Option A → Bytes
tagged write none = 0 ∷ []
tagged write (some a) = 1 ∷ write a

Parses-optional {ℓ κ} :
    {A : Type ℓ} (P : A → Type κ) (item : Reader Error A) (write : A → Bytes)
    → Parses item (Written write P)
    → Parses (optional item) (Written (tagged write) (OptionAll P))
unfolding optional byte optional_from
Parses-optional P item write pi =
    Parses-bind _ _ byte _ (Parses-byte truncated_metadata) λ code x₁ h₁.
      elim (Bool-cases (code == 0)) [
        | inl is_zero ↦
            let zero_code : code ≡ 0 = (==_iff code 0).0 is_zero in
            rw is_zero (Parses-pure _ none (rw (append-nil, h₁.0, zero_code), tt))
        | inr not_zero ↦ rw not_zero (elim (Bool-cases (code == 1)) [
          | inl is_one ↦
              let one_code : code ≡ 1 = (==_iff code 1).0 is_one in
              rw is_one (
                Parses-bind _ _ item _ pi
                  λ a x₂ h₂. Parses-pure _ (some a) (rw (append-nil, h₁.0, one_code, h₂.0), h₂.1))
          | inr not_one ↦ rw not_one (Parses-lift _ (err bad_metadata) λ a e. cc)
        ])
      ]

check_count_still :
    (reserve : ℕ → Bool) (minimum count : ℕ) (c c' : Cursor) (v : Unit {0})
    → check_count reserve minimum count c ≡ ok (v, c')
    → (c' ≡ c) × (◌≡◌ {A = Bytes} [] [])
unfolding check_count
check_count_still reserve minimum count c c' v h = (ground arith, refl)

Parses-vector {ℓ κ} :
    {A : Type ℓ} (P : A → Type κ) (reserve : ℕ → Bool) (minimum : ℕ) (item : Reader Error A)
    (write : A → Bytes)
    → Parses item (Written write P)
    → Parses (vector reserve minimum item) (Written (counted write) (All P))
unfolding vector
Parses-vector P reserve minimum item write pi =
    Parses-bind _ _ word32 _ Parses-word32 λ count x₁ h₁.
      Parses-bind (λ _ xs. xs ≡ []) _ (check_count reserve minimum count) _
        (Parses-still _ _ (check_count_still reserve minimum count))
        λ _ x₂ h₂.
          Parses-mono _ (λ vs ys k. (rw (h₁.0, h₂, k.0, k.1), k.2))
            (Parses-repeat item write P count pi)

Parses-IsInfo : Parses (optional (take 32)) (Written (λ o. join (info_chunks o)) (OptionAll IsInfo))
unfolding take info_chunks
Parses-IsInfo = Parses-mono _ untag (
    Parses-optional IsInfo (take 32) (λ bytes. bytes)
      (Parses-mono _ (λ v xs h. (sym h.0, (rw h.0 h.1, rw h.0 h.2)))
        (Parses-take_bytes truncated_metadata 32)))
  where
    untag :
        (o : Option Bytes) (xs : Bytes)
        → Written (tagged (λ bytes. bytes)) (OptionAll IsInfo) o xs
        → Written (λ p. join (info_chunks p)) (OptionAll IsInfo) o xs
    untag none xs h = h
    untag (some bytes) xs h = (rw append-nil h.0, h.1)

Parses-link : Parses (optional blob) (Written (λ o. join (link_chunks o)) (OptionAll (All IsByte)))
unfolding link_chunks
Parses-link = Parses-mono _ untag (Parses-optional (All IsByte) blob blob_bytes Parses-blob)
  where
    untag :
        (o : Option Bytes) (xs : Bytes)
        → Written (tagged blob_bytes) (OptionAll (All IsByte)) o xs
        → Written (λ p. join (link_chunks p)) (OptionAll (All IsByte)) o xs
    untag none xs h = h
    untag (some bytes) xs h = (rw append-nil h.0, h.1)

pub Parses-metadata : (reserve : ℕ → Bool) → Parses (metadata reserve) (Written sections IsTyped)
unfolding metadata TimesTyped
Parses-metadata reserve =
    Parses-bind _ _ (vector reserve 9 xattr) _
      (Parses-vector IsXattr reserve 9 xattr xattr_bytes Parses-xattr)
      λ xattrs x₁ h₁.
        Parses-bind _ _ (vector reserve 6 ace) _
          (Parses-vector IsAce reserve 6 ace ace_bytes Parses-ace)
          λ aces x₂ h₂. Parses-bind _ _ native_acl _ Parses-native_acl λ acl x₃ h₃.
            Parses-bind _ _ times _ Parses-times λ stamps x₄ h₄.
              Parses-bind _ _ word32 _ Parses-word32 λ finder_flags x₅ h₅.
                Parses-bind _ _ (optional (take 32)) _ Parses-IsInfo λ info x₆ h₆.
                  Parses-bind _ _ (vector reserve 16 hole) _
                    (Parses-vector IsHole reserve 16 hole hole_bytes Parses-hole)
                    λ holes x₇ h₇. Parses-bind _ _ (optional blob) _ Parses-link λ link x₈ h₈.
                      Parses-pure _ _ (
                        rw (h₁.0, h₂.0, h₃.0, h₄.0, h₅.0, h₆.0, h₇.0, h₈.0, append-nil),
                        record {
                          xattrs = h₁.1;
                          aces = h₂.1;
                          native_acl = h₃.1;
                          mtime = h₄.1.0;
                          atime = h₄.1.1;
                          btime = h₄.1.2;
                          finder_flags = h₅.1;
                          finder_info = h₆.1;
                          holes = h₇.1;
                          hardlink_to = h₈.1;
                        },
                      )

finish-eq-ok :
    (r : Result Error (Metadata × Cursor)) (c : CanonicalMetadata)
    → finish r ≡ ok c
    → (m : Metadata) × (d : Cursor) × (r ≡ ok (m, d)) × (d.offset ≡ length d.bytes) × (new m ≡ ok c)
finish-eq-ok (err e) c h = cc
finish-eq-ok (ok (m, d)) c h = elim (Bool-cases (d.offset == length d.bytes)) [
  | inl same ↦ (m, d, refl, (==_iff _ _).0 same, rw same at h)
  | inr other ↦ let impossible = rw other at h in cc
]

new-eq-ok :
    (m : Metadata) (c : CanonicalMetadata)
    → new m ≡ ok c
    → (c ≡ record { metadata = m }) × (validate m ≡ ok tt)
unfolding new
new-eq-ok m c h = let (valid, same) = >>-eq-ok (validate m) _ h in (cc, valid)

-- If `decode` of a list of bytes succeeds, whatever the allocator answers, the bytes are exactly
-- what the encoder writes for the returned record, the record passes validation, and its fields
-- are within their types: no record has a second encoding.
pub decode-eq-ok :
    (reserve : ℕ → Bool) (bytes : Bytes) (c : CanonicalMetadata)
    → All IsByte bytes
    → decode reserve bytes ≡ ok c
    → (bytes ≡ written c.metadata) × (validate c.metadata ≡ ok tt) × IsTyped c.metadata
unfolding decode
decode-eq-ok reserve bytes c bs h =
    let (m, d, read, ended, made) =
      finish-eq-ok (metadata reserve (record { bytes = bytes; offset = 0 })) c h in
    let (same, valid) = new-eq-ok m c made in
    let (layout, typed) =
      Parses-all (metadata reserve) bytes m d (Parses-metadata reserve) bs read ended in
    rw same (layout ∙ sym (written-eq-sections m), valid, typed)
