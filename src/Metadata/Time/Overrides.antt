-- ===== src/Metadata/Time/Overrides.antt =====
-- rust/src/metadata.rs: the override records of the transport attributes, written and read back.
use difz.Prelude.{
  leb_false→lt, ℕ, ◌+◌, ◌-◌, ◌<◌, ◌≡◌, refl, sym, ap, ap₂, ◌∙◌, false, not, ◌&&◌, [], ◌∷◌, ◌++◌,
  append_assoc, Option, none, some, arith, length, length-append, take, drop, take_past, drop_past,
  replicate, leb, lt→leb_false, ◌==◌, ok, >>-eq-ok, >>=-eq-ok, reject-eq-ok, reject, take_all,
  take-append, drop-append, ◌⊎◌, inl, inr,
}
use difz.Prelude.Bytes.{Bytes, bytes_eq, to_le, length-to_le, from_le-to_le}
use difz.Prelude.Integers.{IsI64, i64_to_word, word_to_i64-i64_to_word, i64_to_word-lt}
use difz.Metadata.Kinds.{invalid_nsec}
use difz.Metadata.Time
use difz.Metadata.Time.{
  Time, time_bytes, nsec_limit, InlineBytes, as_bytes, ModificationOverride, encode_time_override,
  decode_time_override, encode_modification_override, decode_modification_override,
}

pub length-time_bytes : (t : Time) → length (time_bytes t) ≡ 12
unfolding time_bytes
length-time_bytes t = omega (
  arith,
  length-append (to_le 8 (i64_to_word t.sec)) (to_le 4 t.nsec),
  length-to_le 8 (i64_to_word t.sec),
  length-to_le 4 t.nsec,
)

take-time_bytes : (t : Time) → take 8 (time_bytes t) ≡ to_le 8 (i64_to_word t.sec)
unfolding time_bytes
take-time_bytes t = take_past (to_le 8 (i64_to_word t.sec)) _ 8 (length-to_le 8 (i64_to_word t.sec))

drop-time_bytes : (t : Time) → drop 8 (time_bytes t) ≡ to_le 4 t.nsec
unfolding time_bytes
drop-time_bytes t =
    drop_past (to_le 8 (i64_to_word t.sec)) (to_le 4 t.nsec) 8 0
      (length-to_le 8 (i64_to_word t.sec))

decode-time_bytes :
    (t : Time) → IsI64 t.sec → t.nsec < nsec_limit → Time.decode (time_bytes t) ≡ ok t
unfolding Time.decode
decode-time_bytes t in_range civil =
    rw
      (
        length-time_bytes t,
        take-time_bytes t,
        drop-time_bytes t,
        from_le-to_le 8 (i64_to_word t.sec) (i64_to_word-lt t.sec in_range),
        from_le-to_le 4 t.nsec (omega (arith, civil)),
        lt→leb_false nsec_limit t.nsec civil,
        word_to_i64-i64_to_word t.sec in_range,
      )
      refl

encode-time_bytes :
    (t : Time) {bytes : Bytes}
    → Time.encode t ≡ ok bytes
    → (bytes ≡ time_bytes t) × (t.nsec < nsec_limit)
unfolding Time.encode
encode-time_bytes t e =
    let (civil, made) = >>-eq-ok (reject (leb nsec_limit t.nsec) invalid_nsec) _ e in
    (sym (cc made), leb_false→lt nsec_limit t.nsec (reject-eq-ok _ invalid_nsec civil))

-- The bytes of an override.
unfoldable pub option_bytes : Option Time → Bytes
option_bytes none = 0 ∷ []
option_bytes (some t) = 1 ∷ time_bytes t

abbrev pub IsCivil : Option Time → Type 0
IsCivil none = Unit
IsCivil (some t) = t.nsec < nsec_limit

abbrev pub InRange : Option Time → Type 0
InRange none = Unit
InRange (some t) = IsI64 t.sec

pub encode_time_override-bytes :
    (o : Option Time) (inline : InlineBytes)
    → encode_time_override o ≡ ok inline
    → (as_bytes inline ≡ option_bytes o) × IsCivil o
unfolding encode_time_override as_bytes option_bytes
encode_time_override-bytes none inline e =
    let same : record { bytes = replicate 13 0; size = 1 } ≡ inline = cc e in (rw (← same) refl, tt)
encode_time_override-bytes (some t) inline e =
    let (bytes, made, e₁) = >>=-eq-ok (Time.encode t) _ e in
    let (is, civil) = encode-time_bytes t made in
    let same : record { bytes = 1 ∷ bytes; size = 13 } ≡ inline = cc e₁ in
    (
      rw (← same) (
          ap (λ xs. 1 ∷ xs)
            (ap (take 12) is
              ∙ ap (λ n. take n (time_bytes t)) (sym (length-time_bytes t))
              ∙ take_all (time_bytes t))),
      civil,
    )

pub decode_time_override-bytes :
    (o : Option Time) → InRange o → IsCivil o → decode_time_override (option_bytes o) ≡ ok o
unfolding decode_time_override option_bytes bytes_eq
decode_time_override-bytes none r c = refl
decode_time_override-bytes (some t) r c = rw (length-time_bytes t, decode-time_bytes t r c) refl

-- If an optional time whose seconds fit an i64 is encoded as an override, decoding the bytes
-- returns it.
pub decode_time_override-encode_time_override :
    (o : Option Time) (inline : InlineBytes)
    → InRange o
    → encode_time_override o ≡ ok inline
    → decode_time_override (as_bytes inline) ≡ ok o
decode_time_override-encode_time_override o inline range e =
    let (is, civil) = encode_time_override-bytes o inline e in
    ap decode_time_override is ∙ decode_time_override-bytes o range civil

length-option_bytes :
    (o : Option Time) → (length (option_bytes o) ≡ 1) ⊎ (length (option_bytes o) ≡ 13)
unfolding option_bytes
length-option_bytes none = inl refl
length-option_bytes (some t) = inr (omega (arith, length-time_bytes t))

sizes : (n : ℕ) → (n ≡ 1) ⊎ (n ≡ 13) → (not (n + 12 == 13) && not (n + 12 == 25)) ≡ false
sizes n (inl e) = rw e refl
sizes n (inr e) = rw e refl

take_both : (xs ys zs : Bytes) → take (length xs + length ys) (xs ++ (ys ++ zs)) ≡ xs ++ ys
take_both xs ys zs = rw (← append_assoc xs ys zs, ← length-append xs ys) (take-append (xs ++ ys) zs)

as_bytes-padded :
    (xs ys zs : Bytes)
    → as_bytes (record { bytes = xs ++ (ys ++ zs); size = length xs + length ys }) ≡ xs ++ ys
unfolding as_bytes
as_bytes-padded xs ys zs = take_both xs ys zs

encode_modification_override-bytes :
    (v : ModificationOverride) (inline : InlineBytes)
    → encode_modification_override v ≡ ok inline
    → (as_bytes inline ≡ option_bytes v.original ++ time_bytes v.observed)
      × IsCivil v.original
      × (v.observed.nsec < nsec_limit)
unfolding encode_modification_override
encode_modification_override-bytes v inline e =
    let (original, o, e₁) = >>=-eq-ok (encode_time_override v.original) _ e in
    let (observed, made, e₂) = >>=-eq-ok (Time.encode v.observed) _ e₁ in
    let (first, civil_o) = encode_time_override-bytes v.original original o in
    let (second, civil) = encode-time_bytes v.observed made in
    let prefix = as_bytes original in
    let padding = replicate (25 - (length prefix + length observed)) 0 in
    let same : record {
      bytes = prefix ++ (observed ++ padding);
      size = length prefix + length observed;
    }
        ≡ inline =
      cc e₂ in
    (
      ap as_bytes (sym same)
          ∙ as_bytes-padded prefix observed padding
          ∙ ap₂ (λ xs ys. xs ++ ys) first second,
      civil_o,
      civil,
    )

-- If a modification override whose seconds fit an i64 is encoded, decoding the bytes returns it.
pub decode_modification_override-encode_modification_override :
    (v : ModificationOverride) (inline : InlineBytes)
    → InRange v.original
    → IsI64 v.observed.sec
    → encode_modification_override v ≡ ok inline
    → decode_modification_override (as_bytes inline) ≡ ok v
unfolding decode_modification_override
decode_modification_override-encode_modification_override v inline r₁ r₂ e =
    let (is, c₁, c₂) = encode_modification_override-bytes v inline e in
    let front = option_bytes v.original in
    let back = time_bytes v.observed in
    let whole : length (front ++ back) ≡ length front + 12 =
      omega (arith, length-append front back, length-time_bytes v.observed) in
    let cut : length front + 12 - 12 ≡ length front = omega arith in
    rw
      (
        is,
        whole,
        sizes (length front) (length-option_bytes v.original),
        cut,
        take-append front back,
        drop-append front back,
        decode_time_override-bytes v.original r₁ c₁,
        decode-time_bytes v.observed r₂ c₂,
      )
      refl
