-- ===== src/TreePatch/Header/Inversion.antt =====
-- rust/src/tree_patch.rs: the bytes of a header that was decoded.
use difz.Prelude.{
  ℕ, ◌+◌, ◌-◌, ◌*◌, ◌/◌, ◌^◌, ◌<◌, ◌≤◌, ◌≡◌, refl, sym, ap, ap₂, ◌∙◌, not, ◌||◌, ◌++◌, append_assoc,
  arith, bit_and, join, length, take, drop, take_past, chop, leb, ltb, ◌==◌, ==_iff, not-false,
  leb→le, ltb_false→le, ok, map_err, reject, reject-or, >>-eq-ok, >>=-eq-ok, reject-eq-ok,
  map_err-eq-ok, subst, All, Bool-cases, inl, inr,
}
use difz.Prelude.Bits.{or_even, or_odd, low_bit}
use difz.Prelude.Bits.Masks.{bit_and-mask_iff, mask_seven}
use difz.Prelude.Bytes.{Bytes, IsByte, bytes_eq, bytes_eq→eq, to_le, from_le, word_of}
use difz.Prelude.Slices.Fields.{cuts, join-cuts, length-join, field_of}
use difz.Metadata.Omit
use difz.Metadata.Omit.{Omit}
use difz.Metadata.Kinds.{invalid_omit_mask}
use difz.TreePatch.{
  EnvelopeLimits, limit_exceeded, unexpected_end_of_input, invalid_magic, unsupported_version,
  patch_hash_mismatch, reader_too_old, unsupported_flags,
}
use difz.TreePatch.Header.{
  Header, IsTyped, header_len, checksum_offset, version, magic, flags_of, fields, slice, word,
  checksum, encode, decode_fields, decode_prefix,
}
use difz.TreePatch.Header.RoundTrip.{Holds, front, fields_fit}

from_bits-eq-ok : (n : ℕ) {omit : Omit} → Omit.from_bits n ≡ ok omit → omit.bits ≡ n
unfolding Omit.from_bits
from_bits-eq-ok n {omit} h =
    let (_, same) = >>-eq-ok (reject (not (bit_and n 0xffff_ffc0 == 0)) invalid_omit_mask) _ h in
    let eq : record { bits = n } ≡ omit = cc same in ap (λ o. o.bits) (sym eq)

-- The header that an input holds, and what is known of the input.
module _ (bytes : Bytes) (omit : Omit) where
  held : Header
  held = record {
    needed_reader = from_le (slice bytes 10 12);
    root_metadata = not (bit_and (word bytes 12) 1 == 0);
    omit = omit;
    rule_count = word bytes 16;
    entry_count = word bytes 20;
    source_hash = slice bytes 24 56;
    target_hash = slice bytes 56 88;
  }

  -- The flags are put together again from the mask and the lowest bit.
  flags-held : word bytes 12 < 128 → omit.bits ≡ word bytes 12 / 2 → flags_of held ≡ word bytes 12
  unfolding held flags_of
  flags-held small same =
      let low = low_bit (word bytes 12) (omega (arith, small)) in
      elim (Bool-cases (bit_and (word bytes 12) 1 == 0)) [
        | inl even ↦ rw even (
            or_even omit.bits (omega (arith, same, small))
            ∙ omega (arith, same, low, (==_iff (bit_and (word bytes 12) 1) 0).0 even))
        | inr odd ↦
            rw odd (or_odd omit.bits (omega (arith, same, small)) ∙ ground (arith, same, low, odd))
      ]

  module _ (bs : All IsByte bytes) (long : header_len ≤ length bytes)
      (start : slice bytes 0 8 ≡ magic) (number : from_le (slice bytes 8 10) ≡ version)
      (small : word bytes 12 < 128) (same : omit.bits ≡ word bytes 12 / 2) where
    word_at :
        (offset w : ℕ)
        → offset + w ≤ header_len
        → (to_le w (from_le (take w (drop offset bytes))) ≡ take w (drop offset bytes))
          × (from_le (take w (drop offset bytes)) < 256 ^ w)
    word_at offset w fits =
        let (size, values) = field_of bytes offset w bs (omega (arith, fits, long)) in
        word_of w _ values size

    held-IsTyped : IsTyped held
    unfolding held word
    held-IsTyped = record {
      needed_reader = (word_at 10 2 (omega arith)).1;
      omit = omega (arith, small, same);
      rule_count = (word_at 16 4 (omega arith)).1;
      entry_count = (word_at 20 4 (omega arith)).1;
      source_hash = field_of bytes 24 32 bs (omega (arith, long));
      target_hash = field_of bytes 56 32 bs (omega (arith, long));
    }

    fields-held : fields held ≡ cuts 0 front bytes
    unfolding fields held word
    fields-held =
        let flags : flags_of held ≡ from_le (take 4 (drop 12 bytes)) = flags-held small same in
        let version_field : to_le 2 version ≡ take 2 (drop 8 bytes) =
          subst (λ v. to_le 2 v ≡ take 2 (drop 8 bytes)) number (word_at 8 2 (omega arith)).0 in
        rw
          (
            start,
            version_field,
            flags,
            (word_at 10 2 (omega arith)).0,
            (word_at 12 4 (omega arith)).0,
            (word_at 16 4 (omega arith)).0,
            (word_at 20 4 (omega arith)).0,
          )
          refl

    length-held : length (join (cuts 0 front bytes)) ≡ checksum_offset
    length-held =
        ap (λ ps. length (join ps)) (sym fields-held)
        ∙ length-join front (fields held) (fields_fit held held-IsTyped)

    take-held : take checksum_offset bytes ≡ join (fields held)
    take-held =
        ap (take checksum_offset) (join-cuts front bytes)
        ∙ take_past (join (cuts 0 front bytes)) (drop checksum_offset bytes) checksum_offset
            length-held
        ∙ ap join (sym fields-held)

    -- With the right checksum the input is the header's encoding and the body.
    encode-held :
        (blake3 : Bytes → Bytes)
        → checksum blake3 (take checksum_offset bytes) (drop header_len bytes)
          ≡ slice bytes checksum_offset header_len
        → bytes ≡ encode blake3 held (drop header_len bytes) ++ drop header_len bytes
    unfolding encode
    encode-held blake3 right =
        let sum = rw take-held at right in
        join-cuts front bytes
        ∙ ap₂ (λ x y. x ++ y) (ap join (sym fields-held)) (chop checksum_offset 32 bytes)
        ∙ rw (sum, append_assoc) refl

-- What the field checks found.
record Checked (bytes : Bytes) (limits : EnvelopeLimits) (h : Header) (body : Bytes) : Type 0 where
  omit : h.omit.bits ≡ word bytes 12 / 2
  small : bit_and (word bytes 12) 0xffff_ff80 ≡ 0
  header : h ≡ held bytes h.omit
  rest : body ≡ drop header_len bytes
  fits : Holds h body limits

decode_fields-eq-ok :
    (blake3 : Bytes → Bytes) (bytes : Bytes) (limits : EnvelopeLimits) (h : Header) (body : Bytes)
    → decode_fields blake3 bytes limits ≡ ok (h, body)
    → Checked bytes limits h body
unfolding decode_fields held
decode_fields-eq-ok blake3 bytes limits h body e =
    let rules = word bytes 16 in
    let entries = word bytes 20 in
    let tail = drop header_len bytes in
    let (r₁, e₁) =
      >>-eq-ok (reject (ltb version (from_le (slice bytes 10 12))) reader_too_old) _ e in
    let (r₂, e₂) =
      >>-eq-ok (reject (not (bit_and (word bytes 12) 0xffff_ff80 == 0)) unsupported_flags) _ e₁ in
    let (omit, r₃, e₃) =
      >>=-eq-ok (map_err (λ x. unsupported_flags) (Omit.from_bits (word bytes 12 / 2))) _ e₂ in
    let (r₄, e₄) =
      >>-eq-ok
        (reject (ltb limits.max_rules rules || ltb limits.max_entries entries) limit_exceeded) _
        e₃ in
    let (r₅, e₅) =
      >>-eq-ok
        (reject (ltb (length tail / 9) rules || ltb ((length tail - rules * 9) / 41) entries)
          unexpected_end_of_input)
        _ e₄ in
    let header : held bytes omit ≡ h = cc e₅ in
    let rest : tail ≡ body = cc e₅ in
    let (rule_limit, entry_limit) = reject-or (ltb limits.max_rules rules) _ limit_exceeded r₄ in
    let (rule_room, entry_room) =
      reject-or (ltb (length tail / 9) rules) _ unexpected_end_of_input r₅ in
    let clear = (==_iff _ _).0 (
      not-false (bit_and (word bytes 12) 0xffff_ff80 == 0) (reject-eq-ok _ unsupported_flags r₂)) in
    let mask =
      from_bits-eq-ok (word bytes 12 / 2)
        (map_err-eq-ok _ (Omit.from_bits (word bytes 12 / 2)) r₃) in
    rw (← header, ← rest)
      (record {
        omit = mask;
        small = clear;
        header = refl;
        rest = refl;
        fits = record {
          reader = ltb_false→le _ _ (reject-eq-ok _ reader_too_old r₁);
          rules = ltb_false→le _ _ rule_limit;
          entries = ltb_false→le _ _ (reject-eq-ok _ limit_exceeded entry_limit);
          rule_room = ltb_false→le _ _ rule_room;
          entry_room = ltb_false→le _ _ (reject-eq-ok _ unexpected_end_of_input entry_room);
        };
      })

word-lt :
    (bytes : Bytes) (offset : ℕ)
    → All IsByte bytes
    → offset + 4 ≤ length bytes
    → word bytes offset < 2 ^ 32
unfolding word
word-lt bytes offset bs fits =
    let (size, values) = field_of bytes offset 4 bs fits in
    let width : offset + 4 - offset ≡ 4 = omega arith in rw width (word_of 4 _ values size).1

-- If a list of bytes decodes to a header and a body, the bytes are the header's encoding, with
-- the checksum over the fields and the body, followed by the body; the header's fields are within
-- their types, its reader version is supported, its counts are within the limits and not more
-- than the body can hold, and the bytes are within the limit.
pub decode_prefix-eq-ok_tree :
    (blake3 : Bytes → Bytes) (bytes : Bytes) (limits : EnvelopeLimits) (h : Header) (body : Bytes)
    → All IsByte bytes
    → decode_prefix blake3 bytes limits ≡ ok (h, body)
    → (bytes ≡ encode blake3 h body ++ body)
      × IsTyped h
      × Holds h body limits
      × (length bytes ≤ limits.max_patch_bytes)
unfolding decode_prefix
decode_prefix-eq-ok_tree blake3 bytes limits h body bs e =
    let sum = checksum blake3 (take checksum_offset bytes) (drop header_len bytes) in
    let (r₁, e₁) =
      >>-eq-ok (reject (ltb limits.max_patch_bytes (length bytes)) limit_exceeded) _ e in
    let (r₂, e₂) =
      >>-eq-ok (reject (not (leb header_len (length bytes))) unexpected_end_of_input) _ e₁ in
    let (r₃, e₃) = >>-eq-ok (reject (not (bytes_eq (slice bytes 0 8) magic)) invalid_magic) _ e₂ in
    let (r₄, e₄) =
      >>-eq-ok (reject (not (from_le (slice bytes 8 10) == version)) unsupported_version) _ e₃ in
    let (r₅, e₅) =
      >>-eq-ok
        (reject (not (bytes_eq sum (slice bytes checksum_offset header_len))) patch_hash_mismatch) _
        e₄ in
    let long =
      leb→le _ _
        (not-false (leb header_len (length bytes)) (reject-eq-ok _ unexpected_end_of_input r₂)) in
    let start =
      bytes_eq→eq _ _
        (not-false (bytes_eq (slice bytes 0 8) magic) (reject-eq-ok _ invalid_magic r₃)) in
    let number =
      (==_iff _ _).0 (
        not-false (from_le (slice bytes 8 10) == version)
          (reject-eq-ok _ unsupported_version r₄)) in
    let right = bytes_eq→eq _ _ (
      not-false (bytes_eq sum (slice bytes checksum_offset header_len))
        (reject-eq-ok _ patch_hash_mismatch r₅)) in
    let c = decode_fields-eq-ok blake3 bytes limits h body e₅ in
    let small : word bytes 12 < 128 =
      (bit_and-mask_iff 25 7 (word bytes 12) (word-lt bytes 12 bs (omega (arith, long)))).0
        (rw mask_seven c.small) in
    (
      subst (λ g. bytes ≡ encode blake3 g body ++ body) (sym c.header)
          (subst (λ b. bytes ≡ encode blake3 (held bytes h.omit) b ++ b) (sym c.rest)
            (encode-held bytes h.omit bs long start number small c.omit blake3 right)),
      subst IsTyped (sym c.header) (held-IsTyped bytes h.omit bs long start number small c.omit),
      c.fits,
      ltb_false→le _ _ (reject-eq-ok _ limit_exceeded r₁),
    )
