-- ===== src/TreePatch/Header/RoundTrip.antt =====
-- rust/src/tree_patch.rs: decoding the encoding of a header.
use difz.Prelude.{
  ℕ, ◌+◌, ◌-◌, ◌*◌, ◌/◌, ◌%◌, ◌^◌, ◌<◌, ◌≤◌, ◌≡◌, refl, ◌∙◌, Bool, true, false, not, List, [], ◌∷◌,
  ◌++◌, append-nil, append_assoc, arith, bit_and, bit_or, join, length, length-append, take, drop,
  take_past, drop_past, ◌==◌, le→leb, le→ltb_false, ok,
}
use difz.Prelude.Bits.{or_even, or_odd, low_bit}
use difz.Prelude.Bits.Masks.{bit_and-mask_iff, mask_seven, mask_six}
use difz.Prelude.Bytes.{Bytes, bytes_eq_refl, to_le, length-to_le, from_le-to_le}
use difz.Prelude.Slices.Fields.{cuts, cuts-join, HaveWidths, length-join, HaveWidths-append}
use difz.Metadata.Omit
use difz.File.Patch.RoundTrip.{IsHash}
use difz.TreePatch.{EnvelopeLimits}
use difz.TreePatch.Header.{
  Header, IsTyped, header_len, checksum_offset, version, magic, one_if, flags_of, fields, word,
  checksum, encode, decode_fields, decode_prefix,
}

-- The flags of a header, as a number.
flags_of-eq : (h : Header) → IsTyped h → flags_of h ≡ h.omit.bits * 2 + one_if h.root_metadata
unfolding flags_of
flags_of-eq h t = go h.root_metadata
  where
    go : (b : Bool) → bit_or (h.omit.bits * 2 % 2 ^ 32) (one_if b) ≡ h.omit.bits * 2 + one_if b
    go true = or_odd h.omit.bits t.omit
    go false = or_even h.omit.bits t.omit ∙ omega arith

abbrev pub widths : List ℕ
widths = 8 ∷ 2 ∷ 2 ∷ 4 ∷ 4 ∷ 4 ∷ 32 ∷ 32 ∷ 32 ∷ []

-- The counts are within the limits and are not more than the body can hold.
pub record Holds (h : Header) (body : Bytes) (limits : EnvelopeLimits) : Type 0 where
  pub reader : h.needed_reader ≤ version
  pub rules : h.rule_count ≤ limits.max_rules
  pub entries : h.entry_count ≤ limits.max_entries
  pub rule_room : h.rule_count ≤ length body / 9
  pub entry_room : h.entry_count ≤ (length body - h.rule_count * 9) / 41

-- A word of 32 bits below 128 has no bit above the seven, and a mask below 64 none above the six.
seven_bits : (n : ℕ) → n < 128 → bit_and n 0xffff_ff80 ≡ 0
seven_bits n h = rw mask_seven at ((bit_and-mask_iff 25 7 n (omega (arith, h))).1 h)

from_bits-ok : (n : ℕ) → n < 64 → Omit.from_bits n ≡ ok (record { bits = n })
unfolding Omit.from_bits
from_bits-ok n h =
    let clear : bit_and n 0xffff_ffc0 ≡ 0 =
      rw mask_six at ((bit_and-mask_iff 26 6 n (omega (arith, h))).1 h) in
    rw clear refl

-- The flags tell the mask and whether a root record follows.
FlagsTell : ℕ → Bool → ℕ → Type 0
FlagsTell bits root flags =
    (bit_and flags 0xffff_ff80 ≡ 0)
    × (Omit.from_bits (flags / 2) ≡ ok (record { bits = bits }))
    × (not (bit_and flags 1 == 0) ≡ root)

flags_tell : (bits : ℕ) (root : Bool) → bits < 64 → FlagsTell bits root (bits * 2 + one_if root)
unfolding FlagsTell
flags_tell bits true h =
    let half : (bits * 2 + 1) / 2 ≡ bits = omega arith in
    let low : bit_and (bits * 2 + 1) 1 ≡ 1 = low_bit (bits * 2 + 1) (omega arith) ∙ omega arith in
    (seven_bits _ (omega arith), rw half (from_bits-ok bits h), rw low refl)
flags_tell bits false h =
    let half : (bits * 2 + 0) / 2 ≡ bits = omega arith in
    let low : bit_and (bits * 2 + 0) 1 ≡ 0 = low_bit (bits * 2 + 0) (omega arith) ∙ omega arith in
    (seven_bits _ (omega arith), rw half (from_bits-ok bits h), rw low refl)

abbrev pub front : List ℕ
front = 8 ∷ 2 ∷ 2 ∷ 4 ∷ 4 ∷ 4 ∷ 32 ∷ 32 ∷ []

pub fields_fit : (h : Header) → IsTyped h → HaveWidths front (fields h)
unfolding fields
fields_fit h t = (
  refl,
  (
    length-to_le 2 version,
    (
      length-to_le 2 h.needed_reader,
      (
        length-to_le 4 (flags_of h),
        (
          length-to_le 4 h.rule_count,
          (length-to_le 4 h.entry_count, (t.source_hash.0, (t.target_hash.0, tt))),
        ),
      ),
    ),
  ),
)

-- The header of `h` with any checksum of 32 bytes, and a body.
module _ (h : Header) (t : IsTyped h) (sum rest : Bytes) (size : length sum ≡ 32) where
  whole : Bytes
  whole = (join (fields h) ++ sum) ++ rest

  pieces : List Bytes
  pieces = fields h ++ sum ∷ []

  pieces_fit : HaveWidths widths pieces
  unfolding pieces
  pieces_fit = HaveWidths-append front (32 ∷ []) (fields h) (sum ∷ []) (fields_fit h t) (size, tt)

  whole-pieces : whole ≡ join pieces ++ rest
  unfolding whole pieces fields
  whole-pieces = simp (append_assoc, append-nil)

  cut : cuts 0 widths whole ≡ pieces
  cut = rw whole-pieces (cuts-join widths pieces rest pieces_fit)

  length-front : length (join (fields h) ++ sum) ≡ header_len
  length-front = omega (
    arith,
    size,
    length-append (join (fields h)) sum,
    length-join front (fields h) (fields_fit h t),
  )

  length-whole : length whole ≡ header_len + length rest
  unfolding whole
  length-whole = omega (arith, length-front, length-append (join (fields h) ++ sum) rest)

  drop-whole : drop header_len whole ≡ rest
  unfolding whole
  drop-whole = drop_past (join (fields h) ++ sum) rest header_len 0 length-front

  take-whole : take checksum_offset whole ≡ join (fields h)
  unfolding whole
  take-whole = rw append_assoc (
      take_past (join (fields h)) (sum ++ rest) checksum_offset
        (length-join front (fields h) (fields_fit h t)))

  -- Each field at its place.
  fields_at :
      (take 8 (drop 0 whole) ≡ magic)
      × (take 2 (drop 8 whole) ≡ to_le 2 version)
      × (take 2 (drop 10 whole) ≡ to_le 2 h.needed_reader)
      × (take 4 (drop 12 whole) ≡ to_le 4 (flags_of h))
      × (take 4 (drop 16 whole) ≡ to_le 4 h.rule_count)
      × (take 4 (drop 20 whole) ≡ to_le 4 h.entry_count)
      × (take 32 (drop 24 whole) ≡ h.source_hash)
      × (take 32 (drop 56 whole) ≡ h.target_hash)
      × (take 32 (drop 88 whole) ≡ sum)
  unfolding pieces fields
  fields_at = (cc cut, cc cut, cc cut, cc cut, cc cut, cc cut, cc cut, cc cut, cc cut)

  flags_small : flags_of h < 2 ^ 32
  flags_small = rw (flags_of-eq h t) (go h.root_metadata)
    where
      go : (b : Bool) → h.omit.bits * 2 + one_if b < 2 ^ 32
      go true = omega (arith, t.omit)
      go false = omega (arith, t.omit)

  decode_fields-whole :
      (blake3 : Bytes → Bytes) (limits : EnvelopeLimits)
      → Holds h rest limits
      → decode_fields blake3 whole limits ≡ ok (h, rest)
  unfolding decode_fields word FlagsTell
  decode_fields-whole blake3 limits holds =
      let (_, _, reader, flags, rules, entries, source, target, _) = fields_at in
      let (clear, omit, root) = flags_tell h.omit.bits h.root_metadata t.omit in
      rw
        (
          reader,
          flags,
          rules,
          entries,
          source,
          target,
          drop-whole,
          from_le-to_le 2 h.needed_reader t.needed_reader,
          from_le-to_le 4 (flags_of h) flags_small,
          from_le-to_le 4 h.rule_count t.rule_count,
          from_le-to_le 4 h.entry_count t.entry_count,
          flags_of-eq h t,
          clear,
          omit,
          root,
          le→ltb_false version h.needed_reader holds.reader,
          le→ltb_false limits.max_rules h.rule_count holds.rules,
          le→ltb_false limits.max_entries h.entry_count holds.entries,
          le→ltb_false (length rest / 9) h.rule_count holds.rule_room,
          le→ltb_false ((length rest - h.rule_count * 9) / 41) h.entry_count holds.entry_room,
        )
        refl

-- If the hash function returns 32 bytes, a header whose fields are within their types, whose
-- reader version is supported and whose counts are within the limits and not more than the body
-- can hold is read back from its encoding with the body, followed by the body, if the whole is
-- within the limit.
pub decode_prefix-encode_tree :
    (blake3 : Bytes → Bytes)
    → IsHash blake3
    → (h : Header) (body : Bytes) (limits : EnvelopeLimits) → IsTyped h
    → Holds h body limits
    → length (encode blake3 h body ++ body) ≤ limits.max_patch_bytes
    → decode_prefix blake3 (encode blake3 h body ++ body) limits ≡ ok (h, body)
unfolding decode_prefix encode whole
decode_prefix-encode_tree blake3 hash h body limits t holds small =
    let sum = checksum blake3 (join (fields h)) body in
    let size : length sum ≡ 32 = unfold checksum in hash.size _ in
    let (start, number, _, _, _, _, _, _, last) = fields_at h t sum body size in
    let total = length-whole h t sum body size in
    rw
      (
        le→ltb_false limits.max_patch_bytes _ small,
        total,
        le→leb header_len (header_len + length body) (omega arith),
        start,
        number,
        last,
        take-whole h t sum body size,
        drop-whole h t sum body size,
        from_le-to_le 2 version (omega arith),
        bytes_eq_refl magic,
        bytes_eq_refl sum,
      )
      (decode_fields-whole h t sum body size blake3 limits holds)

pub length-encode :
    (blake3 : Bytes → Bytes) (h : Header) (body : Bytes)
    → IsHash blake3
    → IsTyped h
    → length (encode blake3 h body) ≡ header_len
unfolding encode
length-encode blake3 h body hash t =
    length-front h t (checksum blake3 (join (fields h)) body) body (unfold checksum in hash.size _)
