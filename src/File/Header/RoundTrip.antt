-- ===== src/File/Header/RoundTrip.antt =====
-- rust/src/lib.rs: the header, encoded and decoded.
use difz.Prelude.{
  ℕ, ◌+◌, ◌^◌, ◌<◌, ◌≤◌, ◌≡◌, refl, sym, ap, ap₂, ◌∙◌, ◌↔◌, Bool, true, false, not, ◌&&◌, ◌++◌,
  append_assoc, arith, length, length-append, take, drop, drop_past, take_past, chop, All-take,
  All-drop, ◌≢◌, All-take, All-drop, length-take, length-drop, leb, le→leb, Result, ok, err, ◌>>◌,
  reject, All, >>-eq-ok,
}
use difz.Prelude.Bytes.{
  Bytes, IsByte, bytes_eq, bytes_eq_refl, bytes_eq→eq, to_le, from_le, length-to_le, from_le-to_le,
  word_of,
}
use difz.File.Header.{
  Header, HeaderError, invalid_magic, truncated, magic, header_len, encode, decode_prefix, slice,
  IsTyped, source_hash_at, target_hash_at, source_length_at, target_length_at,
}

-- Five pieces behind one another, each cut out again.
module _ (s t a b f : Bytes) (hs : length s ≡ 32) (ht : length t ≡ 32) (ha : length a ≡ 8)
    (hb : length b ≡ 8) where
  pieces : Bytes
  pieces = s ++ (t ++ (a ++ (b ++ f)))

  length-pieces : length pieces ≡ 80 + length f
  unfolding pieces
  length-pieces = omega (arith, length-append {0}, hs, ht, ha, hb)

  cut :
      (take 32 pieces ≡ s)
      × (take 32 (drop 32 pieces) ≡ t)
      × (take 8 (drop 64 pieces) ≡ a)
      × (take 8 (drop 72 pieces) ≡ b)
      × (drop 80 pieces ≡ f)
  unfolding pieces
  cut =
      let past_s = λ (k : ℕ). drop_past s (t ++ (a ++ (b ++ f))) 32 k hs in
      let past_t = λ (k : ℕ). drop_past t (a ++ (b ++ f)) 32 k ht in
      let past_a = λ (k : ℕ). drop_past a (b ++ f) 8 k ha in
      let past_b = λ (k : ℕ). drop_past b f 8 k hb in
      (
        take_past s _ 32 hs,
        ap (take 32) (past_s 0) ∙ take_past t _ 32 ht,
        ap (take 8) (past_s 32 ∙ past_t 0) ∙ take_past a _ 8 ha,
        ap (take 8) (past_s 40 ∙ past_t 8 ∙ past_a 0) ∙ take_past b _ 8 hb,
        past_s 48 ∙ past_t 16 ∙ past_a 8 ∙ past_b 0,
      )

encode-pieces :
    (h : Header) (frame : Bytes)
    → encode h ++ frame
      ≡ magic
        ++ (h.source_hash
            ++ (h.target_hash ++ (to_le 8 h.source_len ++ (to_le 8 h.target_len ++ frame))))
unfolding encode
encode-pieces h frame = simp append_assoc

-- Decoding the encoding of a header whose fields are within their types, followed by any frame,
-- returns the header and the frame.
pub decode_prefix-encode :
    (h : Header) (frame : Bytes) → IsTyped h → decode_prefix (encode h ++ frame) ≡ ok (h, frame)
unfolding decode_prefix pieces bytes_eq
decode_prefix-encode h frame t =
    let a = length-to_le 8 h.source_len in
    let b = length-to_le 8 h.target_len in
    let (c₁, c₂, c₃, c₄, c₅) =
      cut h.source_hash h.target_hash _ _ frame t.source_hash.0 t.target_hash.0 a b in
    let size =
      length-pieces h.source_hash h.target_hash _ _ frame t.source_hash.0 t.target_hash.0 a b in
    let total : length (encode h ++ frame) ≡ 85 + length frame =
      rw (encode-pieces h frame) (omega (arith, size)) in
    rw
      (
        total,
        le→leb 5 (85 + length frame) (omega arith),
        le→leb 85 (85 + length frame) (omega arith),
        encode-pieces h frame,
        c₁,
        c₂,
        c₃,
        c₄,
        c₅,
        from_le-to_le 8 h.source_len t.source_len,
        from_le-to_le 8 h.target_len t.target_len,
      )
      refl

-- The header that the positions of `bytes` hold.
abbrev header_at : Bytes → Header
header_at bytes = record {
  source_hash = slice bytes source_hash_at target_hash_at;
  target_hash = slice bytes target_hash_at source_length_at;
  source_len = from_le (slice bytes source_length_at target_length_at);
  target_len = from_le (slice bytes target_length_at header_len);
}

module _ (bytes : Bytes) (bs : All IsByte bytes) (long : header_len ≤ length bytes) where
  -- A range of the input: its length, and its bytes.
  range :
      (low width : ℕ)
      → low + width ≤ header_len
      → (length (take width (drop low bytes)) ≡ width) × All IsByte (take width (drop low bytes))
  range low width h = (
    omega (arith, length-take width (drop low bytes), length-drop low bytes, long),
    All-take IsByte width (drop low bytes) (All-drop IsByte low bytes bs),
  )

  word_at :
      (low : ℕ)
      → low + 8 ≤ header_len
      → (to_le 8 (from_le (take 8 (drop low bytes))) ≡ take 8 (drop low bytes))
        × (from_le (take 8 (drop low bytes)) < 256 ^ 8)
  word_at low h = let (size, bytes') = range low 8 h in word_of 8 _ bytes' size

  header_at-IsTyped : IsTyped (header_at bytes)
  header_at-IsTyped = record {
    source_hash = range 5 32 (omega arith);
    target_hash = range 37 32 (omega arith);
    source_len = (word_at 69 (omega arith)).1;
    target_len = (word_at 77 (omega arith)).1;
  }

  encode-header_at :
      take 5 bytes ≡ magic → bytes ≡ encode (header_at bytes) ++ drop header_len bytes
  encode-header_at start =
      chop 0 5 bytes
      ∙ ap₂ (λ x y. x ++ y) start
          (chop 5 32 bytes
            ∙ ap (λ y. take 32 (drop 5 bytes) ++ y)
                (chop 37 32 bytes
                  ∙ ap (λ y. take 32 (drop 37 bytes) ++ y)
                      (chop 69 8 bytes
                        ∙ ap₂ (λ x y. x ++ y) (sym (word_at 69 (omega arith)).0)
                            (chop 77 8 bytes
                              ∙ ap (λ x. x ++ drop header_len bytes)
                                  (sym (word_at 77 (omega arith)).0)))))
      ∙ sym (encode-pieces (header_at bytes) (drop header_len bytes))

-- If a list of bytes decodes to a header and a frame, the bytes are the header's encoding
-- followed by the frame, and the header's fields are within their types.
pub decode_prefix-eq-ok :
    (bytes : Bytes) (h : Header) (frame : Bytes)
    → All IsByte bytes
    → decode_prefix bytes ≡ ok (h, frame)
    → (bytes ≡ encode h ++ frame) × IsTyped h
unfolding decode_prefix
decode_prefix-eq-ok bytes h frame bs e =
    let (r₁, e₁) =
      >>-eq-ok (reject (not (leb 5 (length bytes) && bytes_eq (take 5 bytes) magic)) invalid_magic)
        _ e in
    let (r₂, e₂) = >>-eq-ok (reject (not (leb header_len (length bytes))) truncated) _ e₁ in
    let start : take 5 bytes ≡ magic = ground (arith, bytes_eq→eq (take 5 bytes) magic) in
    let long : header_len ≤ length bytes = ground arith in
    let same : header_at bytes ≡ h = cc e₂ in
    let rest : drop header_len bytes ≡ frame = cc e₂ in
    rw (← same, ← rest) (encode-header_at bytes bs long start, header_at-IsTyped bytes bs long)

other_answer :
    (b : Bool) (r : Header × Bytes)
    → ◌≢◌ {A = Result HeaderError (Header × Bytes)} (reject b truncated >> ok r) (err invalid_magic)
other_answer true r e = cc
other_answer false r e = cc

-- Decoding reports a bad magic exactly when the first five bytes are not the magic; of a shorter
-- input these are all its bytes.
pub decode_prefix-invalid_magic_iff :
    (bytes : Bytes) → (decode_prefix bytes ≡ err invalid_magic) ↔ (take 5 bytes ≢ magic)
unfolding decode_prefix
decode_prefix-invalid_magic_iff bytes = (
  λ e start.
      let size : 5 ≤ length bytes = omega (arith, length-take 5 bytes, ap (length {A = ℕ}) start) in
      let no : reject (not (leb 5 (length bytes) && bytes_eq (take 5 bytes) magic)) invalid_magic
          ≡ ok tt =
        rw (le→leb 5 (length bytes) size, start, bytes_eq_refl magic) in
      other_answer (not (leb header_len (length bytes))) _ (rw no at e),
  λ ne. ground (arith, bytes_eq→eq (take 5 bytes) magic, ne),
)
