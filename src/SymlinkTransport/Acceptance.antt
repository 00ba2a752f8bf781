-- ===== src/SymlinkTransport/Acceptance.antt =====
-- rust/src/symlink_transport.rs, `decode`: what is read, and the constructor's checks.
use difz.Prelude.{
  ℕ, zero, suc, ◌+◌, ◌-◌, ◌/◌, ◌≤◌, ◌≡◌, refl, subst, ap, Bool, true, false, not, List, [], ◌∷◌,
  Option, none, some, arith, length, ltb, ltb_false→le, leb, le→ltb_false, ◌==◌, bit_and, Result,
  ok, err, map_err, map_err-eq-ok, reject, >>-eq-ok, >>=-eq-ok, reject-eq-ok, Bool-cases, inl, inr,
  get_or, drop, ◌||◌,
}
use difz.Prelude.Bytes.{Bytes, bytes_eq, from_le}
use difz.Prelude.Cursor
use difz.Prelude.Cursor.{Cursor, Reader, pure, lift, ◌>>=◌, ◌>>◌}
use difz.Prelude.Cursor.Parses.{bind-eq-ok, take_bytes-eq-ok}
use difz.Metadata.Time
use difz.Metadata.Time.{
  Time, InlineBytes, time_bytes, nsec_limit, encode_time_override, decode_time_override,
}
use difz.Metadata.Kinds
use difz.Metadata.Validation.{CanonicalMetadata}
use difz.Metadata.Decoding
use difz.SymlinkTransport.{
  Error, invalid_transport, max_bytes, max_records, magic, Record, Transport, validate, not_before,
  check_records, new, has_bit,
}
use difz.SymlinkTransport.Decoding.{
  take, byte, word, override_from, record_error, check_count, next, read_records, transport, finish,
  decode,
}

-- Whatever the reader returns has the property.
record Yields {B : Type 0} (m : Reader Error B) (P : B → Type 0) : Type 0 where
  run : (c : Cursor) (b : B) (c' : Cursor) → m c ≡ ok (b, c') → P b

module _ {A B : Type 0} (P : B → Type 0) where
  Yields-bind :
      (m : Reader Error A) (f : A → Reader Error B)
      → ((a : A) → Yields (f a) P)
      → Yields (m >>= f) P
  Yields-bind m f rest = record {
    run = λ c b c' h. let (a, c'', _, later) = bind-eq-ok m f c h in (rest a).run c'' b c' later;
  }

  Yields-lift :
      (r : Result Error A) (f : A → Reader Error B)
      → ((a : A) → r ≡ ok a → Yields (f a) P)
      → Yields (lift r >>= f) P
  Yields-lift (ok a) f rest = record { run = λ c b c' h. (rest a refl).run c b c' h }
  Yields-lift (err e) f rest = record { run = λ c b c' h. cc h }

Yields-pure : {B : Type 0} (P : B → Type 0) (b : B) → P b → Yields (pure b) P
Yields-pure P b p = record { run = λ c b' c' h. let same : b ≡ b' = cc h in subst P same p }

-- A time that was decoded is civil, so that it is encoded.
encode-decode_time :
    (bytes : Bytes) (t : Time) → Time.decode bytes ≡ ok t → Time.encode t ≡ ok (time_bytes t)
unfolding Time.decode Time.encode
encode-decode_time bytes t h =
    let nsec = from_le (drop 8 bytes) in
    let (_, h₁) = >>-eq-ok (reject (not (length bytes == 12)) Kinds.Error.bad_metadata) _ h in
    let (civil, made) = >>-eq-ok (reject (leb nsec_limit nsec) Kinds.Error.invalid_nsec) _ h₁ in
    let same : nsec ≡ t.nsec = cc made in
    let small : leb nsec_limit t.nsec ≡ false =
      rw same at (reject-eq-ok (leb nsec_limit nsec) Kinds.Error.invalid_nsec civil) in
    rw small refl

encode-decode_override :
    (bytes : Bytes) (o : Option Time)
    → decode_time_override bytes ≡ ok o
    → (inline : InlineBytes) × (encode_time_override o ≡ ok inline)
unfolding decode_time_override encode_time_override
encode-decode_override bytes none h = (_, refl)
encode-decode_override bytes (some t) h = elim (Bool-cases (bytes_eq bytes (0 ∷ []))) [
  | inl empty ↦ absurd (cc (rw (decode_time_override, empty) at h))
  | inr full ↦
      let h₀ = rw (decode_time_override, full) at h in
      let (_, h₁) =
        >>-eq-ok
          (reject (not (length bytes == 13) || not (get_or bytes 0 0 == 1))
            Kinds.Error.bad_metadata)
          _ h₀ in
      let (time, read, made) = >>=-eq-ok (Time.decode (drop 1 bytes)) _ h₁ in
      let same : time ≡ t = cc made in
      (
        record { bytes = 1 ∷ time_bytes t; size = 13 },
        rw
            (encode-decode_time (drop 1 bytes) t
              (subst (λ x. Time.decode (drop 1 bytes) ≡ ok x) same read))
            refl,
      )
]

-- What the constructor asks of a record behind another.
abbrev Follows : Option Bytes → Record → Type 0
Follows previous r =
    (validate r ≡ ok tt)
    × (not_before previous r.name ≡ false)
    × ((inline : InlineBytes) × (encode_time_override r.observed_mtime ≡ ok inline))

abbrev read_as : Bytes → CanonicalMetadata → ℕ → Option Time → Record
read_as name metadata flags observed = record {
  name = name;
  metadata = metadata;
  absent_times = bit_and flags 7;
  observed_mtime = observed;
  acl_override = has_bit flags 8;
  finder_override = has_bit flags 16;
}

take_moves :
    (n : ℕ) (c : Cursor) {v : Bytes} {c' : Cursor}
    → take n c ≡ ok (v, c')
    → (length c'.bytes ≡ length c.bytes) × (c'.offset ≡ c.offset + n)
unfolding take
take_moves n c h =
    let (_, _, moved) = take_bytes-eq-ok invalid_transport n c h in
    (ap (λ k. length k.bytes) moved, ap (λ k. k.offset) moved)

word_moves :
    (c : Cursor) {v : ℕ} {c' : Cursor}
    → word c ≡ ok (v, c')
    → (length c'.bytes ≡ length c.bytes) × (c'.offset ≡ c.offset + 4)
unfolding word Cursor.word take
word_moves c {v} {c'} h =
    let (bytes, c₁, taken, made) = bind-eq-ok (take 4) (λ bytes. pure (from_le bytes)) c h in
    let same : c₁ ≡ c' = cc made in
    subst (λ k. (length k.bytes ≡ length c.bytes) × (k.offset ≡ c.offset + 4)) same
      (take_moves 4 c taken)

module _ (reserve : ℕ → Bool) where
  Yields-next : (previous : Option Bytes) → Yields (next reserve previous) (Follows previous)
  unfolding next
  Yields-next previous = Yields-bind _ word _ λ name_size. Yields-bind _ word _ λ record_size.
      Yields-bind _ byte _ λ flags.
        Yields-lift _ (reject (not (bit_and flags 0xe0 == 0)) invalid_transport) _ λ _ _.
          Yields-bind _ byte _ λ tag. Yields-bind _ (override_from tag) _ λ bytes.
            Yields-lift _ (map_err (λ e. invalid_transport) (decode_time_override bytes)) _
              λ observed timed. Yields-bind _ (take name_size) _ λ name.
                Yields-bind _ (take record_size) _ λ blob.
                  Yields-lift _ (map_err record_error (Decoding.decode reserve blob)) _
                    λ metadata _.
                      Yields-lift _ (validate (read_as name metadata flags observed)) _ λ _ valid.
                        Yields-lift _ (reject (not_before previous name) invalid_transport) _
                          λ _ before.
                            Yields-pure (Follows previous) (read_as name metadata flags observed) (
                              valid,
                              reject-eq-ok (not_before previous name) invalid_transport before,
                              encode-decode_override bytes observed (
                                  map_err-eq-ok (λ e. invalid_transport)
                                    (decode_time_override bytes) timed),
                            )

  -- Records that are read form a chain, and are as many as were counted.
  Yields-records :
      (n : ℕ) (previous : Option Bytes)
      → Yields
          (read_records reserve n previous)
          (λ records. (check_records previous records ≡ ok tt) × (length records ≡ n))
  unfolding read_records check_records
  Yields-records zero previous = Yields-pure _ [] (refl, refl)
  Yields-records (suc n) previous = record {
    run = λ c records c' h.
        let (r, c₁, first, h₁) =
          bind-eq-ok (next reserve previous)
            (λ r. read_records reserve n (some r.name) >>= λ rest. pure (r ∷ rest)) c h in
        let (rest, c₂, others, made) =
          bind-eq-ok (read_records reserve n (some r.name)) (λ rest. pure (r ∷ rest)) c₁ h₁ in
        let (valid, before, (inline, civil)) = (Yields-next previous).run c r c₁ first in
        let (chain, size) = (Yields-records n (some r.name)).run c₁ rest c₂ others in
        let whole : r ∷ rest ≡ records = cc made in
        subst (λ rs. (check_records previous rs ≡ ok tt) × (length rs ≡ suc n)) whole
          (rw (valid, before, civil, chain) refl, ap suc size);
  }

  count_fits :
      (count : ℕ) (c : Cursor) {u : Unit {0}} {c' : Cursor}
      → check_count reserve count c ≡ ok (u, c')
      → (count ≤ (length c.bytes - c.offset) / 31) × (c ≡ c')
  unfolding check_count
  count_fits count c h = elim (Bool-cases (ltb ((length c.bytes - c.offset) / 31) count)) [
    | inl many ↦ cc (rw (check_count, many) at h)
    | inr few ↦ elim (Bool-cases (reserve count)) [
      | inl granted ↦ (ltb_false→le _ _ few, cc (rw (check_count, few, granted) at h))
      | inr refused ↦ cc (rw (check_count, few, refused) at h)
    ]
  ]

  -- The count is at most what the bytes behind it can hold.
  counted :
      (c : Cursor) {records : List Record} {c' : Cursor}
      → (word >>= λ count. check_count reserve count >> read_records reserve count none) c
        ≡ ok (records, c')
      → (check_records none records ≡ ok tt)
        × (length records ≤ (length c.bytes - (c.offset + 4)) / 31)
  counted c {records} {c'} h =
      let (count, c₁, first, h₁) =
        bind-eq-ok word (λ count. check_count reserve count >> read_records reserve count none) c
          h in
      let (u, c₂, checked, h₂) =
        bind-eq-ok (check_count reserve count) (λ _. read_records reserve count none) c₁ h₁ in
      let (few, _) = count_fits count c₁ checked in
      let (bytes, offset) = word_moves c first in
      let (chain, size) = (Yields-records count none).run c₂ records c' h₂ in
      (chain, rw (size, ← bytes, ← offset) few)

  transport-eq-ok :
      (bytes : Bytes) {records : List Record} {c' : Cursor}
      → length bytes ≤ max_bytes
      → transport reserve (record { bytes = bytes; offset = 0 }) ≡ ok (records, c')
      → (check_records none records ≡ ok tt) × (length records ≤ max_records)
  unfolding transport
  transport-eq-ok bytes {records} {c'} small h =
      let (start, c₁, first, h₁) = bind-eq-ok (take 9) _ (record { bytes = bytes; offset = 0 }) h in
      let (size, offset) = take_moves 9 (record { bytes = bytes; offset = 0 }) first in
      let (chain, few) = behind (bytes_eq start magic) c₁ h₁ in
      (
        chain,
        within (length c₁.bytes) c₁.offset (length records) (omega (arith, size, small))
            (omega (arith, offset)) few,
      )
    where
      behind :
          (same : Bool) (c : Cursor)
          → (lift (reject (not same) invalid_transport)
                >> (word >>= λ count. check_count reserve count >> read_records reserve count none))
              c
            ≡ ok (records, c')
          → (check_records none records ≡ ok tt)
            × (length records ≤ (length c.bytes - (c.offset + 4)) / 31)
      behind true c e = counted c e
      behind false c e = cc e

      within :
          (size offset n : ℕ)
          → size ≤ 65536
          → offset ≡ 9
          → n ≤ (size - (offset + 4)) / 31
          → n ≤ 2113
      within size offset n fits nine few = omega (arith, fits, nine, few)

  accepted :
      (records : List Record)
      → check_records none records ≡ ok tt
      → length records ≤ max_records
      → new records ≡ ok (record { records = records })
  unfolding new
  accepted records chain few = rw (le→ltb_false max_records (length records) few, chain) refl

  finished :
      (bytes : Bytes) (t : Transport) (r : Result Error (List Record × Cursor))
      → transport reserve (record { bytes = bytes; offset = 0 }) ≡ r
      → finish reserve r ≡ ok t
      → length bytes ≤ max_bytes
      → new t.records ≡ ok t
  unfolding finish
  finished bytes t (err e) read h small = cc h
  finished bytes t (ok (records, c)) read h small = elim (Bool-cases (c.offset == length c.bytes)) [
    | inl whole ↦
        let (chain, few) = transport-eq-ok bytes small read in
        let same : record { records = records } ≡ t = cc (rw (finish, whole) at h) in
        subst (λ x. new x.records ≡ ok x) same (accepted records chain few)
    | inr part ↦ cc (rw (finish, part) at h)
  ]

  -- If `decode` returns a transport, whatever the bytes are and the allocator answers, `new`
  -- accepts its records: each of them passes its checks, the names ascend strictly, every
  -- observed time is civil, and there are no more records than the limit.
  pub decode-eq-ok_links :
      (bytes : Bytes) (t : Transport) → decode reserve bytes ≡ ok t → new t.records ≡ ok t
  unfolding decode
  decode-eq-ok_links bytes t h = elim (Bool-cases (ltb max_bytes (length bytes))) [
    | inl long ↦ cc (rw (decode, long) at h)
    | inr small ↦
        finished bytes t (transport reserve (record { bytes = bytes; offset = 0 })) refl
          (rw (decode, small) at h) (ltb_false→le _ _ small)
  ]
