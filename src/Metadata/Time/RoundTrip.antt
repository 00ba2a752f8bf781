-- ===== src/Metadata/Time/RoundTrip.antt =====
-- rust/src/metadata.rs, `Time`: the twelve bytes of a time that was decoded.
use difz.Prelude.{
  ◌<◌, ◌≡◌, sym, ap₂, ◌∙◌, ◌++◌, arith, length, take, drop, All, ok, All-append_left,
  All-append_right, take-append-drop, length-take, length-drop, subst,
}
use difz.Prelude.Bytes.{Bytes, IsByte, to_le, from_le, word_of}
use difz.Prelude.Integers.{
  IsI64, i64_to_word, word_to_i64, i64_to_word-word_to_i64, word_to_i64-IsI64,
}
use difz.Metadata.Time
use difz.Metadata.Time.{Time, time_bytes, nsec_limit}

parts :
    (bytes : Bytes) {t : Time}
    → Time.decode bytes ≡ ok t
    → (length bytes ≡ 12)
      × (t.sec ≡ word_to_i64 (from_le (take 8 bytes)))
      × (t.nsec ≡ from_le (drop 8 bytes))
      × (t.nsec < nsec_limit)
unfolding Time.decode
parts bytes h = ground arith

-- Bytes that decode to a time are its encoding.
pub time-eq-ok :
    (bytes : Bytes) (t : Time)
    → All IsByte bytes
    → Time.decode bytes ≡ ok t
    → (bytes ≡ time_bytes t) × IsI64 t.sec × (t.nsec < nsec_limit)
unfolding time_bytes
time-eq-ok bytes t bs h =
    let (size, sec, nsec, small) = parts bytes h in
    let whole = take-append-drop 8 bytes in
    let bs' = rw (← whole) at bs in
    let front =
      word_of 8 (take 8 bytes) (All-append_left IsByte (take 8 bytes) (drop 8 bytes) bs')
        (omega (arith, length-take 8 bytes)) in
    let back =
      word_of 4 (drop 8 bytes) (All-append_right IsByte (take 8 bytes) (drop 8 bytes) bs')
        (omega (arith, length-drop 8 bytes)) in
    let seconds : take 8 bytes ≡ to_le 8 (i64_to_word t.sec) =
      rw (sec, i64_to_word-word_to_i64 (from_le (take 8 bytes)) front.1) (sym front.0) in
    let nanos : drop 8 bytes ≡ to_le 4 t.nsec = rw nsec (sym back.0) in
    (
      sym whole ∙ ap₂ (λ a b. a ++ b) seconds nanos,
      subst IsI64 (sym sec) (word_to_i64-IsI64 (from_le (take 8 bytes)) front.1),
      small,
    )
