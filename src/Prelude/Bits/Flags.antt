-- ===== src/Prelude/Bits/Flags.antt =====
-- A byte of three bits and two flags above them, taken apart again.
use difz.Prelude.{ℕ, ◌<◌, ◌≡◌, refl, Bool, true, false, bit_and, bit_or, if◌then◌else◌}
use difz.Prelude.Bits.{agree_below, agree_below→eq}

abbrev pub packed : ℕ → Bool → Bool → ℕ
packed a b c = bit_or (bit_or a (if b then 8 else 0)) (if c then 16 else 0)

module _ (a : ℕ) (h : a < 8) where
  pub packed-high : (b c : Bool) → bit_and (packed a b c) 0xe0 ≡ 0
  unfolding agree_below
  packed-high true true =
      agree_below→eq (λ n. bit_and (packed n true true) 0xe0) (λ n. 0) 8 refl a h
  packed-high true false =
      agree_below→eq (λ n. bit_and (packed n true false) 0xe0) (λ n. 0) 8 refl a h
  packed-high false true =
      agree_below→eq (λ n. bit_and (packed n false true) 0xe0) (λ n. 0) 8 refl a h
  packed-high false false =
      agree_below→eq (λ n. bit_and (packed n false false) 0xe0) (λ n. 0) 8 refl a h

  pub packed-low : (b c : Bool) → bit_and (packed a b c) 7 ≡ a
  unfolding agree_below
  packed-low true true = agree_below→eq (λ n. bit_and (packed n true true) 7) (λ n. n) 8 refl a h
  packed-low true false = agree_below→eq (λ n. bit_and (packed n true false) 7) (λ n. n) 8 refl a h
  packed-low false true = agree_below→eq (λ n. bit_and (packed n false true) 7) (λ n. n) 8 refl a h
  packed-low false false =
      agree_below→eq (λ n. bit_and (packed n false false) 7) (λ n. n) 8 refl a h

  pub packed-first : (b c : Bool) → bit_and (packed a b c) 8 ≡ (if b then 8 else 0)
  unfolding agree_below
  packed-first true true = agree_below→eq (λ n. bit_and (packed n true true) 8) (λ n. 8) 8 refl a h
  packed-first true false =
      agree_below→eq (λ n. bit_and (packed n true false) 8) (λ n. 8) 8 refl a h
  packed-first false true =
      agree_below→eq (λ n. bit_and (packed n false true) 8) (λ n. 0) 8 refl a h
  packed-first false false =
      agree_below→eq (λ n. bit_and (packed n false false) 8) (λ n. 0) 8 refl a h

  pub packed-second : (b c : Bool) → bit_and (packed a b c) 16 ≡ (if c then 16 else 0)
  unfolding agree_below
  packed-second true true =
      agree_below→eq (λ n. bit_and (packed n true true) 16) (λ n. 16) 8 refl a h
  packed-second true false =
      agree_below→eq (λ n. bit_and (packed n true false) 16) (λ n. 0) 8 refl a h
  packed-second false true =
      agree_below→eq (λ n. bit_and (packed n false true) 16) (λ n. 16) 8 refl a h
  packed-second false false =
      agree_below→eq (λ n. bit_and (packed n false false) 16) (λ n. 0) 8 refl a h
