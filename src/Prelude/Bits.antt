-- ===== src/Prelude/Bits.antt =====
-- Masks as arithmetic. Each law is a table over the width's values, checked by evaluation.
pub mod Masks
pub mod Flags
use mathlib.Core.Logic.{ite}
use native.Mathlib.Decide.{ℕ_discrete}
use difz.Prelude.{
  ℕ, zero, suc, ◌*◌, ◌/◌, ◌%◌, ◌<◌, ◌≡◌, refl, Bool, true, false, arith, bit_and, bit_or, ◌+◌, ◌^◌,
  bit_or, ◌+◌, ◌^◌,
}

module _ (f g : ℕ → ℕ) where
  agree_below : ℕ → Bool
  unfolding ℕ_discrete
  agree_below zero = true
  agree_below (suc n) = ite (ℕ_discrete (f n) (g n)) (agree_below n) false

  agree_below→eq : (n : ℕ) → agree_below n ≡ true → (i : ℕ) → i < n → f i ≡ g i
  unfolding agree_below
  agree_below→eq zero e i h = absurd (omega arith)
  agree_below→eq (suc n) e i h = ground (arith, agree_below→eq n (ground arith) i)

-- `flags & !7` on a byte.
pub clear_seven : (b : ℕ) → b < 256 → bit_and b 0xf8 ≡ b / 8 * 8
unfolding agree_below
clear_seven = agree_below→eq _ _ 256 refl

pub low_bit : (b : ℕ) → b < 256 → bit_and b 1 ≡ b % 2
unfolding agree_below
low_bit = agree_below→eq _ _ 256 refl

pub second_bit : (b : ℕ) → b < 256 → bit_and b 2 ≡ b / 2 % 2 * 2
unfolding agree_below
second_bit = agree_below→eq _ _ 256 refl

pub third_bit : (b : ℕ) → b < 256 → bit_and b 4 ≡ b / 4 % 2 * 4
unfolding agree_below
third_bit = agree_below→eq _ _ 256 refl

-- `bits & !0o777` on a 16-bit word.
pub clear_mode : (b : ℕ) → b < 65536 → bit_and b 0xfe00 ≡ b / 512 * 512
unfolding agree_below
clear_mode = agree_below→eq _ _ 65536 refl

-- `(n << 1) | b` on a mask of six bits.
pub or_even : (n : ℕ) → n < 64 → bit_or (n * 2 % 2 ^ 32) 0 ≡ n * 2
unfolding agree_below
or_even = agree_below→eq (λ n. bit_or (n * 2 % 2 ^ 32) 0) (λ n. n * 2) 64 refl

pub or_odd : (n : ℕ) → n < 64 → bit_or (n * 2 % 2 ^ 32) 1 ≡ n * 2 + 1
unfolding agree_below
or_odd = agree_below→eq (λ n. bit_or (n * 2 % 2 ^ 32) 1) (λ n. n * 2 + 1) 64 refl
