-- ===== src/Prelude/Integers.antt =====
-- Rust's i64: an integer in range, and the 64-bit word that stands for it.
use difz.Prelude.{ℕ, ◌-◌, ◌^◌, ◌<◌, ◌≡◌, arith, ltb, Bool-cases, inl, inr, if◌then◌else◌}

-- `negsuc n` is -(n + 1).
pub data ℤ : Type 0 where
  pos : ℕ → ℤ
  negsuc : ℕ → ℤ

abbrev pub IsI64 : ℤ → Type 0
IsI64 (pos n) = n < 2 ^ 63
IsI64 (negsuc n) = n < 2 ^ 63

-- Two's complement.
unfoldable pub i64_to_word : ℤ → ℕ
i64_to_word (pos n) = n
i64_to_word (negsuc n) = 2 ^ 64 - 1 - n

unfoldable pub word_to_i64 : ℕ → ℤ
word_to_i64 w = if ltb w (2 ^ 63) then pos w else negsuc (2 ^ 64 - 1 - w)

pub i64_to_word-lt : (z : ℤ) → IsI64 z → i64_to_word z < 2 ^ 64
unfolding i64_to_word
i64_to_word-lt (pos n) h = omega arith
i64_to_word-lt (negsuc n) h = omega arith

pub word_to_i64-i64_to_word : (z : ℤ) → IsI64 z → word_to_i64 (i64_to_word z) ≡ z
unfolding word_to_i64 i64_to_word
word_to_i64-i64_to_word (pos n) h = ground arith
word_to_i64-i64_to_word (negsuc n) h = ground arith

pub i64_to_word-word_to_i64 : (w : ℕ) → w < 2 ^ 64 → i64_to_word (word_to_i64 w) ≡ w
unfolding word_to_i64 i64_to_word
i64_to_word-word_to_i64 w h = ground arith

pub word_to_i64-IsI64 : (w : ℕ) → w < 2 ^ 64 → IsI64 (word_to_i64 w)
unfolding word_to_i64
word_to_i64-IsI64 w h = elim (Bool-cases (ltb w (2 ^ 63))) [
  | inl low ↦ rw low (ground arith)
  | inr high ↦ rw high (ground arith)
]
