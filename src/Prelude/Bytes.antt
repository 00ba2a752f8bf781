-- ===== src/Prelude/Bytes.antt =====
-- Byte strings: a byte is a number below 256; words in little-endian order; equality and order.
use native.Mathlib.Nat.{pow-suc}
use difz.Prelude.{
  subst, ap₂, ℕ, zero, suc, ◌+◌, ◌*◌, ◌/◌, ◌%◌, ◌^◌, ◌<◌, ◌≡◌, refl, ap, ◌↔◌, Bool, true, false,
  ◌&&◌, List, [], ◌∷◌, arith, ◌==◌, length, All,
}

abbrev pub IsByte : ℕ → Type 0
IsByte b = b < 256

abbrev pub Bytes : Type 0
Bytes = List ℕ

-- `to_le_bytes` of a word of `w` bytes, and `from_le_bytes`.
unfoldable pub to_le : ℕ → ℕ → Bytes
to_le zero v = []
to_le (suc w) v = (v % 256) ∷ to_le w (v / 256)

unfoldable pub from_le : Bytes → ℕ
from_le [] = 0
from_le (b ∷ bs) = b + 256 * from_le bs

pub length-to_le : (w v : ℕ) → length (to_le w v) ≡ w
unfolding to_le
length-to_le zero v = refl
length-to_le (suc w) v = ap suc (length-to_le w (v / 256))

pub to_le-IsByte : (w v : ℕ) → All IsByte (to_le w v)
unfolding to_le
to_le-IsByte zero v = tt
to_le-IsByte (suc w) v = (omega arith, to_le-IsByte w (v / 256))

pub from_le-to_le : (w v : ℕ) → v < 256 ^ w → from_le (to_le w v) ≡ v
unfolding to_le from_le
from_le-to_le zero v h = omega arith
from_le-to_le (suc w) v h = omega (arith, from_le-to_le w (v / 256) (omega (arith, pow-suc 256 w)))

quotient : (b n : ℕ) → b < 256 → (b + 256 * n) / 256 ≡ n
quotient b n h = omega arith

pub to_le-from_le : (bs : Bytes) → All IsByte bs → to_le (length bs) (from_le bs) ≡ bs
unfolding to_le from_le
to_le-from_le [] h = refl
to_le-from_le (b ∷ bs) h =
    ap₂ (λ x y. x ∷ y) (omega arith) (rw (quotient b (from_le bs) h.0) (to_le-from_le bs h.1))

pub from_le-lt : (bs : Bytes) → All IsByte bs → from_le bs < 256 ^ length bs
unfolding from_le
from_le-lt [] h = omega arith
from_le-lt (b ∷ bs) h = omega (arith, pow-suc 256 (length bs), from_le-lt bs h.1)

-- Equality of byte strings, as the source's `==` on slices.
unfoldable pub bytes_eq : Bytes → Bytes → Bool
bytes_eq [] [] = true
bytes_eq [] (y ∷ ys) = false
bytes_eq (x ∷ xs) [] = false
bytes_eq (x ∷ xs) (y ∷ ys) = x == y && bytes_eq xs ys

pub bytes_eq→eq : (xs ys : Bytes) → bytes_eq xs ys ≡ true → xs ≡ ys
unfolding bytes_eq
bytes_eq→eq [] [] h = refl
bytes_eq→eq [] (y ∷ ys) h = cc
bytes_eq→eq (x ∷ xs) [] h = cc
bytes_eq→eq (x ∷ xs) (y ∷ ys) h = ground (arith, bytes_eq→eq xs ys)

pub bytes_eq_refl : (xs : Bytes) → bytes_eq xs xs ≡ true
unfolding bytes_eq
bytes_eq_refl [] = refl
bytes_eq_refl (x ∷ xs) = ground (arith, bytes_eq_refl xs)

pub bytes_eq_iff : (xs ys : Bytes) → (bytes_eq xs ys ≡ true) ↔ (xs ≡ ys)
bytes_eq_iff xs ys =
    (bytes_eq→eq xs ys, λ e. subst (λ t. bytes_eq xs t ≡ true) e (bytes_eq_refl xs))

-- A word is what its bytes stand for.
pub word_of :
    (w : ℕ) (bytes : Bytes)
    → All IsByte bytes
    → length bytes ≡ w
    → (to_le w (from_le bytes) ≡ bytes) × (from_le bytes < 256 ^ w)
word_of w bytes bs size = rw (← size) (to_le-from_le bytes bs, from_le-lt bytes bs)
