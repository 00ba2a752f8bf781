-- ===== src/Prelude/Bits/Masks.antt =====
-- Tests of the high bits of a word: `bits & !low != 0`, at any width.
use Prim.Native.Nat.{digits, bit_and-bitwise}
use native.Mathlib.Nat.{pow-suc, one-le-pow}
use difz.Prelude.{ℕ, zero, suc, ◌+◌, ◌*◌, ◌/◌, ◌^◌, ◌≤◌, ◌<◌, ◌≡◌, ◌↔◌, refl, arith, bit_and, min}

-- `w` ones above `k` zeros.
ones : ℕ → ℕ
ones zero = 0
ones (suc w) = ones w * 2 + 1

pub mask : ℕ → ℕ → ℕ
unfolding ones
mask w zero = ones w
mask w (suc k) = mask w k * 2

abbrev anding : ℕ → ℕ → ℕ → ℕ
anding n a b = digits (λ c. 0) min n a b

half : (m : ℕ) → m * 2 / 2 ≡ m
half m = omega arith

half_odd : (m : ℕ) → (m * 2 + 1) / 2 ≡ m
half_odd m = omega arith

sum_zero : (x y : ℕ) → x * 2 + y ≡ 0 → (x ≡ 0) × (y ≡ 0)
sum_zero x y e = (omega (arith, e), omega (arith, e))

-- Ones select every digit of a number that they cover.
ones-zero : (n w a : ℕ) → a ≤ n → a < 2 ^ w → anding n a (ones w) ≡ 0 → a ≡ 0
unfolding ones
ones-zero n zero a fits low e = omega (arith, low)
ones-zero zero (suc w) a fits low e = omega (arith, fits)
ones-zero (suc n) (suc w) zero fits low e = refl
ones-zero (suc n) (suc w) (suc a) fits low e =
    let (above, here) = sum_zero _ _ e in
    let none_above =
      ones-zero n w (suc a / 2) (omega (arith, fits)) (omega (arith, pow-suc 2 w, low))
        (rw (half_odd (ones w)) at above) in
    absurd (omega (arith, none_above, here))

-- A mask above the digits of a number selects none of them.
mask-low : (n w k a : ℕ) → a ≤ n → a < 2 ^ k → anding n a (mask w k) ≡ 0
unfolding mask
mask-low n w zero zero fits low = mask-low_zero n w
  where
    mask-low_zero : (n w : ℕ) → anding n 0 (ones w) ≡ 0
    mask-low_zero zero w = refl
    mask-low_zero (suc n) w = refl
mask-low n w zero (suc a) fits low = absurd (omega (arith, low))
mask-low zero w (suc k) a fits low = refl
mask-low (suc n) w (suc k) zero fits low = refl
mask-low (suc n) w (suc k) (suc a) fits low =
    let above =
      mask-low n w k (suc a / 2) (omega (arith, fits)) (omega (arith, pow-suc 2 k, low)) in
    rw (half (mask w k), above) (omega arith)

mask-zero : (n w k a : ℕ) → a ≤ n → a < 2 ^ (w + k) → anding n a (mask w k) ≡ 0 → a < 2 ^ k
unfolding mask
mask-zero n w zero a fits low e =
    let width : w + zero ≡ w = omega arith in
    omega (arith, ones-zero n w a fits (rw width at low) e)
mask-zero zero w (suc k) a fits low e = omega (arith, fits, pow-suc 2 k, one-le-pow k 2)
mask-zero (suc n) w (suc k) zero fits low e = omega (arith, pow-suc 2 k, one-le-pow k 2)
mask-zero (suc n) w (suc k) (suc a) fits low e =
    let width : w + suc k ≡ suc (w + k) = omega arith in
    let (above, here) = sum_zero _ _ e in
    let bound : suc a < 2 ^ suc (w + k) = rw width at low in
    let below =
      mask-zero n w k (suc a / 2) (omega (arith, fits)) (omega (arith, pow-suc 2 (w + k), bound))
        (rw (half (mask w k)) at above) in
    omega (arith, pow-suc 2 k, below)

-- A word of `w + k` digits has no digit under the mask exactly when it is below `2 ^ k`.
pub bit_and-mask_iff : (w k a : ℕ) → a < 2 ^ (w + k) → (bit_and a (mask w k) ≡ 0) ↔ (a < 2 ^ k)
bit_and-mask_iff w k a h =
    simp bit_and-bitwise
      (λ e. mask-zero a w k a (omega arith) h e, λ low. mask-low a w k a (omega arith) low)

pub mask_seven : mask 25 7 ≡ 0xffff_ff80
unfolding mask
mask_seven = refl

pub mask_six : mask 26 6 ≡ 0xffff_ffc0
unfolding mask
mask_six = refl
