-- ===== src/File/Codec/Window.antt =====
-- rust/zstdz/src/lib.rs, `window_log`: the window for two lengths.
use native.Mathlib.Nat.{pow-suc, pow-le-pow_right}
use difz.Prelude.{
  ℕ, zero, suc, ◌-◌, ◌/◌, ◌^◌, ◌<◌, ◌≤◌, ◌≡◌, ◌⊎◌, inl, inr, refl, ◌||◌, arith, ltb, ◌==◌, min, max,
  ok, reject, reject-or, >>-eq-ok, reject-eq-ok, Bool-cases, ltb_false→le, ltb→lt,
}
use difz.File.Codec.{window_too_large, max_input_len, digits, bit_length, window_log}

pub window_log-eq-ok :
    (s t : ℕ) {w : ℕ} → window_log s t ≡ ok w → (s ≤ max_input_len) × (t ≤ max_input_len)
unfolding window_log
window_log-eq-ok s t e =
    let (small, _) =
      >>-eq-ok (reject (ltb max_input_len s || ltb max_input_len t) window_too_large) _ e in
    let (s_fits, rest) =
      reject-or (ltb max_input_len s) (ltb max_input_len t) window_too_large small in
    (
      ltb_false→le max_input_len s s_fits,
      ltb_false→le max_input_len t (reject-eq-ok (ltb max_input_len t) window_too_large rest),
    )

-- `digits` counts the binary digits: it is the least power of two above the number.
digits_bound : (fuel n : ℕ) → n < 2 ^ fuel → n < 2 ^ digits fuel n
digits_bound zero n h = h
digits_bound (suc fuel) n h = elim (Bool-cases (n == 0)) [
  | inl nothing ↦ rw nothing (ground arith)
  | inr some_bits ↦ rw some_bits (
      omega (
        arith,
        pow-suc 2 (digits fuel (n / 2)),
        digits_bound fuel (n / 2) (omega (arith, pow-suc 2 fuel, h)),
      ))
]

digits_least : (fuel n : ℕ) (d : ℕ) → digits fuel n ≡ suc d → 2 ^ d ≤ n
digits_least zero n d e = absurd (omega (arith, e))
digits_least (suc fuel) n d e = elim (Bool-cases (n == 0)) [
  | inl nothing ↦ absurd (omega (arith, rw nothing at e))
  | inr some_bits ↦
      by_rest d (omega (arith, rw some_bits at e)) (ground arith) (digits_least fuel (n / 2))
]
  where
    by_rest :
        (k : ℕ)
        → digits fuel (n / 2) ≡ k
        → 0 < n
        → ((j : ℕ) → digits fuel (n / 2) ≡ suc j → 2 ^ j ≤ n / 2)
        → 2 ^ k ≤ n
    by_rest zero q pos ih = omega arith
    by_rest (suc j) q pos ih = omega (arith, pow-suc 2 j, ih j q)

two_pow_mono : (i j : ℕ) → i ≤ j → 2 ^ i ≤ 2 ^ j
two_pow_mono i j h = pow-le-pow_right (omega arith) h

clamped :
    (m d : ℕ)
    → m ≤ 2 ^ 31
    → m < 2 ^ d
    → ((j : ℕ) → d ≡ suc j → 2 ^ j ≤ m)
    → (m ≤ 2 ^ min 31 (max 10 d)) × ((min 31 (max 10 d) ≡ 10) ⊎ (2 ^ (min 31 (max 10 d) - 1) ≤ m))
clamped m zero small bound least = (omega (arith, bound), inl refl)
clamped m (suc j) small bound least = elim (decide_le (suc j) 10) [
  | inl le ↦ rw (clamp_low (suc j) le) (omega (arith, bound, two_pow_mono (suc j) 10 le), inl refl)
  | inr gt ↦ elim (decide_le (suc j) 31) [
    | inl le ↦ rw (clamp_mid (suc j) gt le) (omega (arith, bound), inr (rw (pred j) (least j refl)))
    | inr big ↦
        rw (clamp_high (suc j) big)
          (small, inr (omega (arith, least j refl, two_pow_mono 30 j (omega (arith, big)))))
  ]
]
  where
    decide_le : (a b : ℕ) → (a ≤ b) ⊎ (b < a)
    decide_le a b = elim (Bool-cases (ltb b a)) [
      | inl gt ↦ inr (ltb→lt b a gt)
      | inr le ↦ inl (ltb_false→le b a le)
    ]

    pred : (j : ℕ) → suc j - 1 ≡ j
    pred j = omega arith

    clamp_low : (d : ℕ) → d ≤ 10 → min 31 (max 10 d) ≡ 10
    clamp_low d h = omega (arith, h)

    clamp_mid : (d : ℕ) → 10 < d → d ≤ 31 → min 31 (max 10 d) ≡ d
    clamp_mid d h k = omega (arith, h, k)

    clamp_high : (d : ℕ) → 31 < d → min 31 (max 10 d) ≡ 31
    clamp_high d h = omega (arith, h)

-- A window w that is granted lies between 10 and 31, both lengths are at most 2^w, and unless w
-- is 10 the larger length is at least 2^(w - 1).
pub window_log_bounds :
    (s t w : ℕ)
    → window_log s t ≡ ok w
    → (10 ≤ w) × (w ≤ 31) × (s ≤ 2 ^ w) × (t ≤ 2 ^ w) × ((w ≡ 10) ⊎ (2 ^ (w - 1) ≤ max s t))
unfolding window_log bit_length
window_log_bounds s t w e =
    let (s_fits, t_fits) = window_log-eq-ok s t e in
    let (_, is_clamp) =
      >>-eq-ok (reject (ltb max_input_len s || ltb max_input_len t) window_too_large) _ e in
    let same : min 31 (max 10 (digits 64 (max s t))) ≡ w = cc is_clamp in
    let small : max s t ≤ 2 ^ 31 = omega (arith, s_fits, t_fits) in
    let (bound, least) =
      clamped (max s t) (digits 64 (max s t)) small
        (digits_bound 64 (max s t) (omega (arith, small))) (digits_least 64 (max s t)) in
    rw (← same) (omega arith, omega arith, omega (arith, bound), omega (arith, bound), least)
