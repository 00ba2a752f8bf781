-- ===== src/Prelude/Utf8/Encoding.antt =====
-- The bytes of a `str`: UTF-8 as `str::as_bytes` gives it, read back by `core::str::from_utf8`.
use difz.Prelude.{
  ℕ, ◌+◌, ◌*◌, ◌/◌, ◌%◌, ◌<◌, ◌≤◌, ◌≡◌, ◌⊎◌, inl, inr, refl, List, [], ◌∷◌, ◌++◌, none, some, arith,
  ltb, Bool-cases, if◌then◌else◌, All, All-append, concat_map, ltb→lt, ltb_false→le, le→leb, suc,
  length,
}
use difz.Prelude.Bytes.{Bytes, IsByte}
use difz.Prelude.Utf8.{chars, chars_from, between, step, step_at, continue_at}

abbrev pub IsScalar : ℕ → Type 0
IsScalar c = (c < 0x110000) × ((c < 0xd800) ⊎ (0xdfff < c))

unfoldable pub encode_char : ℕ → Bytes
encode_char c =
    if ltb c 0x80
    then c ∷ []
    else if ltb c 0x800
    then (0xc0 + c / 64) ∷ (0x80 + c % 64) ∷ []
    else if ltb c 0x10000
    then (0xe0 + c / 4096) ∷ (0x80 + c / 64 % 64) ∷ (0x80 + c % 64) ∷ []
    else (0xf0 + c / 262144) ∷ (0x80 + c / 4096 % 64) ∷ (0x80 + c / 64 % 64) ∷ (0x80 + c % 64) ∷ []

-- `pattern.as_bytes()` of a text with these characters.
unfoldable pub as_bytes : List ℕ → Bytes
unfolding encode_char
as_bytes cs = concat_map encode_char cs

-- What the first byte of a character announces: how many bytes come, and in which range the next is.
Announces : ℕ → ℕ → ℕ → ℕ → Type 0
Announces b n bits next =
    (low : ℕ) × (high : ℕ) × (step (between 0) b
      ≡ some (record { count = n; low = low; high = high; bits = bits }, none))
    × (low ≤ next)
    × (next ≤ high)

one : (c : ℕ) → c < 0x80 → step (between 0) c ≡ some (between 0, some c)
unfolding step step_at
one c h = ground arith

two : (c : ℕ) → 0x80 ≤ c → c < 0x800 → Announces (0xc0 + c / 64) 1 (c / 64) (0x80 + c % 64)
unfolding Announces step step_at
two c h k = (0x80, 0xbf, ground arith, omega arith, omega arith)

three :
    (c : ℕ)
    → 0x800 ≤ c
    → c < 0x10000
    → (c < 0xd800) ⊎ (0xdfff < c)
    → Announces (0xe0 + c / 4096) 2 (c / 4096) (0x80 + c / 64 % 64)
unfolding Announces step step_at
three c h k scalar = elim (Bool-cases (ltb c 0x1000)) [
  | inl first ↦
      let small = ltb→lt c 0x1000 first in (0xa0, 0xbf, ground arith, omega arith, omega arith)
  | inr later ↦
      let big = ltb_false→le c 0x1000 later in
      elim (Bool-cases (ltb c 0xd000)) [
        | inl low ↦
            let small = ltb→lt c 0xd000 low in (0x80, 0xbf, ground arith, omega arith, omega arith)
        | inr high ↦
            let above = ltb_false→le c 0xd000 high in
            elim scalar [
              | inl surrogate ↦ (0x80, 0x9f, ground arith, omega arith, omega arith)
              | inr beyond ↦ (0x80, 0xbf, ground arith, omega arith, omega arith)
            ]
      ]
]

four :
    (c : ℕ)
    → 0x10000 ≤ c
    → c < 0x110000
    → Announces (0xf0 + c / 262144) 3 (c / 262144) (0x80 + c / 4096 % 64)
unfolding Announces step step_at
four c h k = elim (Bool-cases (ltb c 0x40000)) [
  | inl first ↦
      let small = ltb→lt c 0x40000 first in (0x90, 0xbf, ground arith, omega arith, omega arith)
  | inr later ↦
      let big = ltb_false→le c 0x40000 later in
      elim (Bool-cases (ltb c 0x100000)) [
        | inl low ↦
            let small = ltb→lt c 0x100000 low in
            (0x80, 0xbf, ground arith, omega arith, omega arith)
        | inr high ↦
            let above = ltb_false→le c 0x100000 high in
            (0x80, 0x8f, ground arith, omega arith, omega arith)
      ]
]

module _ (low high bits b : ℕ) (above : low ≤ b) (below : b ≤ high) where
  last_step :
      step (record { count = 1; low = low; high = high; bits = bits }) b
      ≡ some (between 0, some (bits * 64 + b % 64))
  unfolding step step_at continue_at
  last_step = rw (le→leb low b above, le→leb b high below) refl

  inner_step :
      (n : ℕ)
      → step (record { count = suc (suc n); low = low; high = high; bits = bits }) b
        ≡ some (record { count = suc n; low = 0x80; high = 0xbf; bits = bits * 64 + b % 64 }, none)
  unfolding step step_at continue_at
  inner_step n = rw (le→leb low b above, le→leb b high below) refl

-- A character's bytes before bytes that yield `cs`.
module _ (c : ℕ) (rest : Bytes) (cs : List ℕ) (later : chars_from (between 0) rest ≡ some cs) where
  after_one : c < 0x80 → chars_from (between 0) (c ∷ rest) ≡ some (c ∷ cs)
  unfolding chars_from
  after_one h = rw (chars_from, one c h, later) refl

  after_two :
      (b d : ℕ)
      → Announces b 1 (c / 64) d
      → d ≡ 0x80 + c % 64
      → chars_from (between 0) (b ∷ d ∷ rest) ≡ some (c ∷ cs)
  unfolding Announces chars_from
  after_two b d (low, high, first, above, below) e =
      let value : c / 64 * 64 + d % 64 ≡ c = omega (arith, e) in
      rw (first, chars_from, last_step low high (c / 64) d above below, value, later) refl

  after_three :
      (b d e : ℕ)
      → Announces b 2 (c / 4096) d
      → d ≡ 0x80 + c / 64 % 64
      → e ≡ 0x80 + c % 64
      → chars_from (between 0) (b ∷ d ∷ e ∷ rest) ≡ some (c ∷ cs)
  unfolding Announces chars_from
  after_three b d e (low, high, first, above, below) de ee =
      let value : (c / 4096 * 64 + d % 64) * 64 + e % 64 ≡ c = omega (arith, de, ee) in
      rw
        (
          first,
          chars_from,
          inner_step low high (c / 4096) d above below 0,
          chars_from,
          last_step 0x80 0xbf (c / 4096 * 64 + d % 64) e (omega (arith, ee)) (omega (arith, ee)),
          value,
          later,
        )
        refl

  after_four :
      (b d e f : ℕ)
      → Announces b 3 (c / 262144) d
      → d ≡ 0x80 + c / 4096 % 64
      → e ≡ 0x80 + c / 64 % 64
      → f ≡ 0x80 + c % 64
      → chars_from (between 0) (b ∷ d ∷ e ∷ f ∷ rest) ≡ some (c ∷ cs)
  unfolding Announces chars_from
  after_four b d e f (low, high, first, above, below) de ee fe =
      let bits = c / 262144 * 64 + d % 64 in
      let value : (bits * 64 + e % 64) * 64 + f % 64 ≡ c = omega (arith, de, ee, fe) in
      rw
        (
          first,
          chars_from,
          inner_step low high (c / 262144) d above below 1,
          chars_from,
          inner_step 0x80 0xbf bits e (omega (arith, ee)) (omega (arith, ee)) 0,
          chars_from,
          last_step 0x80 0xbf (bits * 64 + e % 64) f (omega (arith, fe)) (omega (arith, fe)),
          value,
          later,
        )
        refl

  chars_from-encode_char :
      IsScalar c → chars_from (between 0) (encode_char c ++ rest) ≡ some (c ∷ cs)
  unfolding encode_char
  chars_from-encode_char (limit, scalar) = elim (Bool-cases (ltb c 0x80)) [
    | inl ascii ↦ rw ascii (after_one (ltb→lt c 0x80 ascii))
    | inr h₁ ↦ rw h₁ (elim (Bool-cases (ltb c 0x800)) [
      | inl short ↦
          rw short (after_two _ _ (two c (ltb_false→le c 0x80 h₁) (ltb→lt c 0x800 short)) refl)
      | inr h₂ ↦ rw h₂ (elim (Bool-cases (ltb c 0x10000)) [
        | inl basic ↦ rw basic (
            after_three _ _ _ (three c (ltb_false→le c 0x800 h₂) (ltb→lt c 0x10000 basic) scalar)
              refl refl)
        | inr h₃ ↦
            rw h₃ (after_four _ _ _ _ (four c (ltb_false→le c 0x10000 h₃) limit) refl refl refl)
      ])
    ])
  ]

chars_from-as_bytes :
    (cs : List ℕ) → All IsScalar cs → chars_from (between 0) (as_bytes cs) ≡ some cs
unfolding as_bytes chars_from
chars_from-as_bytes [] h = refl
chars_from-as_bytes (c ∷ cs) h =
    chars_from-encode_char c (as_bytes cs) cs (chars_from-as_bytes cs h.1) h.0

-- The bytes of a text are read back as its characters.
pub chars-as_bytes : (cs : List ℕ) → All IsScalar cs → chars (as_bytes cs) ≡ some cs
unfolding chars
chars-as_bytes cs h = chars_from-as_bytes cs h

encode_char-IsByte : (c : ℕ) → IsScalar c → All IsByte (encode_char c)
unfolding encode_char
encode_char-IsByte c (limit, scalar) = ground arith

pub length-encode_char : (c : ℕ) → 1 ≤ length (encode_char c)
unfolding encode_char
length-encode_char c = ground arith

pub as_bytes-IsByte : (cs : List ℕ) → All IsScalar cs → All IsByte (as_bytes cs)
unfolding as_bytes
as_bytes-IsByte [] h = tt
as_bytes-IsByte (c ∷ cs) h =
    All-append IsByte (encode_char c) (as_bytes cs) (encode_char-IsByte c h.0)
      (as_bytes-IsByte cs h.1)
