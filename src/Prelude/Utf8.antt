-- ===== src/Prelude/Utf8.antt =====
-- UTF-8 as `core::str::from_utf8` checks it, with the characters that it yields.
pub mod Encoding
use mathlib.Core.Option
use difz.Prelude.{
  ℕ, zero, suc, ◌+◌, ◌-◌, ◌*◌, ◌%◌, ◌≡◌, refl, Bool, true, false, ◌&&◌, List, [], ◌∷◌, Option, none,
  some, leb, ltb, ◌==◌, is_some, if◌then◌else◌,
}
use difz.Prelude.Bytes.{Bytes}

-- Inside a sequence: the bytes still to come, the range of the next one, the bits read so far.
pub record Pending : Type 0 where
  pub count : ℕ
  pub low : ℕ
  pub high : ℕ
  pub bits : ℕ

abbrev between : ℕ → Pending
between n = record { count = 0; low = 0; high = 0; bits = 0 }

abbrev continuation : ℕ → ℕ → Pending
continuation n bits = record { count = n; low = 0x80; high = 0xbf; bits = bits }

-- What a first byte of 0x80 or more announces; `none` if no sequence begins with it.
abbrev lead : ℕ → Option Pending
lead b =
    if ltb b 0xc2
    then none
    else if ltb b 0xe0
    then some (continuation 1 (b - 0xc0))
    else if b == 0xe0
    then some (record { count = 2; low = 0xa0; high = 0xbf; bits = 0 })
    else if b == 0xed
    then some (record { count = 2; low = 0x80; high = 0x9f; bits = 0xd })
    else if ltb b 0xf0
    then some (continuation 2 (b - 0xe0))
    else if b == 0xf0
    then some (record { count = 3; low = 0x90; high = 0xbf; bits = 0 })
    else if ltb b 0xf4
    then some (continuation 3 (b - 0xf0))
    else if b == 0xf4
    then some (record { count = 3; low = 0x80; high = 0x8f; bits = 4 })
    else none

-- A continuation byte completes the character or leaves fewer to come.
continue_at : ℕ → Bool → ℕ → Option (Pending × Option ℕ)
continue_at n false bits = none
continue_at zero true bits = some (between 0, some bits)
continue_at (suc n) true bits = some (continuation (suc n) bits, none)

-- One byte: the next state, and the character that it completes.
step_at : ℕ → Pending → ℕ → Option (Pending × Option ℕ)
unfolding continue_at
step_at zero p b =
    if ltb b 0x80 then some (between 0, some b) else Option.map (λ q. (q, none)) (lead b)
step_at (suc n) p b = continue_at n (leb p.low b && leb b p.high) (p.bits * 64 + b % 64)

step : Pending → ℕ → Option (Pending × Option ℕ)
unfolding step_at
step p b = step_at p.count p b

abbrev cons_char : Option ℕ → List ℕ → List ℕ
cons_char none cs = cs
cons_char (some c) cs = c ∷ cs

abbrev at_end : Pending → Option (List ℕ)
at_end p = if p.count == 0 then some [] else none

chars_from : Pending → Bytes → Option (List ℕ)
chars_from p [] = at_end p
chars_from p (b ∷ bs) = elim (step p b) [
  | none ↦ none
  | some (q, c) ↦ Option.map (cons_char c) (chars_from q bs)
]

-- The characters of a text, or nothing if the bytes are not UTF-8.
unfoldable pub chars : Bytes → Option (List ℕ)
unfolding chars_from step
chars bs = chars_from (between 0) bs

unfoldable pub is_utf8 : Bytes → Bool
unfolding chars
is_utf8 bs = is_some (chars bs)

euro : chars (0xe2 ∷ 0x82 ∷ 0xac ∷ 0x41 ∷ []) ≡ some (0x20ac ∷ 0x41 ∷ [])
unfolding chars
euro = refl

surrogate : is_utf8 (0xed ∷ 0xa0 ∷ 0x80 ∷ []) ≡ false
unfolding is_utf8
surrogate = refl
