-- ===== src/Prelude/Cursor.antt =====
-- A cursor over a byte string. The readers of the metadata, patch and transport decoders have this
-- state and this `take`; each gives its own error.
pub mod Reads
pub mod Parses
use difz.Prelude.{
  ℕ, zero, suc, ◌+◌, ◌-◌, ◌^◌, ◌<◌, Bool, ◌&&◌, List, [], ◌∷◌, ◌++◌, Option, none, some, leb, ltb,
  length, take, drop, get_or, if◌then◌else◌, Result, ok, err, ok_or,
}
use difz.Prelude.Bytes.{Bytes, from_le}

pub record Cursor : Type 0 where
  pub bytes : Bytes
  pub offset : ℕ

abbrev pub Reader {κ ℓ} : Type κ → Type ℓ → Type (κ ⊔ ℓ)
Reader E A = Cursor → Result E (A × Cursor)

module _ {κ ℓ} {E : Type κ} {A : Type ℓ} where
  abbrev pub pure : A → Reader E A
  pure a c = ok (a, c)

  abbrev pub lift : Result E A → Reader E A
  lift (ok a) c = ok (a, c)
  lift (err e) c = err e

infixl 5 ◌>>=◌ ◌>>◌
abbrev pub ◌>>=◌ {κ ℓ μ} :
    {E : Type κ} {A : Type ℓ} {B : Type μ} → Reader E A → (A → Reader E B) → Reader E B
◌>>=◌ m f c = elim (m c) [ ok (a, c') ↦ f a c' | err e ↦ err e ]

abbrev pub ◌>>◌ {κ ℓ} : {E : Type κ} {B : Type ℓ} → Reader E (Unit {0}) → Reader E B → Reader E B
m >> k = m >>= λ _. k

-- `bytes.get(low..high)`
abbrev pub get_range : Bytes → ℕ → ℕ → Option Bytes
get_range bytes low high =
    if leb low high && leb high (length bytes)
    then some (take (high - low) (drop low bytes))
    else none

-- `usize::checked_add`
abbrev pub checked_add : ℕ → ℕ → Option ℕ
checked_add a b = if ltb (a + b) (2 ^ 64) then some (a + b) else none

module _ {κ} {E : Type κ} (e : E) where
  -- `take`: the end must be representable and inside the input; then the cursor moves there.
  take_to : Cursor → Option ℕ → Result E (Bytes × Cursor)
  take_to c none = err e
  take_to c (some end) = elim (get_range c.bytes c.offset end) [
    | none ↦ err e
    | some bytes ↦ ok (bytes, record c { offset = end })
  ]

  unfoldable pub take_bytes : ℕ → Reader E Bytes
  unfolding take_to
  take_bytes n c = take_to c (checked_add c.offset n)

  -- `byte`: the single byte of `take(1)?`.
  unfoldable pub byte : Reader E ℕ
  byte = do bytes ← take_bytes 1; pure (get_or bytes 0 0)

  -- `u16`, `u32`, `u64`: a little-endian word of `w` bytes.
  unfoldable pub word : ℕ → Reader E ℕ
  word w = do bytes ← take_bytes w; pure (from_le bytes)

-- `for _ in 0..count { values.push(read()?) }`
unfoldable pub repeat {κ ℓ} : {E : Type κ} {A : Type ℓ} → ℕ → Reader E A → Reader E (List A)
repeat zero m = pure []
repeat (suc n) m = do a ← m; rest ← repeat n m; pure (a ∷ rest)

-- The cursor that has passed `before`, with `rest` to come.
abbrev pub at : Bytes → Bytes → Cursor
at before rest = record { bytes = before ++ rest; offset = length before }
