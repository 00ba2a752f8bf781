-- ===== src/Examples/Inputs.antt =====
-- What the runs share: an allocator that always grants, and a test for bytes.
use difz.Prelude.{ℕ, ◌≡◌, Bool, true, ◌&&◌, [], ◌∷◌, ltb, ltb→lt, All, Bool-cases, inl, inr}
use difz.Prelude.Bytes.{Bytes, IsByte}

abbrev pub granted : ℕ → Bool
granted n = true

abbrev pub are_bytes : Bytes → Bool
are_bytes [] = true
are_bytes (b ∷ bs) = ltb b 256 && are_bytes bs

pub are_bytes-All : (bs : Bytes) → are_bytes bs ≡ true → All IsByte bs
are_bytes-All [] h = tt
are_bytes-All (b ∷ bs) h = elim (Bool-cases (ltb b 256)) [
  | inl small ↦ (ltb→lt b 256 small, are_bytes-All bs (rw small at h))
  | inr big ↦ absurd (cc (rw big at h))
]
