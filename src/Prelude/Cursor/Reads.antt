-- ===== src/Prelude/Cursor/Reads.antt =====
-- A reader reads back what was written: `Reads m xs v` says that `m` turns the bytes `xs`, wherever
-- they stand in an input, into `v`, and moves the cursor behind them.
use difz.Prelude.{
  ℕ, ◌+◌, ◌-◌, ◌^◌, ◌≤◌, ◌<◌, ◌≡◌, refl, List, [], ◌∷◌, ◌++◌, append-nil, append_assoc, some, arith,
  length, Result, ok, lt→ltb, le→leb, All, length-append, take-append, drop-append, concat_map,
  get_or,
}
use difz.Prelude.Bytes.{Bytes, to_le, from_le, from_le-to_le, length-to_le}
use difz.Prelude.Cursor.{
  Reader, pure, lift, ◌>>=◌, get_range, checked_add, take_to, take_bytes, byte, word, repeat, at,
}

pub record Reads {κ ℓ} {E : Type κ} {A : Type ℓ} (m : Reader E A) (xs : Bytes) (v : A)
    : Type (κ ⊔ ℓ) where
  pub run :
      (before rest : Bytes)
      → length (before ++ (xs ++ rest)) < 2 ^ 64
      → m (at before (xs ++ rest)) ≡ ok (v, at (before ++ xs) rest)

pub Reads-pure {κ ℓ} : {E : Type κ} {A : Type ℓ} (v : A) → Reads {E = E} (pure v) [] v
Reads-pure v = record { run = λ before rest h. rw append-nil refl }

pub Reads-lift {κ ℓ} :
    {E : Type κ} {A : Type ℓ} (r : Result E A) (v : A) → r ≡ ok v → Reads (lift r) [] v
Reads-lift r v e = record { run = λ before rest h. rw (e, append-nil) refl }

pub Reads-bind {κ ℓ μ} :
    {E : Type κ} {A : Type ℓ} {B : Type μ} (m : Reader E A) (f : A → Reader E B) (xs ys : Bytes)
    (a : A) (b : B)
    → Reads m xs a
    → Reads (f a) ys b
    → Reads (m >>= f) (xs ++ ys) b
Reads-bind m f xs ys a b rm rf = record {
  run = λ before rest h.
      let h' : length (before ++ (xs ++ (ys ++ rest))) < 2 ^ 64 = simp append_assoc at h in
      let first = rm.run before (ys ++ rest) h' in
      let second = rf.run (before ++ xs) rest (simp append_assoc h') in
      simp append_assoc (rw (simp append_assoc at first, ◌>>=◌) (simp append_assoc at second));
}

get_range_middle :
    (before xs rest : Bytes)
    → get_range (before ++ (xs ++ rest)) (length before) (length before + length xs) ≡ some xs
get_range_middle before xs rest = rw (
  le→leb (length before) (length before + length xs) (omega arith),
  le→leb (length before + length xs) (length (before ++ (xs ++ rest))) fits,
  omega_sub,
  drop-append before (xs ++ rest),
  take-append xs rest,
)
  where
    fits : length before + length xs ≤ length (before ++ (xs ++ rest))
    fits = omega (arith, length-append before (xs ++ rest), length-append xs rest)

    omega_sub : length before + length xs - length before ≡ length xs
    omega_sub = omega arith

checked_add_fits : (a b : ℕ) → a + b < 2 ^ 64 → checked_add a b ≡ some (a + b)
checked_add_fits a b h = rw (lt→ltb _ _ h)

module _ {κ} {E : Type κ} (e : E) where
  pub Reads-take_bytes : (n : ℕ) (xs : Bytes) → length xs ≡ n → Reads (take_bytes e n) xs xs
  unfolding take_bytes
  Reads-take_bytes n xs hn = record {
    run = λ before rest h.
        let total = length-append before (xs ++ rest) in
        let fits : length before + length xs < 2 ^ 64 =
          omega (arith, total, length-append xs rest) in
        rw
          (
            ← hn,
            checked_add_fits _ _ fits,
            take_to,
            get_range_middle before xs rest,
            length-append before xs,
            append_assoc before xs rest,
          )
          refl;
  }

  pub Reads-word : (w v : ℕ) → v < 256 ^ w → Reads (word e w) (to_le w v) v
  unfolding word
  Reads-word w v h =
      let read =
        Reads-bind (take_bytes e w) (λ bytes. pure (from_le bytes)) (to_le w v) [] _ _
          (Reads-take_bytes w (to_le w v) (length-to_le w v)) (Reads-pure _) in
      rw (from_le-to_le w v h, append-nil) at read

  pub Reads-byte : (v : ℕ) → Reads (byte e) (v ∷ []) v
  unfolding byte
  Reads-byte v =
      Reads-bind (take_bytes e 1) (λ bytes. pure (get_or bytes 0 0)) (v ∷ []) [] _ _
        (Reads-take_bytes 1 (v ∷ []) refl) (Reads-pure v)

pub Reads-repeat {κ ℓ} :
    {E : Type κ} {A : Type ℓ} (m : Reader E A) (write : A → Bytes) (vs : List A)
    → All (λ v. Reads m (write v) v) vs
    → Reads (repeat (length vs) m) (concat_map write vs) vs
unfolding repeat
Reads-repeat m write [] h = Reads-pure []
Reads-repeat m write (v ∷ vs) h =
    let tail =
      Reads-bind (repeat (length vs) m) (λ rest. pure (v ∷ rest)) _ [] vs (v ∷ vs)
        (Reads-repeat m write vs h.1) (Reads-pure (v ∷ vs)) in
    Reads-bind m _ (write v) _ v (v ∷ vs) h.0 (rw append-nil at tail)

-- A whole input.
pub Reads-all {κ ℓ} :
    {E : Type κ} {A : Type ℓ} (m : Reader E A) (xs : Bytes) (v : A)
    → Reads m xs v
    → length xs < 2 ^ 64
    → m (record { bytes = xs; offset = 0 }) ≡ ok (v, record { bytes = xs; offset = length xs })
Reads-all m xs v r h = rw append-nil at (r.run [] [] (rw append-nil h))
