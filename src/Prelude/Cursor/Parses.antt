-- ===== src/Prelude/Cursor/Parses.antt =====
-- What a successful read consumed: `Parses m W` says that whenever `m` succeeds, it took a prefix
-- `xs` of what was to come, moved the cursor behind it, and `W v xs` relates the value to it.
use difz.Prelude.{
  subst, append_split, ap₂, ℕ, zero, suc, ◌+◌, ◌-◌, ◌^◌, ◌≤◌, ◌<◌, ◌≡◌, refl, sym, ap, ◌∙◌, [], ◌∷◌,
  ◌++◌, append-nil, append_assoc, arith, length, take, drop, Result, ok, err, All, length-append,
  take-append-drop, drop-append, concat_map, All-append_left, All-append_right, get_or,
}
use difz.Prelude.Bytes.{Bytes, IsByte, to_le, from_le, to_le-from_le, from_le-lt}
use difz.Prelude.Cursor.{Cursor, Reader, pure, lift, ◌>>=◌, take_bytes, byte, word, repeat, at}

pub record Parsed {κ ℓ} {A : Type ℓ} (W : A → Bytes → Type κ) (before rest : Bytes) (v : A)
    (c : Cursor) : Type (κ ⊔ ℓ) where
  pub taken : Bytes
  pub left : Bytes
  pub split : rest ≡ taken ++ left
  pub moved : c ≡ at (before ++ taken) left
  pub related : W v taken

pub record Parses {κ ℓ μ} {E : Type κ} {A : Type ℓ} (m : Reader E A) (W : A → Bytes → Type μ)
    : Type (κ ⊔ ℓ ⊔ μ) where
  pub run :
      (before rest : Bytes) (v : A) (c : Cursor)
      → All IsByte rest
      → m (at before rest) ≡ ok (v, c)
      → Parsed W before rest v c

ok_injective {κ ℓ} :
    {E : Type κ} {A : Type ℓ} {a b : A} {c d : Cursor}
    → ◌≡◌ {A = Result E (A × Cursor)} (ok (a, c)) (ok (b, d))
    → (a ≡ b) × (c ≡ d)
ok_injective h = (cc, cc)

pub bind-eq-ok {κ ℓ μ} :
    {E : Type κ} {A : Type ℓ} {B : Type μ} (m : Reader E A) (f : A → Reader E B) (c : Cursor)
    {r : B × Cursor}
    → (m >>= f) c ≡ ok r
    → (a : A) × (c' : Cursor) × (m c ≡ ok (a, c')) × (f a c' ≡ ok r)
bind-eq-ok {E} {A} {B} m f c {r} h = go (m c) refl
  where
    go :
        (s : Result E (A × Cursor))
        → m c ≡ s
        → (a : A) × (c' : Cursor) × (m c ≡ ok (a, c')) × (f a c' ≡ ok r)
    go (ok (a, c')) e = (a, c', e, rw (e, ◌>>=◌) at h)
    go (err x) e = let impossible = rw (e, ◌>>=◌) at h in cc

module _ {κ ℓ μ} {E : Type κ} {A : Type ℓ} (W : A → Bytes → Type μ) where
  pub Parses-pure : (a : A) → W a [] → Parses {E = E} (pure a) W
  Parses-pure a h = record {
    run = λ before rest v c bs e.
        let (same, here) = ok_injective e in
        record {
          taken = [];
          left = rest;
          split = refl;
          moved = rw append-nil (sym here);
          related = subst (λ t. W t []) same h;
        };
  }

  pub Parses-lift : (r : Result E A) → ((a : A) → r ≡ ok a → W a []) → Parses (lift r) W
  Parses-lift (ok a) h = Parses-pure a (h a refl)
  Parses-lift (err x) h = record { run = λ before rest v c bs e. cc }

module _ {κ ℓ μ ν ξ} {E : Type κ} {A : Type ℓ} {B : Type μ} (W : A → Bytes → Type ν)
    (V : B → Bytes → Type ξ) where
  pub Parses-bind :
      (m : Reader E A) (f : A → Reader E B)
      → Parses m W
      → ((a : A) (xs : Bytes) → W a xs → Parses (f a) (λ b ys. V b (xs ++ ys)))
      → Parses (m >>= f) V
  Parses-bind m f pm pf = record {
    run = λ before rest v c bs e.
        let (a, c', first, second) = bind-eq-ok m f (at before rest) e in
        let p = pm.run before rest a c' bs first in
        let bytes = All-append_right IsByte p.taken p.left (rw p.split at bs) in
        let q =
          (pf a p.taken p.related).run (before ++ p.taken) p.left v c bytes
            (rw p.moved at second) in
        record {
          taken = p.taken ++ q.taken;
          left = q.left;
          split = rw append_assoc (p.split ∙ ap (λ t. p.taken ++ t) q.split);
          moved = rw (← append_assoc before p.taken q.taken) q.moved;
          related = q.related;
        };
  }

module _ {κ} {E : Type κ} (e : E) where
  pub take_bytes-eq-ok :
      (n : ℕ) (c : Cursor) {v : Bytes} {c' : Cursor}
      → take_bytes e n c ≡ ok (v, c')
      → (c.offset + n ≤ length c.bytes)
        × (v ≡ take (c.offset + n - c.offset) (drop c.offset c.bytes))
        × (c' ≡ record c { offset = c.offset + n })
  unfolding take_bytes
  take_bytes-eq-ok n c h = ground arith

  pub Parses-take_bytes :
      (n : ℕ) → Parses (take_bytes e n) (λ v xs. (v ≡ xs) × (length xs ≡ n) × All IsByte xs)
  unfolding take_bytes
  Parses-take_bytes n = record {
    run = λ before rest v c bs x.
        let (fits, same, here) = take_bytes-eq-ok n (at before rest) x in
        let enough : n ≤ length rest = omega (arith, length-append before rest, fits) in
        let count : length before + n - length before ≡ n = omega arith in
        let (size, whole) = append_split n rest enough in
        record {
          taken = take n rest;
          left = drop n rest;
          split = whole;
          moved =
              rw
                (
                  append_assoc before (take n rest) (drop n rest),
                  take-append-drop n rest,
                  length-append before (take n rest),
                  size,
                )
                here;
          related = (
            rw (count, drop-append) at same,
            size,
            All-append_left IsByte (take n rest) (drop n rest) (rw whole at bs),
          );
        };
  }

  pub Parses-word : (w : ℕ) → Parses (word e w) (λ v xs. (xs ≡ to_le w v) × (v < 256 ^ w))
  unfolding word
  Parses-word w =
      Parses-bind _ _ (take_bytes e w) (λ bytes. pure (from_le bytes)) (Parses-take_bytes w)
        λ a xs h. Parses-pure _ (from_le a) (word_of a xs h)
    where
      word_of :
          (a xs : Bytes)
          → (a ≡ xs) × (length xs ≡ w) × All IsByte xs
          → (xs ++ [] ≡ to_le w (from_le a)) × (from_le a < 256 ^ w)
      word_of a xs (same, size, bytes) =
          rw (append-nil, same, ← size) (sym (to_le-from_le xs bytes), from_le-lt xs bytes)

  pub Parses-byte : Parses (byte e) (λ v xs. (xs ≡ v ∷ []) × (v < 256))
  unfolding byte
  Parses-byte =
      Parses-bind _ _ (take_bytes e 1) (λ bytes. pure (get_or bytes 0 0)) (Parses-take_bytes 1)
        λ a xs h. Parses-pure _ (get_or a 0 0) (byte_of a xs h)
    where
      byte_of :
          (a xs : Bytes)
          → (a ≡ xs) × (length xs ≡ 1) × All IsByte xs
          → (xs ++ [] ≡ get_or a 0 0 ∷ []) × (get_or a 0 0 < 256)
      byte_of a [] (same, size, bytes) = absurd (omega (arith, size))
      byte_of a (x ∷ []) (same, size, bytes) = rw same (refl, bytes.0)
      byte_of a (x ∷ y ∷ ys) (same, size, bytes) = absurd (omega (arith, size))

-- Every round of a counted loop consumed what it returned, by the relation for one round.
module _ {κ ℓ} {E : Type κ} {A : Type ℓ} (m : Reader E A) (write : A → Bytes) where
  pub Parses-repeat {μ} :
      (P : A → Type μ) (n : ℕ)
      → Parses m (λ a xs. (xs ≡ write a) × P a)
      → Parses (repeat n m) (λ vs xs. (xs ≡ concat_map write vs) × (length vs ≡ n) × All P vs)
  unfolding repeat
  Parses-repeat P zero pm = Parses-pure _ [] (refl, refl, tt)
  Parses-repeat P (suc n) pm = Parses-bind _ _ m _ pm λ a xs h.
      Parses-bind _ _ (repeat n m) _ (Parses-repeat P n pm) λ vs ys k.
        Parses-pure _ (a ∷ vs)
          (ap₂ (λ s t. s ++ t) h.0 (append-nil ys ∙ k.0), ap suc k.1, (h.1, k.2))

module _ {κ ℓ μ ν} {E : Type κ} {A : Type ℓ} {W : A → Bytes → Type μ} {V : A → Bytes → Type ν} where
  pub Parses-mono :
      (m : Reader E A) → ((v : A) (xs : Bytes) → W v xs → V v xs) → Parses m W → Parses m V
  Parses-mono m f p = record {
    run = λ before rest v c bs e.
        let q = p.run before rest v c bs e in
        record {
          taken = q.taken;
          left = q.left;
          split = q.split;
          moved = q.moved;
          related = f v q.taken q.related;
        };
  }

-- A check that leaves the cursor where it stands.
module _ {κ ℓ μ} {E : Type κ} {A : Type ℓ} (W : A → Bytes → Type μ) where
  pub Parses-still :
      (m : Reader E A)
      → ((c c' : Cursor) (v : A) → m c ≡ ok (v, c') → (c' ≡ c) × W v [])
      → Parses m W
  Parses-still m still = record {
    run = λ before rest v c bs e.
        let (here, related) = still (at before rest) c v e in
        record {
          taken = [];
          left = rest;
          split = refl;
          moved = rw append-nil here;
          related = related;
        };
  }

empty : (xs : Bytes) → length xs ≡ 0 → xs ≡ []
empty [] h = refl
empty (x ∷ xs) h = absurd (omega (arith, h))

-- A whole input, read to its end.
pub Parses-all {κ ℓ μ} :
    {E : Type κ} {A : Type ℓ} {W : A → Bytes → Type μ} (m : Reader E A) (xs : Bytes) (v : A)
    (c : Cursor)
    → Parses m W
    → All IsByte xs
    → m (record { bytes = xs; offset = 0 }) ≡ ok (v, c)
    → c.offset ≡ length c.bytes
    → W v xs
Parses-all {W = W} m xs v c p bs e h =
    let q = p.run [] xs v c bs e in
    let size : length q.taken ≡ length (q.taken ++ q.left) =
      subst (λ d. d.offset ≡ length d.bytes) q.moved h in
    let nothing : q.left ≡ [] = empty q.left (omega (arith, size, length-append q.taken q.left)) in
    let whole : xs ≡ q.taken = rw (nothing, append-nil) at q.split in
    subst (W v) (sym whole) q.related
