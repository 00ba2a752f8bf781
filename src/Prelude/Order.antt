-- ===== src/Prelude/Order.antt =====
-- The lexicographic order of byte strings, as Rust's `Ord` on slices.
use Prim.Native.Nat.{compare, Ordering}
use difz.Prelude.{◌≡◌, refl, ◌⊎◌, inl, inr, [], ◌∷◌, arith}
use difz.Prelude.Bytes.{Bytes}

abbrev pub then_with : Ordering → Ordering → Ordering
then_with Ordering.lt d = Ordering.lt
then_with Ordering.eq d = d
then_with Ordering.gt d = Ordering.gt

-- `a.cmp(b)` on slices of bytes.
unfoldable pub cmp : Bytes → Bytes → Ordering
cmp [] [] = Ordering.eq
cmp [] (y ∷ ys) = Ordering.lt
cmp (x ∷ xs) [] = Ordering.gt
cmp (x ∷ xs) (y ∷ ys) = then_with (compare x y) (cmp xs ys)

pub cmp_refl : (xs : Bytes) → cmp xs xs ≡ Ordering.eq
unfolding cmp
cmp_refl [] = refl
cmp_refl (x ∷ xs) = ground (arith, cmp_refl xs)

pub cmp-eq : (xs ys : Bytes) → cmp xs ys ≡ Ordering.eq → xs ≡ ys
unfolding cmp
cmp-eq [] [] h = refl
cmp-eq [] (y ∷ ys) h = cc
cmp-eq (x ∷ xs) [] h = cc
cmp-eq (x ∷ xs) (y ∷ ys) h = ground (arith, cmp-eq xs ys)

pub cmp-gt : (xs ys : Bytes) → cmp xs ys ≡ Ordering.gt → cmp ys xs ≡ Ordering.lt
unfolding cmp
cmp-gt [] [] h = cc
cmp-gt [] (y ∷ ys) h = cc
cmp-gt (x ∷ xs) [] h = refl
cmp-gt (x ∷ xs) (y ∷ ys) h = ground (arith, cmp-gt xs ys)

pub cmp-lt : (xs ys : Bytes) → cmp xs ys ≡ Ordering.lt → cmp ys xs ≡ Ordering.gt
unfolding cmp
cmp-lt [] [] h = cc
cmp-lt [] (y ∷ ys) h = refl
cmp-lt (x ∷ xs) [] h = cc
cmp-lt (x ∷ xs) (y ∷ ys) h = ground (arith, cmp-lt xs ys)

pub cmp_trans :
    (xs ys zs : Bytes) → cmp xs ys ≡ Ordering.lt → cmp ys zs ≡ Ordering.lt → cmp xs zs ≡ Ordering.lt
unfolding cmp
cmp_trans [] [] zs h k = cc
cmp_trans [] (y ∷ ys) [] h k = cc
cmp_trans [] (y ∷ ys) (z ∷ zs) h k = refl
cmp_trans (x ∷ xs) [] zs h k = cc
cmp_trans (x ∷ xs) (y ∷ ys) [] h k = cc
cmp_trans (x ∷ xs) (y ∷ ys) (z ∷ zs) h k = ground (arith, cmp_trans xs ys zs)

pub Ordering-cases : (o : Ordering) → (o ≡ Ordering.lt) ⊎ (o ≡ Ordering.eq) ⊎ (o ≡ Ordering.gt)
Ordering-cases Ordering.lt = inl refl
Ordering-cases Ordering.eq = inr (inl refl)
Ordering-cases Ordering.gt = inr (inr refl)
