-- ===== src/Directory/Structure/Order.antt =====
-- rust/src/directory_structure.rs: slices whose paths ascend, and what an index picks.
use Prim.Native.Nat.{Ordering}
use difz.Prelude.{
  ℕ, zero, suc, ◌+◌, ◌≤◌, ◌≡◌, refl, ap, List, [], ◌∷◌, ◌++◌, none, some, arith, length, get_elem?,
  take, drop, All, All-append_left, All-append_right,
}
use difz.Prelude.Order.{cmp}
use difz.Directory.Structure.{Record}

-- Every path is less than every later one.
abbrev pub Below : Record → Record → Type 0
Below a b = cmp a.path b.path ≡ Ordering.lt

abbrev pub Ascending : List Record → Type 0
Ascending [] = Unit
Ascending (x ∷ xs) = All (Below x) xs × Ascending xs

pub All_weaken {ℓ κ μ} :
    {A : Type ℓ} {P : A → Type κ} {Q : A → Type μ} (xs : List A)
    → ((x : A) → P x → Q x)
    → All P xs
    → All Q xs
All_weaken [] f h = tt
All_weaken (x ∷ xs) f h = (f x h.0, All_weaken xs f h.1)

pub some-injective {ℓ} : {A : Type ℓ} {a b : A} → some a ≡ some b → a ≡ b
some-injective h = cc h

pub split_at :
    (entries : List Record) (i : ℕ) (e : Record)
    → get_elem? entries i ≡ some e
    → entries ≡ take i entries ++ e ∷ drop (i + 1) entries
split_at [] i e h = cc
split_at (x ∷ xs) zero e h = ap (λ t. t ∷ xs) (some-injective h)
split_at (x ∷ xs) (suc i) e h =
    let n : suc i + 1 ≡ suc (i + 1) = omega arith in rw n (ap (λ t. x ∷ t) (split_at xs i e h))

pub Ascending-append :
    (xs ys : List Record) (e : Record)
    → Ascending (xs ++ e ∷ ys)
    → Ascending xs × All (λ x. Below x e) xs × All (Below e) ys × Ascending ys
Ascending-append [] ys e h = (tt, tt, h.0, h.1)
Ascending-append (x ∷ xs) ys e h =
    let (a, b, c, d) = Ascending-append xs ys e h.1 in
    (
      (All-append_left (Below x) xs (e ∷ ys) h.0, a),
      ((All-append_right (Below x) xs (e ∷ ys) h.0).0, b),
      c,
      d,
    )

pub get_elem?-in_range : {A : Type 0} (xs : List A) (i : ℕ) → get_elem? xs i ≡ none → length xs ≤ i
get_elem?-in_range [] i h = omega arith
get_elem?-in_range (x ∷ xs) zero h = cc
get_elem?-in_range (x ∷ xs) (suc i) h = omega (arith, get_elem?-in_range xs i h)

pub get_elem?-drop :
    {A : Type 0} (xs : List A) (n i : ℕ) → get_elem? (drop n xs) i ≡ get_elem? xs (n + i)
get_elem?-drop xs zero i = let n : 0 + i ≡ i = omega arith in rw n refl
get_elem?-drop [] (suc n) i = refl
get_elem?-drop (x ∷ xs) (suc n) i =
    let m : suc n + i ≡ suc (n + i) = omega arith in rw m (get_elem?-drop xs n i)

pub get_elem?-take :
    {A : Type 0} (xs : List A) (n i : ℕ) {a : A}
    → get_elem? (take n xs) i ≡ some a
    → get_elem? xs i ≡ some a
get_elem?-take xs zero i h = cc
get_elem?-take [] (suc n) i h = cc
get_elem?-take (x ∷ xs) (suc n) zero h = h
get_elem?-take (x ∷ xs) (suc n) (suc i) h = get_elem?-take xs n i h
