-- ===== src/Prelude/Lists.antt =====
-- Lists measured and indexed by native numbers, under the library's names.
use Prim.Native.Nat.{ℕ, zero, suc, ◌+◌, ◌-◌, ◌*◌, ◌≤◌, min}
use mathlib.Core.Path.{◌≡◌, refl, sym, ap, ◌∙◌, subst}
use mathlib.Core.Bool.{Bool, false, ◌||◌}
use mathlib.Core.List.{List, [], ◌∷◌, ◌++◌, map, append_assoc}
use mathlib.Core.Option.{Option, none, some}
use native.Mathlib.Omega.{arith}

module _ {ℓ} {A : Type ℓ} where
  abbrev pub length : List A → ℕ
  length [] = 0
  length (x ∷ xs) = suc (length xs)

  abbrev pub get_elem? : List A → ℕ → Option A
  get_elem? [] i = none
  get_elem? (x ∷ xs) zero = some x
  get_elem? (x ∷ xs) (suc i) = get_elem? xs i

  abbrev pub get_or : List A → ℕ → A → A
  get_or [] i d = d
  get_or (x ∷ xs) zero d = x
  get_or (x ∷ xs) (suc i) d = get_or xs i d

  abbrev pub take : ℕ → List A → List A
  take zero xs = []
  take (suc n) [] = []
  take (suc n) (x ∷ xs) = x ∷ take n xs

  abbrev pub drop : ℕ → List A → List A
  drop zero xs = xs
  drop (suc n) [] = []
  drop (suc n) (x ∷ xs) = drop n xs

  abbrev pub replicate : ℕ → A → List A
  replicate zero a = []
  replicate (suc n) a = a ∷ replicate n a

  -- A predicate on every element, computed to a product.
  abbrev pub All {κ} : (A → Type κ) → List A → Type κ
  All P [] = Unit {κ}
  All P (x ∷ xs) = P x × All P xs

  -- A test that some element passes, as the source's `iter().any`.
  abbrev pub any : (A → Bool) → List A → Bool
  any p [] = false
  any p (x ∷ xs) = p x || any p xs

  pub length-append : (xs ys : List A) → length (xs ++ ys) ≡ length xs + length ys
  length-append [] ys = omega arith
  length-append (x ∷ xs) ys = omega (arith, length-append xs ys)

  pub take-append-drop : (n : ℕ) (xs : List A) → take n xs ++ drop n xs ≡ xs
  take-append-drop zero xs = refl
  take-append-drop (suc n) [] = refl
  take-append-drop (suc n) (x ∷ xs) = ap (λ t. x ∷ t) (take-append-drop n xs)

  pub length-take : (n : ℕ) (xs : List A) → length (take n xs) ≡ min n (length xs)
  length-take zero xs = omega arith
  length-take (suc n) [] = omega arith
  length-take (suc n) (x ∷ xs) = omega (arith, length-take n xs)

  pub length-drop : (n : ℕ) (xs : List A) → length (drop n xs) ≡ length xs - n
  length-drop zero xs = omega arith
  length-drop (suc n) [] = omega arith
  length-drop (suc n) (x ∷ xs) = omega (arith, length-drop n xs)

  pub length-replicate : (n : ℕ) (a : A) → length (replicate n a) ≡ n
  length-replicate zero a = refl
  length-replicate (suc n) a = ap suc (length-replicate n a)

  pub take-append : (xs ys : List A) → take (length xs) (xs ++ ys) ≡ xs
  take-append [] ys = refl
  take-append (x ∷ xs) ys = ap (λ t. x ∷ t) (take-append xs ys)

  pub drop-append : (xs ys : List A) → drop (length xs) (xs ++ ys) ≡ ys
  drop-append [] ys = refl
  drop-append (x ∷ xs) ys = drop-append xs ys

  -- Dropping past a front of known length.
  pub drop_past : (xs ys : List A) (n k : ℕ) → length xs ≡ n → drop (n + k) (xs ++ ys) ≡ drop k ys
  drop_past [] ys n k h = let e : n + k ≡ k = omega (arith, h) in rw e
  drop_past (x ∷ xs) ys zero k h = absurd (omega (arith, h))
  drop_past (x ∷ xs) ys (suc n) k h =
      let e : suc n + k ≡ suc (n + k) = omega arith in rw e (drop_past xs ys n k (omega (arith, h)))

  pub take_past : (xs ys : List A) (n : ℕ) → length xs ≡ n → take n (xs ++ ys) ≡ xs
  take_past xs ys n h = rw (← h) (take-append xs ys)

  pub drop-drop : (n k : ℕ) (xs : List A) → drop k (drop n xs) ≡ drop (n + k) xs
  drop-drop zero k xs = let e : zero + k ≡ k = omega arith in rw e
  drop-drop (suc n) zero [] = let e : suc n + zero ≡ suc n = omega arith in rw e
  drop-drop (suc n) (suc k) [] = let e : suc n + suc k ≡ suc (n + suc k) = omega arith in rw e
  drop-drop (suc n) k (x ∷ xs) =
      let e : suc n + k ≡ suc (n + k) = omega arith in rw e (drop-drop n k xs)

  -- One piece off the front of what is left.
  pub chop : (n k : ℕ) (xs : List A) → drop n xs ≡ take k (drop n xs) ++ drop (n + k) xs
  chop n k xs =
      sym (take-append-drop k (drop n xs)) ∙ ap (λ t. take k (drop n xs) ++ t) (drop-drop n k xs)

  pub take_all : (xs : List A) → take (length xs) xs ≡ xs
  take_all [] = refl
  take_all (x ∷ xs) = ap (λ t. x ∷ t) (take_all xs)

  pub All-append {κ} :
      (P : A → Type κ) (front back : List A) → All P front → All P back → All P (front ++ back)
  All-append P [] back h k = k
  All-append P (x ∷ front) back h k = (h.0, All-append P front back h.1 k)

  pub All-append_left {κ} : (P : A → Type κ) (xs ys : List A) → All P (xs ++ ys) → All P xs
  All-append_left P [] ys h = tt
  All-append_left P (x ∷ xs) ys h = (h.0, All-append_left P xs ys h.1)

  pub All-append_right {κ} : (P : A → Type κ) (xs ys : List A) → All P (xs ++ ys) → All P ys
  All-append_right P [] ys h = h
  All-append_right P (x ∷ xs) ys h = All-append_right P xs ys h.1

  pub All-take {κ} : (P : A → Type κ) (n : ℕ) (xs : List A) → All P xs → All P (take n xs)
  All-take P zero xs h = tt
  All-take P (suc n) [] h = tt
  All-take P (suc n) (x ∷ xs) h = (h.0, All-take P n xs h.1)

  pub All-drop {κ} : (P : A → Type κ) (n : ℕ) (xs : List A) → All P xs → All P (drop n xs)
  All-drop P zero xs h = h
  All-drop P (suc n) [] h = tt
  All-drop P (suc n) (x ∷ xs) h = All-drop P n xs h.1

  -- What follows a list of known length is determined.
  pub append_split :
      (n : ℕ) (xs : List A)
      → n ≤ length xs
      → (length (take n xs) ≡ n) × (xs ≡ take n xs ++ drop n xs)
  append_split n xs h = (omega (arith, length-take n xs), sym (take-append-drop n xs))

module _ {ℓ κ} {A : Type ℓ} {B : Type κ} where
  pub length-map : (f : A → B) (xs : List A) → length (map f xs) ≡ length xs
  length-map f [] = refl
  length-map f (x ∷ xs) = ap suc (length-map f xs)

  pub All-map {μ} :
      (P : B → Type μ) (f : A → B) (xs : List A) → All (λ a. P (f a)) xs → All P (map f xs)
  All-map P f [] h = tt
  All-map P f (x ∷ xs) h = (h.0, All-map P f xs h.1)

  -- The concatenation of what `write` gives for each element.
  abbrev pub concat_map : (A → List B) → List A → List B
  concat_map write [] = []
  concat_map write (x ∷ xs) = write x ++ concat_map write xs

module _ {ℓ} {A : Type ℓ} where
  -- The concatenation of a list of lists.
  abbrev pub join : List (List A) → List A
  join [] = []
  join (xs ∷ xss) = xs ++ join xss

  pub join-append : (xss yss : List (List A)) → join (xss ++ yss) ≡ join xss ++ join yss
  join-append [] yss = refl
  join-append (xs ∷ xss) yss =
      ap (λ t. xs ++ t) (join-append xss yss) ∙ sym (append_assoc xs (join xss) (join yss))

module _ {ℓ κ} {A : Type ℓ} {B : Type κ} where
  pub join-concat_map :
      (f : A → List (List B)) (xs : List A)
      → join (concat_map f xs) ≡ concat_map (λ x. join (f x)) xs
  join-concat_map f [] = refl
  join-concat_map f (x ∷ xs) =
      join-append (f x) (concat_map f xs) ∙ ap (λ t. join (f x) ++ t) (join-concat_map f xs)

  -- A list whose elements take `minimum` at least is long enough for its count.
  pub length-concat_map :
      (f : A → List B) (minimum : ℕ) (xs : List A)
      → All (λ x. minimum ≤ length (f x)) xs
      → length xs * minimum ≤ length (concat_map f xs)
  length-concat_map f minimum [] h = omega arith
  length-concat_map f minimum (x ∷ xs) h =
      omega (arith, length-append (f x) (concat_map f xs), length-concat_map f minimum xs h.1, h.0)

-- A relation between the elements of two lists, one by one.
abbrev pub Pairs {ℓ κ} : {A : Type ℓ} {B : Type κ} → (A → B → Type 0) → List A → List B → Type 0
Pairs R [] [] = Unit
Pairs R [] (y ∷ ys) = ⊥
Pairs R (x ∷ xs) [] = ⊥
Pairs R (x ∷ xs) (y ∷ ys) = R x y × Pairs R xs ys

module _ {ℓ κ} {A : Type ℓ} {B : Type κ} (R : A → B → Type 0) where
  pub Pairs-length : (xs : List A) (ys : List B) → Pairs R xs ys → length xs ≡ length ys
  Pairs-length [] [] h = refl
  Pairs-length [] (y ∷ ys) h = absurd h
  Pairs-length (x ∷ xs) [] h = absurd h
  Pairs-length (x ∷ xs) (y ∷ ys) h = ap suc (Pairs-length xs ys h.1)

  pub Pairs-snoc :
      (xs : List A) (ys : List B) (x : A) (y : B)
      → Pairs R xs ys
      → R x y
      → Pairs R (xs ++ x ∷ []) (ys ++ y ∷ [])
  Pairs-snoc [] [] x y h r = (r, tt)
  Pairs-snoc [] (z ∷ ys) x y h r = absurd h
  Pairs-snoc (z ∷ xs) [] x y h r = absurd h
  Pairs-snoc (w ∷ xs) (z ∷ ys) x y h r = (h.0, Pairs-snoc xs ys x y h.1 r)

  pub Pairs-get :
      (xs : List A) (ys : List B) (i : ℕ) (a : A)
      → Pairs R xs ys
      → get_elem? xs i ≡ some a
      → (b : B) × (get_elem? ys i ≡ some b) × R a b
  Pairs-get [] ys i a h e = cc e
  Pairs-get (x ∷ xs) [] i a h e = absurd h
  Pairs-get (x ∷ xs) (y ∷ ys) zero a h e =
      let same : x ≡ a = cc e in (y, refl, subst (λ t. R t y) same h.0)
  Pairs-get (x ∷ xs) (y ∷ ys) (suc i) a h e = Pairs-get xs ys i a h.1 e
