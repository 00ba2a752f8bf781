-- ===== src/Prelude/Results.antt =====
-- Rust's `Result<A, E>`, with `?` as bind.
use mathlib.Core.Path.{◌≡◌, refl}
use mathlib.Core.Bool.{Bool, true, false, ◌||◌}
use mathlib.Core.Logic.{◌⊎◌, inl, inr}
use mathlib.Core.Option.{Option, none, some}

pub data Result {κ ℓ} (E : Type κ) (A : Type ℓ) : Type (κ ⊔ ℓ) where
  ok : A → Result E A
  err : E → Result E A

infixl 5 ◌>>=◌ ◌>>◌
abbrev pub ◌>>=◌ {κ ℓ μ} :
    {E : Type κ} {A : Type ℓ} {B : Type μ} → Result E A → (A → Result E B) → Result E B
err problem >>= next = err problem
ok value >>= next = next value

abbrev pub ◌>>◌ {κ ℓ} : {E : Type κ} {B : Type ℓ} → Result E (Unit {0}) → Result E B → Result E B
check >> after = check >>= λ _. after

-- `if test { return Err(e) }`
abbrev pub reject {κ} : {E : Type κ} → Bool → E → Result E (Unit {0})
reject true e = err e
reject false e = ok tt

abbrev pub map_err {κ κ' ℓ} :
    {E : Type κ} {F : Type κ'} {A : Type ℓ} → (E → F) → Result E A → Result F A
map_err f (ok a) = ok a
map_err f (err e) = err (f e)

abbrev pub ok_or {κ ℓ} : {E : Type κ} {A : Type ℓ} → Option A → E → Result E A
ok_or none e = err e
ok_or (some a) e = ok a

abbrev pub is_ok {κ ℓ} : {E : Type κ} {A : Type ℓ} → Result E A → Bool
is_ok (ok a) = true
is_ok (err e) = false

-- A chain that succeeds has a first step that succeeds, and so has what follows it.
pub >>=-eq-ok {κ ℓ μ} :
    {E : Type κ} {A : Type ℓ} {B : Type μ} (first : Result E A) (next : A → Result E B) {result : B}
    → (first >>= next) ≡ ok result
    → (value : A) × (first ≡ ok value) × (next value ≡ ok result)
>>=-eq-ok (err problem) next e = cc
>>=-eq-ok (ok value) next e = (value, refl, e)

pub >>-eq-ok {κ ℓ} :
    {E : Type κ} {B : Type ℓ} (m : Result E (Unit {0})) (k : Result E B) {b : B}
    → (m >> k) ≡ ok b
    → (m ≡ ok tt) × (k ≡ ok b)
>>-eq-ok (ok tt) k h = (refl, h)
>>-eq-ok (err e) k h = cc

pub reject-eq-ok {κ} : {E : Type κ} (b : Bool) (e : E) → reject b e ≡ ok tt → b ≡ false
reject-eq-ok true e h = cc
reject-eq-ok false e h = refl

-- A chain of alternatives that rejects nothing: neither the first nor the others hold.
pub reject-or {κ} :
    {E : Type κ} (a b : Bool) (e : E)
    → reject (a || b) e ≡ ok tt
    → (a ≡ false) × (reject b e ≡ ok tt)
reject-or true b e h = cc
reject-or false b e h = (refl, h)

pub map_err-eq-ok {κ κ' ℓ} :
    {E : Type κ} {F : Type κ'} {A : Type ℓ} (f : E → F) (r : Result E A) {a : A}
    → map_err f r ≡ ok a
    → r ≡ ok a
map_err-eq-ok f (ok b) h = cc
map_err-eq-ok f (err e) h = cc

pub Result-cases {κ ℓ} :
    {E : Type κ} {A : Type ℓ} (r : Result E A) → ((a : A) × (r ≡ ok a)) ⊎ ((e : E) × (r ≡ err e))
Result-cases (ok a) = inl (a, refl)
Result-cases (err e) = inr (e, refl)

pub ok_or-eq-ok {κ ℓ} :
    {E : Type κ} {A : Type ℓ} (o : Option A) (e : E) {a : A} → ok_or o e ≡ ok a → o ≡ some a
ok_or-eq-ok none e h = cc
ok_or-eq-ok (some b) e h = cc h
