-- ===== src/PathFilter/Compile/Writing.antt =====
-- rust/src/path_filter.rs, `compile`: patterns that are written from tokens.
use difz.Prelude.{
  ℕ, zero, suc, ◌≤◌, ◌≡◌, refl, ap, Bool, true, false, List, [], ◌∷◌, some, arith, length,
}
use difz.PathFilter.Compile.{
  Token, literal, any_char, star, tree_prefix, class, add_member, class_members, class_body,
  open_class, starts, scan, tokenize, compile,
}

-- The members of a class with a backslash before each, the closing bracket, and what follows.
abbrev pub write_members : List ℕ → List ℕ → List ℕ
write_members [] rest = b']' ∷ rest
write_members (m ∷ members) rest = b'\\' ∷ m ∷ write_members members rest

-- A pattern with a backslash before every literal and every member of a class.
abbrev pub write : List Token → List ℕ
write [] = []
write (literal c ∷ tokens) = b'\\' ∷ c ∷ write tokens
write (any_char ∷ tokens) = b'?' ∷ write tokens
write (star false ∷ tokens) = b'*' ∷ write tokens
write (star true ∷ tokens) = b'*' ∷ b'*' ∷ write tokens
write (tree_prefix ∷ tokens) = b'*' ∷ b'*' ∷ b'/' ∷ write tokens
write (class false members ∷ tokens) = b'[' ∷ write_members members (write tokens)
write (class true members ∷ tokens) = b'[' ∷ b'!' ∷ write_members members (write tokens)

abbrev begins_with_star : List Token → Bool
begins_with_star [] = false
begins_with_star (literal c ∷ tokens) = false
begins_with_star (any_char ∷ tokens) = false
begins_with_star (star crosses ∷ tokens) = true
begins_with_star (tree_prefix ∷ tokens) = true
begins_with_star (class negated members ∷ tokens) = false

-- No `*` stands before another star, and no class is empty.
abbrev pub IsWritable : List Token → Type 0
IsWritable [] = Unit
IsWritable (literal c ∷ tokens) = IsWritable tokens
IsWritable (any_char ∷ tokens) = IsWritable tokens
IsWritable (star false ∷ tokens) = (begins_with_star tokens ≡ false) × IsWritable tokens
IsWritable (star true ∷ tokens) = IsWritable tokens
IsWritable (tree_prefix ∷ tokens) = IsWritable tokens
IsWritable (class negated [] ∷ tokens) = ⊥
IsWritable (class negated (m ∷ members) ∷ tokens) = IsWritable tokens

class_members-write_members :
    (members rest : List ℕ) → class_members (write_members members rest) ≡ some (members, rest)
unfolding class_members
class_members-write_members [] [] = refl
class_members-write_members [] (d ∷ rest) = refl
class_members-write_members (m ∷ members) rest =
    ap (add_member m) (class_members-write_members members rest)

open_class-write :
    (m : ℕ) (members rest : List ℕ)
    → open_class (write_members (m ∷ members) rest) ≡ some (class false (m ∷ members), rest)
unfolding open_class class_body
open_class-write m members rest = rw (class_members-write_members (m ∷ members) rest) refl

open_class-write_negated :
    (m : ℕ) (members rest : List ℕ)
    → open_class (b'!' ∷ write_members (m ∷ members) rest) ≡ some (class true (m ∷ members), rest)
unfolding open_class class_body
open_class-write_negated m members rest = rw (class_members-write_members (m ∷ members) rest) refl

starts_no_star :
    (tokens : List Token) → begins_with_star tokens ≡ false → starts b'*' (write tokens) ≡ false
starts_no_star [] h = refl
starts_no_star (literal c ∷ tokens) h = refl
starts_no_star (any_char ∷ tokens) h = refl
starts_no_star (star crosses ∷ tokens) h = cc h
starts_no_star (tree_prefix ∷ tokens) h = cc h
starts_no_star (class false members ∷ tokens) h = refl
starts_no_star (class true members ∷ tokens) h = refl

starts_no_slash : (tokens : List Token) → starts b'/' (write tokens) ≡ false
starts_no_slash [] = refl
starts_no_slash (literal c ∷ tokens) = refl
starts_no_slash (any_char ∷ tokens) = refl
starts_no_slash (star false ∷ tokens) = refl
starts_no_slash (star true ∷ tokens) = refl
starts_no_slash (tree_prefix ∷ tokens) = refl
starts_no_slash (class false members ∷ tokens) = refl
starts_no_slash (class true members ∷ tokens) = refl

length-write_members : (members rest : List ℕ) → length rest ≤ length (write_members members rest)
length-write_members [] rest = omega arith
length-write_members (m ∷ members) rest = omega (arith, length-write_members members rest)

write_takes_room : (token : Token) (tokens : List Token) → 1 ≤ length (write (token ∷ tokens))
write_takes_room (literal c) tokens = omega arith
write_takes_room any_char tokens = omega arith
write_takes_room (star false) tokens = omega arith
write_takes_room (star true) tokens = omega arith
write_takes_room tree_prefix tokens = omega arith
write_takes_room (class false members) tokens = omega arith
write_takes_room (class true members) tokens = omega arith

tokenize-write :
    (fuel : ℕ) (tokens : List Token)
    → IsWritable tokens
    → length (write tokens) ≤ fuel
    → tokenize fuel true (write tokens) ≡ tokens
unfolding tokenize scan
tokenize-write zero [] h fits = refl
tokenize-write zero (token ∷ tokens) h fits =
    absurd (omega (arith, fits, write_takes_room token tokens))
tokenize-write (suc fuel) [] h fits = refl
tokenize-write (suc fuel) (literal c ∷ tokens) h fits =
    ap (λ ts. literal c ∷ ts) (tokenize-write fuel tokens h (omega (arith, fits)))
tokenize-write (suc fuel) (any_char ∷ tokens) h fits =
    ap (λ ts. any_char ∷ ts) (tokenize-write fuel tokens h (omega (arith, fits)))
tokenize-write (suc fuel) (star false ∷ tokens) (single, h) fits =
    rw (starts_no_star tokens single)
      (ap (λ ts. star false ∷ ts) (tokenize-write fuel tokens h (omega (arith, fits))))
tokenize-write (suc fuel) (star true ∷ tokens) h fits =
    rw (starts_no_slash tokens)
      (ap (λ ts. star true ∷ ts) (tokenize-write fuel tokens h (omega (arith, fits))))
tokenize-write (suc fuel) (tree_prefix ∷ tokens) h fits =
    ap (λ ts. tree_prefix ∷ ts) (tokenize-write fuel tokens h (omega (arith, fits)))
tokenize-write (suc fuel) (class negated [] ∷ tokens) h fits = absurd h
tokenize-write (suc fuel) (class false (m ∷ members) ∷ tokens) h fits =
    rw (open_class-write m members (write tokens)) (
      ap (λ ts. class false (m ∷ members) ∷ ts)
        (tokenize-write fuel tokens h
          (omega (arith, fits, length-write_members members (write tokens)))))
tokenize-write (suc fuel) (class true (m ∷ members) ∷ tokens) h fits =
    rw (open_class-write_negated m members (write tokens)) (
      ap (λ ts. class true (m ∷ members) ∷ ts)
        (tokenize-write fuel tokens h
          (omega (arith, fits, length-write_members members (write tokens)))))

-- A pattern that is written from tokens, with a backslash before every literal and every member
-- of a class, compiles to those tokens, if no `*` stands before another star and no class is
-- empty.
pub compile-write : (tokens : List Token) → IsWritable tokens → compile (write tokens) ≡ tokens
unfolding compile
compile-write tokens h = tokenize-write (length (write tokens)) tokens h (omega arith)
