-- ===== src/PathFilter/Compile/Fuel.antt =====
-- rust/src/path_filter.rs, `compile`: how much fuel its loop needs.
use mathlib.Core.Option
use difz.Prelude.{
  ℕ, zero, suc, ◌≤◌, ◌≡◌, refl, ap, Bool, true, false, ◌&&◌, List, [], ◌∷◌, Option, none, some,
  arith, ◌==◌, length, length-drop, drop, if◌then◌else◌,
}
use difz.PathFilter.Compile.{
  literal, any_char, Scanned, add_member, class_members, class_body, open_class, scan_escape,
  scan_star, scan_class, scan, tokenize, starts, negates, star, tree_prefix, class,
}

-- What a class leaves is no longer than what it was given.
abbrev Leaves : Option (List ℕ × List ℕ) → ℕ → Type 0
Leaves none n = Unit
Leaves (some (members, rest)) n = length rest ≤ n

Leaves-add_member :
    (c : ℕ) (o : Option (List ℕ × List ℕ)) (m n : ℕ)
    → m ≤ n
    → Leaves o m
    → Leaves (add_member c o) n
Leaves-add_member c none m n le h = tt
Leaves-add_member c (some (members, rest)) m n le h = omega (arith, le, h)

Leaves-if :
    (b : Bool) (o p : Option (List ℕ × List ℕ)) (n : ℕ)
    → Leaves o n
    → Leaves p n
    → Leaves (if b then o else p) n
Leaves-if true o p n h k = h
Leaves-if false o p n h k = k

Leaves-class_members : (chars : List ℕ) → Leaves (class_members chars) (length chars)
unfolding class_members
Leaves-class_members [] = tt
Leaves-class_members (c ∷ []) = Leaves-if (c == b']') (some ([], [])) none 1 (omega arith) tt
Leaves-class_members (c ∷ d ∷ rest) =
    let n = length (c ∷ d ∷ rest) in
    Leaves-if (c == b']') (some ([], d ∷ rest)) _ n (omega arith) (
      Leaves-if (c == b'\\') (add_member d (class_members rest)) _ n
        (Leaves-add_member d (class_members rest) (length rest) n (omega arith)
          (Leaves-class_members rest))
        (Leaves-add_member c (class_members (d ∷ rest)) (length (d ∷ rest)) n (omega arith)
          (Leaves-class_members (d ∷ rest))))

Leaves-class_body : (chars : List ℕ) → Leaves (class_body chars) (length chars)
unfolding class_body
Leaves-class_body [] = tt
Leaves-class_body (c ∷ rest) =
    Leaves-if (c == b']') (add_member c (class_members rest)) (class_members (c ∷ rest))
      (length (c ∷ rest))
      (Leaves-add_member c (class_members rest) (length rest) (length (c ∷ rest)) (omega arith)
        (Leaves-class_members rest))
      (Leaves-class_members (c ∷ rest))

abbrev Bounded : Scanned → ℕ → Type 0
Bounded (token, behind, remain) n = length behind ≤ n

Bounded-if :
    (b : Bool) (s t : Scanned) (n : ℕ) → Bounded s n → Bounded t n → Bounded (if b then s else t) n
Bounded-if true s t n h k = h
Bounded-if false s t n h k = k

Bounded-classed :
    (negated : Bool) (o : Option (List ℕ × List ℕ)) (rest : List ℕ) (m : ℕ)
    → m ≤ length rest
    → Leaves o m
    → Bounded
        (scan_class (Option.map (λ (members, more). (class negated members, more)) o) rest)
        (length rest)
Bounded-classed negated none rest m le h = omega arith
Bounded-classed negated (some (members, more)) rest m le h = omega (arith, le, h)

length-if-drop : (b : Bool) (xs : List ℕ) → length (if b then drop 1 xs else xs) ≤ length xs
length-if-drop true xs = omega (arith, length-drop 1 xs)
length-if-drop false xs = omega arith

Bounded-scan_class : (rest : List ℕ) → Bounded (scan_class (open_class rest) rest) (length rest)
unfolding open_class
Bounded-scan_class rest =
    let body = if negates rest then drop 1 rest else rest in
    Bounded-classed (negates rest) (class_body body) rest (length body)
      (length-if-drop (negates rest) rest) (Leaves-class_body body)

scan-Bounded : (r : Bool) (c : ℕ) (rest : List ℕ) → Bounded (scan r c rest) (length rest)
unfolding scan
scan-Bounded r c rest =
    let n = length rest in
    Bounded-if (c == b'\\') (scan_escape r rest) _ n (escape rest) (
      Bounded-if (c == b'*') (scan_star r rest) _ n
        (Bounded-if (starts b'*' rest) _ (star false, rest, r) n
          (Bounded-if (starts b'/' (drop 1 rest)) (tree_prefix, drop 2 rest, r)
            (star true, drop 1 rest, r) n (omega (arith, length-drop 2 rest))
            (omega (arith, length-drop 1 rest)))
          (omega arith))
        (Bounded-if (c == b'?') (any_char, rest, r) _ n (omega arith)
          (Bounded-if (c == b'[' && r) (scan_class (open_class rest) rest) (literal c, rest, r) n
            (Bounded-scan_class rest) (omega arith))))
  where
    escape : (cs : List ℕ) → Bounded (scan_escape r cs) (length cs)
    escape [] = omega arith
    escape (d ∷ cs) = omega arith

-- Any two amounts of fuel that are at least the number of characters give the same tokens.
pub tokenize_fuel :
    (fuel more : ℕ) (r : Bool) (chars : List ℕ)
    → length chars ≤ fuel
    → length chars ≤ more
    → tokenize fuel r chars ≡ tokenize more r chars
unfolding tokenize
tokenize_fuel zero zero r chars h k = refl
tokenize_fuel zero (suc more) r [] h k = refl
tokenize_fuel zero (suc more) r (c ∷ rest) h k = absurd (omega (arith, h))
tokenize_fuel (suc fuel) zero r [] h k = refl
tokenize_fuel (suc fuel) zero r (c ∷ rest) h k = absurd (omega (arith, k))
tokenize_fuel (suc fuel) (suc more) r [] h k = refl
tokenize_fuel (suc fuel) (suc more) r (c ∷ rest) h k =
    let bound = scan-Bounded r c rest in
    ap (λ tokens. (scan r c rest).0 ∷ tokens)
      (tokenize_fuel fuel more (scan r c rest).2 (scan r c rest).1 (omega (arith, h, bound))
        (omega (arith, k, bound)))
