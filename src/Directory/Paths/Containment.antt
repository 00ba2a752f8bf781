-- ===== src/Directory/Paths/Containment.antt =====
-- rust/src/directory.rs: where an accepted link target leads.
use difz.Prelude.{
  ℕ, suc, ◌+◌, ◌≡◌, refl, ◌↔◌, ◌⊎◌, inl, inr, false, List, [], ◌∷◌, Option, none, some, arith,
  is_empty, length, drop, length-drop, if◌then◌else◌, ok, err, reject, >>-eq-ok, >>=-eq-ok,
  Bool-cases, All,
}
use difz.Prelude.Bytes.{Bytes, bytes_eq}
use difz.Prelude.Slices.{split_on}
use difz.Directory.Paths.{
  symlink_escapes_root, invalid_entry_data, is_dot, is_dots, validate_text, validate_path,
  count_byte, descend, walk, validate_symlink_target,
}

-- Lexical resolution over the names themselves: the directory is a stack, innermost name first, and
-- a `..` that meets the empty stack leads out of the tree.
unfoldable pub enter : List Bytes → Bytes → Option (List Bytes)
unfolding bytes_eq
enter [] part = if is_dot part then some [] else if is_dots part then none else some (part ∷ [])
enter (name ∷ above) part =
    if is_dot part
    then some (name ∷ above)
    else if is_dots part
    then some above
    else some (part ∷ name ∷ above)

unfoldable pub resolve : List Bytes → List Bytes → Option (List Bytes)
resolve stack [] = some stack
resolve stack (part ∷ parts) = elim (enter stack part) [
  | none ↦ none
  | some next ↦ resolve next parts
]

rev_onto : List Bytes → List Bytes → List Bytes
rev_onto [] ys = ys
rev_onto (x ∷ xs) ys = rev_onto xs (x ∷ ys)

-- The directory that holds the link.
unfoldable pub parent_stack : Bytes → List Bytes
unfolding rev_onto
parent_stack path = drop 1 (rev_onto (split_on b'/' path) [])

length-rev_onto : (xs ys : List Bytes) → length (rev_onto xs ys) ≡ length xs + length ys
unfolding rev_onto
length-rev_onto [] ys = omega arith
length-rev_onto (x ∷ xs) ys = omega (arith, length-rev_onto xs (x ∷ ys))

length-split_on : (b : ℕ) (xs : Bytes) → length (split_on b xs) ≡ suc (count_byte b xs)
unfolding split_on count_byte
length-split_on b [] = refl
length-split_on b (x ∷ xs) = ground (arith, length-split_on b xs)

descend-enter :
    (stack : List Bytes) (part : Bytes)
    → is_empty part ≡ false
    → ((next : List Bytes) × (enter stack part ≡ some next)
        × (descend (length stack) part ≡ ok (length next)))
      ⊎ ((enter stack part ≡ none) × (descend (length stack) part ≡ err symlink_escapes_root))
unfolding descend enter
descend-enter [] part h = ground arith
descend-enter (name ∷ above) part h = ground arith

walk-resolve :
    (parts stack : List Bytes)
    → All (λ part. is_empty part ≡ false) parts
    → ((next : List Bytes) × (resolve stack parts ≡ some next)
        × (walk (length stack) parts ≡ ok tt))
      ⊎ ((resolve stack parts ≡ none) × (walk (length stack) parts ≡ err symlink_escapes_root))
unfolding walk resolve
walk-resolve [] stack h = inl (stack, refl, refl)
walk-resolve (part ∷ parts) stack h = elim (descend-enter stack part h.0) [
  | inl (next, entered, descended) ↦ elim (walk-resolve parts next h.1) [
    | inl (place, resolved, walked) ↦
        inl (place, rw (entered, resolve) resolved, rw descended walked)
    | inr (lost, escaped) ↦ inr (rw (entered, resolve) lost, rw descended escaped)
  ]
  | inr (left, escaped) ↦ inr (rw (left, resolve) refl, rw escaped refl)
]

walk-nonempty :
    (parts : List Bytes) (depth : ℕ)
    → walk depth parts ≡ ok tt
    → All (λ part. is_empty part ≡ false) parts
unfolding walk descend
walk-nonempty [] depth e = tt
walk-nonempty (part ∷ parts) depth e = elim (Bool-cases (is_empty part)) [
  | inl none_there ↦ absurd (cc (rw none_there at e))
  | inr there ↦
      let (next, _, rest) = >>=-eq-ok (descend depth part) (λ next. walk next parts) e in
      (there, walk-nonempty parts next rest)
]

depth-parent_stack : (path : Bytes) → length (parent_stack path) ≡ count_byte b'/' path
unfolding parent_stack
depth-parent_stack path = omega (
  arith,
  length-drop 1 (rev_onto (split_on b'/' path) []),
  length-rev_onto (split_on b'/' path) [],
  length-split_on b'/' path,
)

-- If a symbolic link's target is accepted, then resolving the target name by name from the link's
-- directory never takes a `..` at the root: it ends at a place in the tree.
pub validate_symlink_target-contained :
    (link target : Bytes)
    → validate_symlink_target link target ≡ ok tt
    → (place : List Bytes) × (resolve (parent_stack link) (split_on b'/' target) ≡ some place)
unfolding validate_symlink_target
validate_symlink_target-contained link target e =
    let (_, e₁) = >>-eq-ok (validate_path link) _ e in
    let (_, e₂) = >>-eq-ok (reject (is_empty target) invalid_entry_data) _ e₁ in
    let (_, walked) = >>-eq-ok (validate_text target) _ e₂ in
    let parts = split_on b'/' target in
    elim (walk-resolve parts (parent_stack link)
      (walk-nonempty parts (count_byte b'/' link) walked)) [
        | inl (place, resolved, _) ↦ (place, resolved)
        | inr (_, escaped) ↦ absurd (cc (walked, depth-parent_stack link, escaped))
      ]

-- For a link with a valid path and a target that is not empty, passes the text checks and has no
-- empty part, the target is rejected as escaping exactly when resolving it from the link's
-- directory takes a `..` at the root.
pub validate_symlink_target-escape_iff :
    (link target : Bytes)
    → validate_path link ≡ ok tt
    → is_empty target ≡ false
    → validate_text target ≡ ok tt
    → All (λ part. is_empty part ≡ false) (split_on b'/' target)
    → (validate_symlink_target link target ≡ err symlink_escapes_root)
      ↔ (resolve (parent_stack link) (split_on b'/' target) ≡ none)
unfolding validate_symlink_target
validate_symlink_target-escape_iff link target named some_target text parts_named =
    rw (named, some_target, text, ← depth-parent_stack link)
      (elim (walk-resolve (split_on b'/' target) (parent_stack link) parts_named) [
        | inl (place, resolved, walked) ↦
            (λ e. absurd (cc (e, walked)), λ lost. absurd (cc (lost, resolved)))
        | inr (lost, escaped) ↦ (λ e. lost, λ _. escaped)
      ])
