-- ===== src/PathFilter/Matching/Language.antt =====
-- rust/src/path_filter.rs: what patterns mean, the texts of a token's language one behind another.
use difz.Prelude.{
  ℕ, ◌≡◌, ◌≢◌, ◌⊎◌, ◌↔◌, inl, inr, refl, sym, ap, ◌∙◌, not, List, [], ◌∷◌, ◌++◌, All, append_assoc,
  subst,
}
use difz.Prelude.Slices.{contains}
use difz.PathFilter.Compile.{Token, literal, any_char, star, tree_prefix, class}
use difz.PathFilter.Matching.{stop}

abbrev pub Single : (ℕ → Type 0) → List ℕ → Type 0
Single P piece = (c : ℕ) × (piece ≡ c ∷ []) × P c

-- Directories up to and including a slash, without a line break.
abbrev pub IsPrefix : List ℕ → Type 0
IsPrefix piece = (dir : List ℕ) × (piece ≡ dir ++ b'/' ∷ []) × All (λ c. c ≢ b'\n') dir

abbrev pub Accepts : Token → List ℕ → Type 0
Accepts (literal expected) piece = Single (λ c. c ≡ expected) piece
Accepts any_char piece = Single (λ c. c ≢ b'/') piece
Accepts (class negated members) piece = Single (λ c. contains members c ≡ not negated) piece
Accepts (star crosses) piece = All (λ c. c ≢ stop crosses) piece
Accepts tree_prefix piece = (piece ≡ []) ⊎ IsPrefix piece

-- A piece of the first language with a rest of the second.
abbrev pub Then : (List ℕ → Type 0) → (List ℕ → Type 0) → List ℕ → Type 0
Then A L text = (piece : List ℕ) × (rest : List ℕ) × (text ≡ piece ++ rest) × A piece × L rest

abbrev pub Matches : List Token → List ℕ → Type 0
Matches [] text = text ≡ []
Matches (token ∷ tokens) text = Then (Accepts token) (Matches tokens) text

-- One character more of a text, language by language.
pub Then-Single :
    (P : ℕ → Type 0) (L : List ℕ → Type 0) (c : ℕ) (cs : List ℕ)
    → Then (Single P) L (c ∷ cs) ↔ (P c × L cs)
Then-Single P L c cs = (
  λ (piece, rest, e, (d, single, p), l).
      let joined : c ∷ cs ≡ d ∷ rest = e ∙ ap (λ t. t ++ rest) single in
      let same_c : d ≡ c = cc joined in
      let same_cs : rest ≡ cs = cc joined in (subst P same_c p, subst L same_cs l),
  λ (p, l). (c ∷ [], cs, refl, (c, refl, p), l),
)

pub Then-Single_nil : (P : ℕ → Type 0) (L : List ℕ → Type 0) → Then (Single P) L [] → ⊥
Then-Single_nil P L (piece, rest, e, (d, single, p), l) =
    let joined : [] ≡ d ∷ rest = e ∙ ap (λ t. t ++ rest) single in cc joined

module _ (Q : ℕ → Type 0) (L : List ℕ → Type 0) where
  pub Then-All :
      (c : ℕ) (cs : List ℕ) → Then (All Q) L (c ∷ cs) ↔ (L (c ∷ cs) ⊎ (Q c × Then (All Q) L cs))
  Then-All c cs = (
    λ (piece, rest, e, a, l). split piece rest e a l,
    λ h. elim h [
      | inl l ↦ ([], c ∷ cs, refl, tt, l)
      | inr (q, (piece, rest, e, a, l)) ↦ (c ∷ piece, rest, ap (λ t. c ∷ t) e, (q, a), l)
    ],
  )
    where
      split :
          (piece rest : List ℕ)
          → c ∷ cs ≡ piece ++ rest
          → All Q piece
          → L rest
          → L (c ∷ cs) ⊎ (Q c × Then (All Q) L cs)
      split [] rest e a l = inl (subst L (sym e) l)
      split (d ∷ piece) rest e a l = inr (subst Q (cc e) a.0, (piece, rest, cc e, a.1, l))

  pub Then-All_nil : Then (All Q) L [] ↔ L []
  Then-All_nil = (λ (piece, rest, e, a, l). split piece rest e l, λ l. ([], [], refl, tt, l))
    where
      split : (piece rest : List ℕ) → [] ≡ piece ++ rest → L rest → L []
      split [] rest e l = subst L (sym e) l
      split (d ∷ piece) rest e l = absurd (cc e)

-- A prefix of directories in front of a text of the language.
abbrev pub Prefixed : (List ℕ → Type 0) → List ℕ → Type 0
Prefixed L text =
    (dir : List ℕ) × (rest : List ℕ) × (text ≡ dir ++ b'/' ∷ rest)
    × All (λ c. c ≢ b'\n') dir
    × L rest

module _ (L : List ℕ → Type 0) where
  pub Then-tree_prefix :
      (text : List ℕ) → Then (Accepts tree_prefix) L text ↔ (L text ⊎ Prefixed L text)
  Then-tree_prefix text = (
    λ (piece, rest, e, a, l). elim a [
      | inl none_there ↦ inl (subst L (sym (e ∙ ap (λ t. t ++ rest) none_there)) l)
      | inr (dir, slash, clean) ↦
          inr
            (dir, rest, e ∙ ap (λ t. t ++ rest) slash ∙ append_assoc dir (b'/' ∷ []) rest, clean, l)
    ],
    λ h. elim h [
      | inl l ↦ ([], text, refl, inl refl, l)
      | inr (dir, rest, e, clean, l) ↦ (
        dir ++ b'/' ∷ [],
        rest,
        e ∙ sym (append_assoc dir (b'/' ∷ []) rest),
        inr (dir, refl, clean),
        l,
      )
    ],
  )

  pub Prefixed-nil : Prefixed L [] → ⊥
  Prefixed-nil (dir, rest, e, clean, l) = split dir e
    where
      split : (dir : List ℕ) → [] ≡ dir ++ b'/' ∷ rest → ⊥
      split [] e = cc e
      split (d ∷ dir) e = cc e

  pub Prefixed-cons :
      (c : ℕ) (cs : List ℕ)
      → Prefixed L (c ∷ cs) ↔ (((c ≡ b'/') × L cs) ⊎ ((c ≢ b'\n') × Prefixed L cs))
  Prefixed-cons c cs = (
    λ (dir, rest, e, clean, l). split dir rest e clean l,
    λ h. elim h [
      | inl (slash, l) ↦ ([], cs, ap (λ d. d ∷ cs) slash, tt, l)
      | inr (fine, (dir, rest, e, clean, l)) ↦ (c ∷ dir, rest, ap (λ t. c ∷ t) e, (fine, clean), l)
    ],
  )
    where
      split :
          (dir rest : List ℕ)
          → c ∷ cs ≡ dir ++ b'/' ∷ rest
          → All (λ d. d ≢ b'\n') dir
          → L rest
          → ((c ≡ b'/') × L cs) ⊎ ((c ≢ b'\n') × Prefixed L cs)
      split [] rest e clean l = inl (cc e, subst L (cc e) l)
      split (d ∷ dir) rest e clean l =
          inr (subst (λ x. x ≢ b'\n') (cc e) clean.0, (dir, rest, cc e, clean.1, l))
