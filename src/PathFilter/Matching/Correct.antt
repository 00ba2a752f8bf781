-- ===== src/PathFilter/Matching/Correct.antt =====
-- rust/src/path_filter.rs: the dynamic program and the language of its tokens.
use difz.Prelude.{
  ℕ, ◌≡◌, ◌≢◌, ◌⊎◌, ◌↔◌, inl, inr, refl, Bool, true, false, not, ◌&&◌, ◌||◌, ◌==◌, ==_iff, List, [],
  ◌∷◌, none, some, arith, if◌then◌else◌,
}
use difz.Prelude.Slices.{contains}
use difz.PathFilter.Compile.{Token, literal, any_char, star, tree_prefix, class}
use difz.PathFilter.Matching.{stop, head, next_prefix, cell, fill, last_row, rows, matches, differs}
use difz.PathFilter.Matching.Language.{
  Single, Accepts, Then, Matches, Then-Single, Then-Single_nil, Then-All, Then-All_nil, Prefixed,
  Then-tree_prefix, Prefixed-nil, Prefixed-cons,
}

abbrev Decides : Bool → Type 0 → Type 0
Decides b P = (b ≡ true) ↔ P

decides_and : (a b : Bool) {P Q : Type 0} → Decides a P → Decides b Q → Decides (a && b) (P × Q)
decides_and true b h k = (λ e. (h.0 refl, k.0 e), λ (p, q). k.1 q)
decides_and false b h k = (λ e. cc e, λ (p, q). h.1 p)

decides_or : (a b : Bool) {P Q : Type 0} → Decides a P → Decides b Q → Decides (a || b) (P ⊎ Q)
decides_or true b h k = (λ e. inl (h.0 refl), λ _. refl)
decides_or false b h k =
    (λ e. inr (k.0 e), λ s. elim s [ inl p ↦ absurd (cc (h.1 p)) | inr q ↦ k.1 q ])

decides_map : {b : Bool} {P Q : Type 0} → P ↔ Q → Decides b P → Decides b Q
decides_map e h = (λ t. e.0 (h.0 t), λ q. h.1 (e.1 q))

decides_false : {P : Type 0} → (P → ⊥) → Decides false P
decides_false f = (λ e. cc e, λ p. absurd (f p))

decides_eq : (m n : ℕ) → Decides (m == n) (m ≡ n)
decides_eq m n = ==_iff m n

decides_not : (b : Bool) {P : Type 0} → Decides b P → Decides (not b) (P → ⊥)
decides_not true h = (λ e. cc e, λ f. absurd (f (h.0 refl)))
decides_not false h = (λ e p. cc (h.1 p), λ f. refl)

swap : {P Q : Type 0} → P ↔ Q → Q ↔ P
swap e = (e.1, e.0)

decides_differs : (a b : Bool) → Decides (differs a b) (a ≡ not b)
decides_differs true true = (λ e. cc e, λ e. cc e)
decides_differs true false = (λ e. refl, λ e. refl)
decides_differs false true = (λ e. refl, λ e. refl)
decides_differs false false = (λ e. cc e, λ e. cc e)

-- A row holds, for each suffix of the text, whether the language has it.
abbrev Row : (List ℕ → Type 0) → List ℕ → List Bool → Type 0
Row L text [] = ⊥
Row L [] (b ∷ bs) = Decides b (L [])
Row L (c ∷ cs) (b ∷ bs) = Decides b (L (c ∷ cs)) × Row L cs bs

head-Row :
    (L : List ℕ → Type 0) (text : List ℕ) (row : List Bool)
    → Row L text row
    → Decides (head row) (L text)
head-Row L text [] r = absurd r
head-Row L [] (b ∷ bs) r = r
head-Row L (c ∷ cs) (b ∷ bs) r = r.0

last_row-Row : (text : List ℕ) → Row (Matches []) text (last_row text)
unfolding last_row
last_row-Row [] = (λ _. refl, λ _. refl)
last_row-Row (c ∷ cs) = (decides_false (λ e. cc e), last_row-Row cs)

decides_prefix :
    (newline slash after before : Bool) {N S A B : Type 0}
    → Decides newline N
    → Decides slash S
    → (S → N → ⊥)
    → Decides after A
    → Decides before B
    → Decides
        (if newline then false else if slash && after then true else before)
        ((S × A) ⊎ ((N → ⊥) × B))
decides_prefix true slash after before n s apart a b = (
  λ e. cc e,
  λ h. elim h [
    | inl (is_slash, _) ↦ absurd (apart is_slash (n.0 refl))
    | inr (fine, _) ↦ absurd (fine (n.0 refl))
  ],
)
decides_prefix false true true before n s apart a b = (λ e. inl (s.0 refl, a.0 refl), λ _. refl)
decides_prefix false true false before n s apart a b = (
  λ e. inr (λ is_newline. cc (n.1 is_newline), b.0 e),
  λ h. elim h [ inl (_, l) ↦ absurd (cc (a.1 l)) | inr (_, found) ↦ b.1 found ],
)
decides_prefix false false after before n s apart a b = (
  λ e. inr (λ is_newline. cc (n.1 is_newline), b.0 e),
  λ h. elim h [ inl (is_slash, _) ↦ absurd (cc (s.1 is_slash)) | inr (_, found) ↦ b.1 found ],
)

decides_or_false : (b : Bool) {P : Type 0} → Decides b P → Decides (b || false) P
decides_or_false true h = h
decides_or_false false h = h

next_prefix-none : (L : List ℕ → Type 0) → Decides (next_prefix none false false) (Prefixed L [])
unfolding next_prefix
next_prefix-none L = decides_false (Prefixed-nil L)

next_prefix-decides :
    (L : List ℕ → Type 0) (c : ℕ) (cs : List ℕ) (after before : Bool)
    → Decides after (L cs)
    → Decides before (Prefixed L cs)
    → Decides (next_prefix (some c) after before) (Prefixed L (c ∷ cs))
unfolding next_prefix
next_prefix-decides L c cs after before h k = decides_map (swap (Prefixed-cons L c cs)) (
    decides_prefix (c == b'\n') (c == b'/') after before (decides_eq c b'\n') (decides_eq c b'/')
      (λ slash newline. omega (arith, slash, newline)) h k)

-- Each cell from the cells that it reads.
module _ (L : List ℕ → Type 0) where
  cell-Single :
      (P : ℕ → Type 0) (c : ℕ) (cs : List ℕ) (test after : Bool)
      → Decides test (P c)
      → Decides after (L cs)
      → Decides (test && after) (Then (Single P) L (c ∷ cs))
  cell-Single P c cs test after h k =
      decides_map (swap (Then-Single P L c cs)) (decides_and test after h k)

  cell-nil :
      (token : Token) (here prefix : Bool)
      → Decides here (L [])
      → Decides prefix (Prefixed L [])
      → Decides (cell token none here false false prefix) (Then (Accepts token) L [])
  unfolding cell
  cell-nil (literal expected) here prefix h k =
      decides_false (Then-Single_nil (λ c. c ≡ expected) L)
  cell-nil any_char here prefix h k = decides_false (Then-Single_nil (λ c. c ≢ b'/') L)
  cell-nil (class negated members) here prefix h k =
      decides_false (Then-Single_nil (λ c. contains members c ≡ not negated) L)
  cell-nil (star crosses) here prefix h k =
      decides_map (swap (Then-All_nil (λ c. c ≢ stop crosses) L)) (decides_or_false here h)
  cell-nil tree_prefix here prefix h k =
      decides_map (swap (Then-tree_prefix L [])) (decides_or here prefix h k)

  cell-cons :
      (token : Token) (c : ℕ) (cs : List ℕ) (here after current prefix : Bool)
      → Decides here (L (c ∷ cs))
      → Decides after (L cs)
      → Decides current (Then (Accepts token) L cs)
      → Decides prefix (Prefixed L (c ∷ cs))
      → Decides (cell token (some c) here after current prefix) (Then (Accepts token) L (c ∷ cs))
  unfolding cell
  cell-cons (literal expected) c cs here after current prefix h a m k =
      cell-Single (λ c. c ≡ expected) c cs (c == expected) after (decides_eq c expected) a
  cell-cons any_char c cs here after current prefix h a m k =
      cell-Single (λ c. c ≢ b'/') c cs (not (c == b'/')) after
        (decides_not (c == b'/') (decides_eq c b'/')) a
  cell-cons (class negated members) c cs here after current prefix h a m k =
      cell-Single (λ c. contains members c ≡ not negated) c cs
        (differs (contains members c) negated) after (decides_differs (contains members c) negated)
        a
  cell-cons (star crosses) c cs here after current prefix h a m k =
      decides_map (swap (Then-All (λ c. c ≢ stop crosses) L c cs)) (
        decides_or here (not (c == stop crosses) && current) h (
          decides_and (not (c == stop crosses)) current
            (decides_not (c == stop crosses) (decides_eq c (stop crosses))) m))
  cell-cons tree_prefix c cs here after current prefix h a m k =
      decides_map (swap (Then-tree_prefix L (c ∷ cs))) (decides_or here prefix h k)

  fill-Row :
      (token : Token) (text : List ℕ) (next : List Bool)
      → Row L text next
      → Row (Then (Accepts token) L) text (fill token text next).0
        × Decides (fill token text next).1 (Prefixed L text)
  unfolding fill
  fill-Row token text [] r = absurd r
  fill-Row token [] (b ∷ bs) r =
      let k = next_prefix-none L in (cell-nil token b (next_prefix none false false) r k, k)
  fill-Row token (c ∷ cs) (b ∷ bs) (here, later) =
      let after = head-Row L cs bs later in
      let (row, before) = fill-Row token cs bs later in
      let k = next_prefix-decides L c cs (head bs) (fill token cs bs).1 after before in
      let current = head-Row (Then (Accepts token) L) cs (fill token cs bs).0 row in
      ((cell-cons token c cs b (head bs) _ _ here after current k, row), k)

rows-Row : (tokens : List Token) (text : List ℕ) → Row (Matches tokens) text (rows tokens text)
unfolding rows
rows-Row [] text = last_row-Row text
rows-Row (token ∷ tokens) text =
    (fill-Row (Matches tokens) token text (rows tokens text) (rows-Row tokens text)).0

-- The two-row dynamic program accepts a text exactly when the text is a concatenation of pieces,
-- one from the language of each token: one character for a literal, for `?` and for a class,
-- characters other than the stop for a star, and nothing or directories up to a slash without a
-- line break for `**/`.
pub matches-eq-true_iff :
    (tokens : List Token) (text : List ℕ) → (matches tokens text ≡ true) ↔ Matches tokens text
unfolding matches
matches-eq-true_iff tokens text =
    head-Row (Matches tokens) text (rows tokens text) (rows-Row tokens text)
