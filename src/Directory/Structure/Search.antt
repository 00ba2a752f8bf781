-- ===== src/Directory/Structure/Search.antt =====
-- rust/src/directory_structure.rs, `find_path`: what the binary search returns on ordered slices.
use mathlib.Core.Option
use Prim.Native.Nat.{Ordering}
use difz.Prelude.{
  ℕ, zero, suc, ◌+◌, ◌/◌, ◌≤◌, ◌≡◌, ◌≢◌, ◌↔◌, inl, inr, refl, sym, ap, ◌∙◌, List, [], ◌∷◌, Option,
  none, some, arith, length, get_elem?, take, drop, All, All-append, subst, length-take,
  length-drop, Option-cases,
}
use difz.Prelude.Bytes.{Bytes}
use difz.Prelude.Order.{cmp, cmp_refl, cmp-eq, cmp-gt, cmp_trans, Ordering-cases}
use difz.Directory.Structure.{Record, search, find_path}
use difz.Directory.Structure.Order.{
  Below, Ascending, All_weaken, split_at, Ascending-append, some-injective, get_elem?-in_range,
  get_elem?-drop, get_elem?-take,
}

Found : List Record → Bytes → Option ℕ → Type 0
Found entries path none = Unit
Found entries path (some i) = (e : Record) × (get_elem? entries i ≡ some e) × (e.path ≡ path)

-- The three outcomes of a comparison with the entry in the middle.
module _ (fuel : ℕ) (entries : List Record) (path : Bytes) (e : Record)
    (at : get_elem? entries (length entries / 2) ≡ some e) where
  search_lt :
      cmp e.path path ≡ Ordering.lt
      → search (suc fuel) entries path
        ≡ Option.map
            (λ i. length entries / 2 + 1 + i)
            (search fuel (drop (length entries / 2 + 1) entries) path)
  unfolding search
  search_lt h = rw (search, at, h) refl

  search_eq :
      cmp e.path path ≡ Ordering.eq → search (suc fuel) entries path ≡ some (length entries / 2)
  unfolding search
  search_eq h = rw (search, at, h) refl

  search_gt :
      cmp e.path path ≡ Ordering.gt
      → search (suc fuel) entries path ≡ search fuel (take (length entries / 2) entries) path
  unfolding search
  search_gt h = rw (search, at, h) refl

search_out :
    (fuel : ℕ) (entries : List Record) (path : Bytes)
    → get_elem? entries (length entries / 2) ≡ none
    → search (suc fuel) entries path ≡ none
unfolding search
search_out fuel entries path at = rw (search, at) refl

Found-drop :
    (entries : List Record) (path : Bytes) (n : ℕ) (o : Option ℕ)
    → Found (drop n entries) path o
    → Found entries path (Option.map (λ i. n + i) o)
unfolding Found
Found-drop entries path n none h = tt
Found-drop entries path n (some i) (e, at, same) = (e, sym (get_elem?-drop entries n i) ∙ at, same)

Found-take :
    (entries : List Record) (path : Bytes) (n : ℕ) (o : Option ℕ)
    → Found (take n entries) path o
    → Found entries path o
unfolding Found
Found-take entries path n none h = tt
Found-take entries path n (some i) (e, at, same) = (e, get_elem?-take entries n i at, same)

-- What is found has the path that was looked for, in any slice.
search-Found :
    (fuel : ℕ) (entries : List Record) (path : Bytes)
    → Found entries path (search fuel entries path)
unfolding search Found
search-Found zero entries path = tt
search-Found (suc fuel) entries path =
    let half = length entries / 2 in
    elim (Option-cases (get_elem? entries half)) [
      | inl at ↦ subst (Found entries path) (sym (search_out fuel entries path at)) tt
      | inr (e, at) ↦ elim (Ordering-cases (cmp e.path path)) [
        | inl lt ↦ subst (Found entries path) (sym (search_lt fuel entries path e at lt)) (
            Found-drop entries path (half + 1) _ (search-Found fuel (drop (half + 1) entries) path))
        | inr (inl eq) ↦
            subst (Found entries path) (sym (search_eq fuel entries path e at eq))
              (e, at, cmp-eq e.path path eq)
        | inr (inr gt) ↦
            subst (Found entries path) (sym (search_gt fuel entries path e at gt))
              (Found-take entries path half _ (search-Found fuel (take half entries) path))
      ]
    ]

map-none : (n : ℕ) (o : Option ℕ) → Option.map (λ i. n + i) o ≡ none → o ≡ none
map-none n none h = refl
map-none n (some i) h = cc h

cmp_lt-ne : (xs ys : Bytes) → cmp xs ys ≡ Ordering.lt → xs ≢ ys
cmp_lt-ne xs ys h same = absurd (cc (h, cmp_refl xs, same))

cmp_gt-ne : (xs ys : Bytes) → cmp xs ys ≡ Ordering.gt → xs ≢ ys
cmp_gt-ne xs ys h same = absurd (cc (h, cmp_refl xs, same))

Other : Bytes → Record → Type 0
Other path e = e.path ≢ path

-- An entry of an ordered slice, with the entries around it.
module _ (entries : List Record) (path : Bytes) (e : Record) (half : ℕ) (asc : Ascending entries)
    (at : get_elem? entries half ≡ some e) where
  around :
      Ascending (take half entries)
      × All (λ x. Below x e) (take half entries)
      × All (Below e) (drop (half + 1) entries)
      × Ascending (drop (half + 1) entries)
  around =
      Ascending-append (take half entries) (drop (half + 1) entries) e
        (subst Ascending (split_at entries half e at) asc)

  rejoin :
      All (Other path) (take half entries)
      → Other path e
      → All (Other path) (drop (half + 1) entries)
      → All (Other path) entries
  rejoin left here right =
      subst (All (Other path)) (sym (split_at entries half e at)) (
        All-append (Other path) (take half entries) (e ∷ drop (half + 1) entries) left
          (here, right))

  none_right :
      cmp e.path path ≡ Ordering.lt
      → All (Other path) (drop (half + 1) entries)
      → All (Other path) entries
  unfolding Other
  none_right lt right =
      let before : All (Other path) (take half entries) =
        All_weaken (take half entries)
          (λ x below. cmp_lt-ne x.path path (cmp_trans x.path e.path path below lt)) around.1 in
      rejoin before (cmp_lt-ne e.path path lt) right

  none_left :
      cmp e.path path ≡ Ordering.gt
      → All (Other path) (take half entries)
      → All (Other path) entries
  unfolding Other
  none_left gt left =
      let after : All (Other path) (drop (half + 1) entries) =
        All_weaken (drop (half + 1) entries)
          (λ y above same.
            cmp_lt-ne path y.path (cmp_trans path e.path y.path (cmp-gt e.path path gt) above)
              (sym same))
          around.2 in
      rejoin left (cmp_gt-ne e.path path gt) after

-- In an ordered slice, no entry is overlooked.
search-none :
    (fuel : ℕ) (entries : List Record) (path : Bytes)
    → length entries ≤ fuel
    → Ascending entries
    → search fuel entries path ≡ none
    → All (Other path) entries
search-none fuel [] path h asc e = tt
search-none zero (x ∷ xs) path h asc e = absurd (omega (arith, h))
search-none (suc fuel) (x ∷ xs) path h asc missed =
    let entries = x ∷ xs in
    let half = length entries / 2 in
    elim (Option-cases (get_elem? entries half)) [
      | inl at ↦ absurd (omega (arith, get_elem?-in_range entries half at))
      | inr (e, at) ↦
          let (left, _, _, right) = around entries path e half asc at in
          elim (Ordering-cases (cmp e.path path)) [
            | inl lt ↦ none_right entries path e half asc at lt (
                search-none fuel (drop (half + 1) entries) path
                  (omega (arith, h, length-drop (half + 1) entries)) right
                  (map-none (half + 1) _ (sym (search_lt fuel entries path e at lt) ∙ missed)))
            | inr (inl eq) ↦ absurd (cc (search_eq fuel entries path e at eq, missed))
            | inr (inr gt) ↦ none_left entries path e half asc at gt (
                search-none fuel (take half entries) path
                  (omega (arith, h, length-take half entries)) left
                  (sym (search_gt fuel entries path e at gt) ∙ missed))
          ]
    ]

pub All-get {ℓ κ} :
    {A : Type ℓ} (P : A → Type κ) (xs : List A) (i : ℕ) (a : A)
    → get_elem? xs i ≡ some a
    → All P xs
    → P a
All-get P [] i a at h = cc
All-get P (x ∷ xs) zero a at h = subst P (some-injective at) h.0
All-get P (x ∷ xs) (suc i) a at h = All-get P xs i a at h.1

same_index :
    (entries : List Record) (i j : ℕ) (a b : Record)
    → Ascending entries
    → get_elem? entries i ≡ some a
    → get_elem? entries j ≡ some b
    → a.path ≡ b.path
    → i ≡ j
same_index [] i j a b asc ai bj same = cc
same_index (x ∷ xs) zero zero a b asc ai bj same = refl
same_index (x ∷ xs) zero (suc j) a b asc ai bj same = absurd (
    cmp_lt-ne x.path b.path (All-get (Below x) xs j b bj asc.0)
      (ap (λ e. e.path) (some-injective ai) ∙ same))
same_index (x ∷ xs) (suc i) zero a b asc ai bj same = absurd (
    cmp_lt-ne x.path a.path (All-get (Below x) xs i a ai asc.0)
      (ap (λ e. e.path) (some-injective bj) ∙ sym same))
same_index (x ∷ xs) (suc i) (suc j) a b asc ai bj same =
    ap suc (same_index xs i j a b asc.1 ai bj same)

pub find_path-eq-some :
    (entries : List Record) (path : Bytes) (i : ℕ)
    → find_path entries path ≡ some i
    → (e : Record) × (get_elem? entries i ≡ some e) × (e.path ≡ path)
unfolding find_path Found
find_path-eq-some entries path i hit =
    subst (Found entries path) hit (search-Found (length entries) entries path)

-- In a slice whose paths ascend, the binary search returns an index exactly when the entry at
-- that index has the path.
pub find_path-eq-some_iff :
    (entries : List Record) (path : Bytes) (i : ℕ)
    → Ascending entries
    → (find_path entries path ≡ some i)
      ↔ ((e : Record) × (get_elem? entries i ≡ some e) × (e.path ≡ path))
unfolding find_path Found Other
find_path-eq-some_iff entries path i asc =
    let found = search-Found (length entries) entries path in
    (
      λ hit. subst (Found entries path) hit found,
      λ (e, at, same). elim (Option-cases (find_path entries path)) [
        | inl missed ↦ absurd (
            All-get (Other path) entries i e at
              (search-none (length entries) entries path (omega arith) asc missed) same)
        | inr (j, hit) ↦
            let (d, at', same') = subst (Found entries path) hit found in
            hit ∙ ap some (same_index entries j i d e asc at' at (same' ∙ sym same))
      ],
    )
