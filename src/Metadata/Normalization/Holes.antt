-- ===== src/Metadata/Normalization/Holes.antt =====
-- rust/src/metadata_canonical.rs, `normalize`: the bytes that merged holes cover.
use difz.Prelude.{
  leb_false→le, ℕ, ◌+◌, ◌<◌, ◌≤◌, ◌⊎◌, ◌↔◌, inl, inr, List, [], ◌∷◌, arith, leb, leb→le, ltb,
  ltb→lt, ltb_false→le, All, Bool-cases,
}
use difz.Metadata.Records.{Hole}
use difz.Metadata.Normalization.{insert, sort, starts_first, joined, merge_onto, merge}

-- A byte lies in one of the holes.
abbrev pub Covers : ℕ → List Hole → Type 0
Covers p [] = ⊥
Covers p (h ∷ hs) = ((h.offset ≤ p) × (p < h.offset + h.size)) ⊎ Covers p hs

abbrev pub Ordered : List Hole → Type 0
Ordered [] = Unit
Ordered (h ∷ hs) = All (λ k. h.offset ≤ k.offset) hs × Ordered hs

abbrev Inside : ℕ → Hole → Type 0
Inside p h = (h.offset ≤ p) × (p < h.offset + h.size)

swap_front : {P Q R S : Type 0} → R ↔ (P ⊎ S) → (Q ⊎ R) ↔ (P ⊎ (Q ⊎ S))
swap_front e = (
  λ c. elim c [
    | inl q ↦ inr (inl q)
    | inr r ↦ elim (e.0 r) [ inl p ↦ inl p | inr s ↦ inr (inr s) ]
  ],
  λ c. elim c [
    | inl p ↦ inr (e.1 (inl p))
    | inr rest ↦ elim rest [ inl q ↦ inl q | inr s ↦ inr (e.1 (inr s)) ]
  ],
)

under_left : {P Q R : Type 0} → Q ↔ R → (P ⊎ Q) ↔ (P ⊎ R)
under_left e = (
  λ c. elim c [ inl p ↦ inl p | inr q ↦ inr (e.0 q) ],
  λ c. elim c [ inl p ↦ inl p | inr r ↦ inr (e.1 r) ],
)

chain : {P Q R : Type 0} → P ↔ Q → Q ↔ R → P ↔ R
chain e f = (λ x. f.0 (e.0 x), λ z. e.1 (f.1 z))

Covers-insert :
    (p : ℕ) (h : Hole) (hs : List Hole) → Covers p (insert starts_first h hs) ↔ Covers p (h ∷ hs)
unfolding insert
Covers-insert p h [] = (λ c. c, λ c. c)
Covers-insert p h (k ∷ hs) = elim (Bool-cases (leb h.offset k.offset)) [
  | inl first ↦ rw (first, insert) (λ c. c, λ c. c)
  | inr later ↦ rw (later, insert) (swap_front (Covers-insert p h hs))
]

Covers-sort : (p : ℕ) (hs : List Hole) → Covers p (sort starts_first hs) ↔ Covers p hs
unfolding sort
Covers-sort p [] = (λ c. c, λ c. c)
Covers-sort p (h ∷ hs) =
    chain (Covers-insert p h (sort starts_first hs)) (under_left (Covers-sort p hs))

All-insert :
    (n : ℕ) (h : Hole) (hs : List Hole)
    → n ≤ h.offset
    → All (λ k. n ≤ k.offset) hs
    → All (λ k. n ≤ k.offset) (insert starts_first h hs)
unfolding insert
All-insert n h [] le a = (le, tt)
All-insert n h (k ∷ hs) le a = elim (Bool-cases (leb h.offset k.offset)) [
  | inl first ↦ rw (first, insert) (le, a)
  | inr later ↦ rw (later, insert) (a.0, All-insert n h hs le a.1)
]

All-from :
    (m n : ℕ) (hs : List Hole) → m ≤ n → All (λ k. n ≤ k.offset) hs → All (λ k. m ≤ k.offset) hs
All-from m n [] le a = tt
All-from m n (k ∷ hs) le a = (omega (arith, le, a.0), All-from m n hs le a.1)

Ordered-insert : (h : Hole) (hs : List Hole) → Ordered hs → Ordered (insert starts_first h hs)
unfolding insert
Ordered-insert h [] o = (tt, tt)
Ordered-insert h (k ∷ hs) o = elim (Bool-cases (leb h.offset k.offset)) [
  | inl first ↦
      let le = leb→le h.offset k.offset first in
      rw (first, insert) ((le, All-from h.offset k.offset hs le o.0), o)
  | inr later ↦
      rw (later, insert)
        (
          All-insert k.offset h hs (leb_false→le h.offset k.offset later) o.0,
          Ordered-insert h hs o.1,
        )
]

pub Ordered-sort : (hs : List Hole) → Ordered (sort starts_first hs)
unfolding sort
Ordered-sort [] = tt
Ordered-sort (h ∷ hs) = Ordered-insert h (sort starts_first hs) (Ordered-sort hs)

Inside-joined :
    (p : ℕ) (h k : Hole)
    → h.offset ≤ k.offset
    → k.offset ≤ h.offset + h.size
    → Inside p (joined h k) ↔ (Inside p h ⊎ Inside p k)
unfolding joined
Inside-joined p h k le touch = (
  λ (low, high). elim (Bool-cases (ltb p (h.offset + h.size))) [
    | inl first ↦ inl (low, ltb→lt p (h.offset + h.size) first)
    | inr past ↦
        let after = ltb_false→le p (h.offset + h.size) past in
        inr (omega (arith, after, touch), omega (arith, after, high))
  ],
  λ c. elim c [
    | inl (low, high) ↦ (low, omega (arith, low, high))
    | inr (low, high) ↦ (omega (arith, le, low), omega (arith, low, high, le))
  ],
)

join_front : {P Q R S : Type 0} → P ↔ (Q ⊎ R) → (P ⊎ S) ↔ (Q ⊎ (R ⊎ S))
join_front e = (
  λ c. elim c [
    | inl p ↦ elim (e.0 p) [ inl q ↦ inl q | inr r ↦ inr (inl r) ]
    | inr s ↦ inr (inr s)
  ],
  λ c. elim c [
    | inl q ↦ inl (e.1 (inl q))
    | inr rest ↦ elim rest [ inl r ↦ inl (e.1 (inr r)) | inr s ↦ inr s ]
  ],
)

Covers-merge_onto :
    (p : ℕ) (h : Hole) (hs : List Hole)
    → Ordered (h ∷ hs)
    → Covers p (merge_onto h hs) ↔ Covers p (h ∷ hs)
unfolding merge_onto joined
Covers-merge_onto p h [] o = (λ c. c, λ c. c)
Covers-merge_onto p h (k ∷ hs) ((le, before), (after, rest)) =
    elim (Bool-cases (leb k.offset (h.offset + h.size))) [
      | inl touch ↦
          rw (touch, merge_onto)
            (chain (Covers-merge_onto p (joined h k) hs (before, rest))
              (join_front (Inside-joined p h k le (leb→le k.offset (h.offset + h.size) touch))))
      | inr gap ↦ rw (gap, merge_onto) (under_left (Covers-merge_onto p k hs (after, rest)))
    ]

-- A byte lies in one of the sorted and merged holes exactly when it lies in one of the given
-- holes.
pub Covers-merge-sort :
    (p : ℕ) (hs : List Hole) → Covers p (merge (sort starts_first hs)) ↔ Covers p hs
unfolding merge
Covers-merge-sort p hs = chain (front (sort starts_first hs) (Ordered-sort hs)) (Covers-sort p hs)
  where
    front : (ks : List Hole) → Ordered ks → Covers p (merge ks) ↔ Covers p ks
    front [] o = (λ c. c, λ c. c)
    front (k ∷ ks) o = Covers-merge_onto p k ks o
