-- ===== src/Metadata/Normalization/Gaps.antt =====
-- rust/src/metadata_canonical.rs, `normalize`: merged holes and the canonical check.
use difz.Prelude.{
  leb_false→lt, ℕ, ◌+◌, ◌^◌, ◌<◌, ◌≤◌, ◌≡◌, inl, inr, refl, ◌∙◌, lt→ltb, false, List, [], ◌∷◌,
  Option, none, some, arith, leb, lt→leb_false, ltb, ltb→lt, ok_or, reject, >>-eq-ok, >>=-eq-ok,
  reject-eq-ok, ◌==◌, All, Bool-cases, ok,
}
use difz.Prelude.Cursor.{checked_add}
use difz.Metadata.Kinds.{Error, zero_length_hole, hole_overflow}
use difz.Metadata.Records.{Hole}
use difz.Metadata.Validation.{validate_holes, touches}
use difz.Metadata.Normalization.{insert, sort, starts_first, joined, merge_onto, merge, check_holes}
use difz.Metadata.Normalization.Holes.{Ordered, Ordered-sort}

-- What the check before sorting establishes of each hole.
abbrev IsExtent : Hole → Type 0
IsExtent h = (0 < h.size) × (h.offset + h.size < 2 ^ 64)

checked_add-eq-ok :
    (a b : ℕ) (e : Error) {end : ℕ} → ok_or (checked_add a b) e ≡ ok end → a + b < 2 ^ 64
checked_add-eq-ok a b e h = elim (Bool-cases (ltb (a + b) (2 ^ 64))) [
  | inl fits ↦ ltb→lt (a + b) (2 ^ 64) fits
  | inr over ↦ absurd (cc (rw over at h))
]

nonzero : (n : ℕ) → (n == 0) ≡ false → 0 < n
nonzero n h = ground arith

positive : (n : ℕ) → 0 < n → (n == 0) ≡ false
positive n h = ground arith

check_holes-IsExtent : (hs : List Hole) → check_holes hs ≡ ok tt → All IsExtent hs
unfolding check_holes
check_holes-IsExtent [] e = tt
check_holes-IsExtent (h ∷ hs) e =
    let (positive, e₁) = >>-eq-ok (reject (h.size == 0) zero_length_hole) _ e in
    let (end, fits, e₂) = >>=-eq-ok (ok_or (checked_add h.offset h.size) hole_overflow) _ e₁ in
    (
      (
        nonzero h.size (reject-eq-ok (h.size == 0) zero_length_hole positive),
        checked_add-eq-ok h.offset h.size hole_overflow fits,
      ),
      check_holes-IsExtent hs e₂,
    )

All-insert-IsExtent :
    (h : Hole) (hs : List Hole)
    → IsExtent h
    → All IsExtent hs
    → All IsExtent (insert starts_first h hs)
unfolding insert
All-insert-IsExtent h [] x a = (x, tt)
All-insert-IsExtent h (k ∷ hs) x a = elim (Bool-cases (leb h.offset k.offset)) [
  | inl first ↦ rw (first, insert) (x, a)
  | inr later ↦ rw (later, insert) (a.0, All-insert-IsExtent h hs x a.1)
]

All-sort-IsExtent : (hs : List Hole) → All IsExtent hs → All IsExtent (sort starts_first hs)
unfolding sort
All-sort-IsExtent [] a = tt
All-sort-IsExtent (h ∷ hs) a =
    All-insert-IsExtent h (sort starts_first hs) a.0 (All-sort-IsExtent hs a.1)

abbrev Past : Option ℕ → ℕ → Type 0
Past none offset = Unit
Past (some end) offset = end < offset

touches-Past :
    (previous : Option ℕ) (offset : ℕ) → Past previous offset → touches previous offset ≡ false
touches-Past none offset h = refl
touches-Past (some end) offset h = lt→leb_false offset end h

validate_holes-cons :
    (previous : Option ℕ) (h : Hole) (hs : List Hole)
    → Past previous h.offset
    → IsExtent h
    → validate_holes previous (h ∷ hs) ≡ validate_holes (some (h.offset + h.size)) hs
unfolding validate_holes
validate_holes-cons previous h hs past (some_bytes, fits) =
    rw
      (
        positive h.size some_bytes,
        lt→ltb (h.offset + h.size) (2 ^ 64) fits,
        touches-Past previous h.offset past,
      )
      refl

joined-IsExtent :
    (h k : Hole) → h.offset ≤ k.offset → IsExtent h → IsExtent k → IsExtent (joined h k)
unfolding joined
joined-IsExtent h k le (p, f) (q, g) = (omega (arith, le, p), omega (arith, le, f, g))

validate_holes-merge_onto :
    (previous : Option ℕ) (h : Hole) (hs : List Hole)
    → Past previous h.offset
    → Ordered (h ∷ hs)
    → IsExtent h
    → All IsExtent hs
    → validate_holes previous (merge_onto h hs) ≡ ok tt
unfolding merge_onto joined validate_holes
validate_holes-merge_onto previous h [] past o x a = validate_holes-cons previous h [] past x
validate_holes-merge_onto previous h (k ∷ hs) past ((le, before), (after, rest)) x a =
    elim (Bool-cases (leb k.offset (h.offset + h.size))) [
      | inl touch ↦
          rw (touch, merge_onto)
            (validate_holes-merge_onto previous (joined h k) hs past (before, rest)
              (joined-IsExtent h k le x a.0) a.1)
      | inr gap ↦
          rw (gap, merge_onto)
            (validate_holes-cons previous h (merge_onto k hs) past x
              ∙ validate_holes-merge_onto (some (h.offset + h.size)) k hs
                  (leb_false→lt k.offset (h.offset + h.size) gap) (after, rest) a.0 a.1)
    ]

-- If every hole has a length and ends below 2^64, then sorting and merging the holes gives holes
-- that the canonical check accepts: ascending, not empty, and with a gap between any two.
pub validate_holes-merge-sort :
    (hs : List Hole)
    → check_holes hs ≡ ok tt
    → validate_holes none (merge (sort starts_first hs)) ≡ ok tt
unfolding merge validate_holes
validate_holes-merge-sort hs e =
    front (sort starts_first hs) (Ordered-sort hs)
      (All-sort-IsExtent hs (check_holes-IsExtent hs e))
  where
    front : (ks : List Hole) → Ordered ks → All IsExtent ks → validate_holes none (merge ks) ≡ ok tt
    front [] o a = refl
    front (k ∷ ks) o a = validate_holes-merge_onto none k ks tt o a.0 a.1
