-- ===== src/Metadata/Normalization/Outcome.antt =====
-- rust/src/metadata_canonical.rs, `normalize`: what the returned record has of the raw one.
use mathlib.Core.List.{Perm}
use difz.Prelude.{Bool, subst, List, [], none, ℕ, ◌≡◌, ◌↔◌, refl, sym, ap, length, ok, >>-eq-ok}
use difz.Metadata.Family
use difz.Metadata.Family.{xattr, acl, timestamps, finder, sparse, hardlink}
use difz.Metadata.Kinds.{duplicate_xattr, duplicate_ace}
use difz.Metadata.Omit
use difz.Metadata.Omit.{Omit}
use difz.Metadata.Records.{Metadata, Hole, no_times}
use difz.Metadata.Validation.{
  CanonicalMetadata, wire_length, xattr_cmp, ace_cmp, same_xattr, same_ace, validate_native_acl,
  validate_times, validate, new,
}
use difz.Metadata.Normalization.{
  clear_omitted, sort, starts_first, not_gt, merge, check_xattrs, check_aces, check_holes,
  reject_pairs, normalize,
}
use difz.Metadata.Normalization.Holes.{Covers, Covers-merge-sort}
use difz.Metadata.Normalization.Families.{
  sort-Perm, OfFamily, OfFamily-map, clear_omitted-IsCleared,
}

metadata_new-eq-ok :
    (m : Metadata) {c : CanonicalMetadata} → new m ≡ ok c → (c.metadata ≡ m) × (validate m ≡ ok tt)
unfolding new
metadata_new-eq-ok m {c} e =
    let (valid, rest) = >>-eq-ok (validate m) _ e in
    let same : record { metadata = m } ≡ c = cc rest in (ap (λ d. d.metadata) (sym same), valid)

-- A record with the fields of a raw one, or without them if their family is omitted.
pub record IsNormalized (omit : Omit) (raw m : Metadata) : Type 0 where
  pub xattrs : OfFamily (Omit.contains omit xattr) (m.xattrs ≡ []) (Perm m.xattrs raw.xattrs)
  pub aces : OfFamily (Omit.contains omit acl) (m.aces ≡ []) (Perm m.aces raw.aces)
  pub native_acl :
      OfFamily (Omit.contains omit acl) (m.native_acl ≡ none) (m.native_acl ≡ raw.native_acl)
  pub times : OfFamily (Omit.contains omit timestamps) (m.times ≡ no_times) (m.times ≡ raw.times)
  pub finder_flags :
      OfFamily (Omit.contains omit finder) (m.finder_flags ≡ 0) (m.finder_flags ≡ raw.finder_flags)
  pub finder_info :
      OfFamily (Omit.contains omit finder) (m.finder_info ≡ none) (m.finder_info ≡ raw.finder_info)
  pub holes :
      OfFamily
        (Omit.contains omit sparse)
        (m.holes ≡ [])
        ((p : ℕ) → Covers p m.holes ↔ Covers p raw.holes)
  pub hardlink_to :
      OfFamily
        (Omit.contains omit hardlink)
        (m.hardlink_to ≡ none)
        (m.hardlink_to ≡ raw.hardlink_to)

sorted :
    {A : Type 0} (at_most : A → A → Bool) {xs ys : List A} → xs ≡ ys → Perm (sort at_most xs) ys
sorted at_most {xs} same = subst (Perm (sort at_most xs)) same (sort-Perm at_most xs)

empty_sorted : {A : Type 0} (at_most : A → A → Bool) {xs : List A} → xs ≡ [] → sort at_most xs ≡ []
unfolding sort
empty_sorted at_most none_left = rw none_left refl

empty_merged : {holes : List Hole} → holes ≡ [] → merge (sort starts_first holes) ≡ []
unfolding merge sort
empty_merged none_left = rw none_left refl

-- If normalization succeeds, the returned record passes validation. A family that is omitted
-- leaves nothing in it. Of a family that is kept it has the attributes and the entries of the
-- portable access control list of the raw record in some order, the native list, the times, the
-- Finder's fields and the hard link unchanged, and holes that cover exactly the same bytes.
pub normalize-eq-ok :
    (raw : Metadata) (omit : Omit) {c : CanonicalMetadata}
    → normalize raw omit ≡ ok c
    → (validate c.metadata ≡ ok tt) × IsNormalized omit raw c.metadata
unfolding normalize
normalize-eq-ok raw omit {c} e =
    let m = clear_omitted Family.all omit raw in
    let xattrs = sort (λ a b. not_gt (xattr_cmp a b)) m.xattrs in
    let aces = sort (λ a b. not_gt (ace_cmp a b)) m.aces in
    let (_, e₁) = >>-eq-ok (wire_length (length m.xattrs)) _ e in
    let (_, e₂) = >>-eq-ok (check_xattrs m.xattrs) _ e₁ in
    let (_, e₃) = >>-eq-ok (reject_pairs same_xattr duplicate_xattr xattrs) _ e₂ in
    let (_, e₄) = >>-eq-ok (wire_length (length m.aces)) _ e₃ in
    let (_, e₅) = >>-eq-ok (check_aces m.aces) _ e₄ in
    let (_, e₆) = >>-eq-ok (reject_pairs same_ace duplicate_ace aces) _ e₅ in
    let (_, e₇) = >>-eq-ok (validate_native_acl m.native_acl) _ e₆ in
    let (_, e₈) = >>-eq-ok (validate_times m.times) _ e₇ in
    let (_, e₉) = >>-eq-ok (wire_length (length m.holes)) _ e₈ in
    let (_, made) = >>-eq-ok (check_holes m.holes) _ e₉ in
    let (same, valid) =
      metadata_new-eq-ok
        (record m { xattrs = xattrs; aces = aces; holes = merge (sort starts_first m.holes) })
        made in
    let cleared = clear_omitted-IsCleared omit raw in
    rw same (
      valid,
      record {
        xattrs =
            OfFamily-map (Omit.contains omit xattr) (empty_sorted (λ a b. not_gt (xattr_cmp a b)))
              (sorted (λ a b. not_gt (xattr_cmp a b))) cleared.xattrs;
        aces =
            OfFamily-map (Omit.contains omit acl) (empty_sorted (λ a b. not_gt (ace_cmp a b)))
              (sorted (λ a b. not_gt (ace_cmp a b))) cleared.aces;
        native_acl = cleared.native_acl;
        times = cleared.times;
        finder_flags = cleared.finder_flags;
        finder_info = cleared.finder_info;
        holes =
            OfFamily-map (Omit.contains omit sparse) empty_merged
              (λ kept p.
                subst (λ hs. Covers p (merge (sort starts_first m.holes)) ↔ Covers p hs) kept
                  (Covers-merge-sort p m.holes))
              cleared.holes;
        hardlink_to = cleared.hardlink_to;
      },
    )
