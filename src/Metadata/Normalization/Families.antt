-- ===== src/Metadata/Normalization/Families.antt =====
-- rust/src/metadata_canonical.rs, `normalize`: what the loop over the families and the sorts do to
-- each field of a record.
use mathlib.Core.List.{Perm}
use mathlib.Core.List.Perm
use difz.Prelude.{
  arith, ◌≡◌, Bool, true, false, List, [], ◌∷◌, none, if◌then◌else◌, Bool-cases, inl, inr,
}
use difz.Metadata.Family
use difz.Metadata.Family.{Family, xattr, acl, timestamps, finder, sparse, hardlink}
use difz.Metadata.Omit
use difz.Metadata.Omit.{Omit}
use difz.Metadata.Records.{Metadata, no_times}
use difz.Metadata.Normalization.{insert, sort, clear, clear_omitted}

module _ {A : Type 0} (at_most : A → A → Bool) where
  insert-Perm : (x : A) (ys : List A) → Perm (insert at_most x ys) (x ∷ ys)
  unfolding insert
  insert-Perm x [] = Perm.refl (x ∷ [])
  insert-Perm x (y ∷ ys) = elim (Bool-cases (at_most x y)) [
    | inl first ↦ rw (first, insert) (Perm.refl (x ∷ y ∷ ys))
    | inr later ↦
        rw (later, insert) (Perm.trans (Perm.cons y (insert-Perm x ys)) (Perm.swap x y ys))
  ]

  pub sort-Perm : (xs : List A) → Perm (sort at_most xs) xs
  unfolding sort
  sort-Perm [] = Perm.refl []
  sort-Perm (x ∷ xs) = Perm.trans (insert-Perm x (sort at_most xs)) (Perm.cons x (sort-Perm xs))

-- What holds of a field: one thing if its family is omitted, another one if it is kept.
abbrev pub OfFamily : Bool → Type 0 → Type 0 → Type 0
OfFamily true gone kept = gone
OfFamily false gone kept = kept

pub OfFamily-if :
    {A : Type 0} (b : Bool) (x gone kept : A)
    → x ≡ (if b then gone else kept)
    → OfFamily b (x ≡ gone) (x ≡ kept)
OfFamily-if true x gone kept h = h
OfFamily-if false x gone kept h = h

pub OfFamily-map :
    (b : Bool) {P Q R S : Type 0} → (P → R) → (Q → S) → OfFamily b P Q → OfFamily b R S
OfFamily-map true f g h = f h
OfFamily-map false f g h = g h

fields_cleared :
    (m : Metadata) (a b c d e f : Bool)
    → (let m₁ = if a then clear xattr m else m in
        let m₂ = if b then clear acl m₁ else m₁ in
        let m₃ = if c then clear timestamps m₂ else m₂ in
        let m₄ = if d then clear finder m₃ else m₃ in
        let m₅ = if e then clear sparse m₄ else m₄ in
        let n = if f then clear hardlink m₅ else m₅ in
        (n.xattrs ≡ (if a then [] else m.xattrs))
        × (n.aces ≡ (if b then [] else m.aces))
        × (n.native_acl ≡ (if b then none else m.native_acl))
        × (n.times ≡ (if c then no_times else m.times))
        × (n.finder_flags ≡ (if d then 0 else m.finder_flags))
        × (n.finder_info ≡ (if d then none else m.finder_info))
        × (n.holes ≡ (if e then [] else m.holes))
        × (n.hardlink_to ≡ (if f then none else m.hardlink_to)))
unfolding clear
fields_cleared m a b c d e f = ground arith

-- Each field without the omitted families is empty or unchanged.
pub record IsCleared (omit : Omit) (raw m : Metadata) : Type 0 where
  pub xattrs : OfFamily (Omit.contains omit xattr) (m.xattrs ≡ []) (m.xattrs ≡ raw.xattrs)
  pub aces : OfFamily (Omit.contains omit acl) (m.aces ≡ []) (m.aces ≡ raw.aces)
  pub native_acl :
      OfFamily (Omit.contains omit acl) (m.native_acl ≡ none) (m.native_acl ≡ raw.native_acl)
  pub times : OfFamily (Omit.contains omit timestamps) (m.times ≡ no_times) (m.times ≡ raw.times)
  pub finder_flags :
      OfFamily (Omit.contains omit finder) (m.finder_flags ≡ 0) (m.finder_flags ≡ raw.finder_flags)
  pub finder_info :
      OfFamily (Omit.contains omit finder) (m.finder_info ≡ none) (m.finder_info ≡ raw.finder_info)
  pub holes : OfFamily (Omit.contains omit sparse) (m.holes ≡ []) (m.holes ≡ raw.holes)
  pub hardlink_to :
      OfFamily
        (Omit.contains omit hardlink)
        (m.hardlink_to ≡ none)
        (m.hardlink_to ≡ raw.hardlink_to)

pub clear_omitted-IsCleared :
    (omit : Omit) (m : Metadata) → IsCleared omit m (clear_omitted Family.all omit m)
unfolding clear_omitted
clear_omitted-IsCleared omit m =
    let h =
      fields_cleared m (Omit.contains omit xattr) (Omit.contains omit acl)
        (Omit.contains omit timestamps) (Omit.contains omit finder) (Omit.contains omit sparse)
        (Omit.contains omit hardlink) in
    record {
      xattrs = OfFamily-if (Omit.contains omit xattr) _ [] m.xattrs h.0;
      aces = OfFamily-if (Omit.contains omit acl) _ [] m.aces h.1;
      native_acl = OfFamily-if (Omit.contains omit acl) _ none m.native_acl h.2;
      times = OfFamily-if (Omit.contains omit timestamps) _ no_times m.times h.3;
      finder_flags = OfFamily-if (Omit.contains omit finder) _ 0 m.finder_flags h.4;
      finder_info = OfFamily-if (Omit.contains omit finder) _ none m.finder_info h.5;
      holes = OfFamily-if (Omit.contains omit sparse) _ [] m.holes h.6;
      hardlink_to = OfFamily-if (Omit.contains omit hardlink) _ none m.hardlink_to h.7;
    }
