-- ===== src/Metadata/Normalization.antt =====
-- rust/src/metadata_canonical.rs, `normalize`: a raw record is trimmed, sorted, merged and validated.
pub mod Holes
pub mod Gaps
pub mod Families
pub mod Outcome
use difz.Prelude.{
  ℕ, ◌+◌, ◌-◌, ◌^◌, max, Bool, true, false, not, ◌&&◌, List, [], ◌∷◌, Option, none, some, leb, ltb,
  ◌==◌, length, is_empty, if◌then◌else◌, Result, ok, err, ok_or, ◌>>=◌, ◌>>◌, reject,
}
use difz.Prelude.Cursor.{checked_add}
use Prim.Native.Nat.{Ordering}
use difz.Metadata.Family
use difz.Metadata.Family.{Family, xattr, acl, timestamps, finder, sparse, hardlink}
use difz.Metadata.Kinds.{Error, duplicate_xattr, duplicate_ace, zero_length_hole, hole_overflow}
use difz.Metadata.Omit
use difz.Metadata.Omit.{Omit}
use difz.Metadata.Names.{validate_xattr_name, validate_ace_name}
use difz.Metadata.Records.{Xattr, Ace, Hole, Metadata, no_times}
use difz.Metadata.Validation.{
  wire_length, xattr_cmp, ace_cmp, same_xattr, same_ace, validate_native_acl, validate_times,
  CanonicalMetadata, new,
}

-- The branch of the loop for a family that is omitted.
unfoldable pub clear : Family → Metadata → Metadata
clear xattr m = record m { xattrs = [] }
clear acl m = record m { aces = []; native_acl = none }
clear timestamps m = record m { times = no_times }
clear finder m = record m { finder_flags = 0; finder_info = none }
clear sparse m = record m { holes = [] }
clear hardlink m = record m { hardlink_to = none }

unfoldable pub clear_omitted : List Family → Omit → Metadata → Metadata
clear_omitted [] omit m = m
clear_omitted (family ∷ families) omit m =
    clear_omitted families omit (if Omit.contains omit family then clear family m else m)

-- `sort_unstable_by` as an insertion sort on a comparison that is at most `Equal`.
module _ {A : Type 0} (at_most : A → A → Bool) where
  unfoldable pub insert : A → List A → List A
  insert x [] = x ∷ []
  insert x (y ∷ ys) = let rest = insert x ys in if at_most x y then x ∷ y ∷ ys else y ∷ rest

  unfoldable pub sort : List A → List A
  sort [] = []
  sort (x ∷ xs) = insert x (sort xs)

-- `windows(2)` with a test for duplicates.
unfoldable pub reject_pairs {ℓ} :
    {A : Type ℓ} → (A → A → Bool) → Error → List A → Result Error (Unit {0})
reject_pairs same e [] = ok tt
reject_pairs same e (x ∷ []) = ok tt
reject_pairs same e (x ∷ y ∷ ys) = do reject (same x y) e; reject_pairs same e (y ∷ ys)

unfoldable pub check_xattrs : List Xattr → Result Error (Unit {0})
check_xattrs [] = ok tt
check_xattrs (x ∷ xs) = do
  validate_xattr_name x.class x.name
  wire_length (length x.value)
  check_xattrs xs

unfoldable pub check_aces : List Ace → Result Error (Unit {0})
check_aces [] = ok tt
check_aces (a ∷ aces) = do
  validate_ace_name a.tag a.name
  wire_length (length a.name)
  check_aces aces

unfoldable pub check_holes : List Hole → Result Error (Unit {0})
check_holes [] = ok tt
check_holes (hole ∷ holes) = do
  reject (hole.size == 0) zero_length_hole
  end ← ok_or (checked_add hole.offset hole.size) hole_overflow
  check_holes holes

abbrev not_gt : Ordering → Bool
not_gt Ordering.lt = true
not_gt Ordering.eq = true
not_gt Ordering.gt = false

abbrev pub starts_first : Hole → Hole → Bool
starts_first a b = leb a.offset b.offset

-- `previous.length = previous_end.max(end) - previous.offset`
unfoldable pub joined : Hole → Hole → Hole
joined previous hole = record {
  offset = previous.offset;
  size = max (previous.offset + previous.size) (hole.offset + hole.size) - previous.offset;
}

-- `holes[count - 1]` is `previous`; a hole that touches it is merged, another one is kept behind it.
unfoldable pub merge_onto : Hole → List Hole → List Hole
merge_onto previous [] = previous ∷ []
merge_onto previous (hole ∷ holes) =
    let touches = leb hole.offset (previous.offset + previous.size) in
    let rest = merge_onto (if touches then joined previous hole else hole) holes in
    if touches then rest else previous ∷ rest

unfoldable pub merge : List Hole → List Hole
merge [] = []
merge (hole ∷ holes) = merge_onto hole holes

unfoldable pub normalize : Metadata → Omit → Result Error CanonicalMetadata
normalize raw omit = do
  let m = clear_omitted Family.all omit raw
  wire_length (length m.xattrs)
  check_xattrs m.xattrs
  let xattrs = sort (λ a b. not_gt (xattr_cmp a b)) m.xattrs
  reject_pairs same_xattr duplicate_xattr xattrs
  wire_length (length m.aces)
  check_aces m.aces
  let aces = sort (λ a b. not_gt (ace_cmp a b)) m.aces
  reject_pairs same_ace duplicate_ace aces
  validate_native_acl m.native_acl
  validate_times m.times
  wire_length (length m.holes)
  check_holes m.holes
  new (record m { xattrs = xattrs; aces = aces; holes = merge (sort starts_first m.holes) })
