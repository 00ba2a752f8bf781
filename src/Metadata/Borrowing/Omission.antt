-- ===== src/Metadata/Borrowing/Omission.antt =====
-- rust/src/metadata_borrow.rs: borrowed views and `normalize`'s clearing of families.
use difz.Prelude.{ℕ, ◌≡◌, refl, Bool, true, false, List, [], ◌∷◌, length, if◌then◌else◌, ok, arith}
use difz.Metadata.Family
use difz.Metadata.Family.{Family, xattr, acl, timestamps, finder, sparse, hardlink}
use difz.Metadata.Omit
use difz.Metadata.Omit.{Omit}
use difz.Metadata.Records.{Metadata, no_metadata}
use difz.Metadata.Validation.{CanonicalMetadata, new}
use difz.Metadata.Normalization.{clear, clear_omitted}
use difz.Metadata.Borrowing.{reserve_exact, copy, copy_kept, borrowing_omitting}

module _ (reserve : ℕ → Bool) (ample : (n : ℕ) → reserve n ≡ true) where
  -- What a copy of a family returns when space is granted.
  take_from : Family → Metadata → Metadata → Metadata
  take_from xattr m value = record value { xattrs = m.xattrs }
  take_from acl m value = record value { aces = m.aces; native_acl = m.native_acl }
  take_from timestamps m value = record value { times = m.times }
  take_from finder m value = record value {
    finder_flags = m.finder_flags;
    finder_info = m.finder_info;
  }
  take_from sparse m value = record value { holes = m.holes }
  take_from hardlink m value = record value { hardlink_to = m.hardlink_to }

  copy-eq : (f : Family) (m value : Metadata) → copy reserve f m value ≡ ok (take_from f m value)
  unfolding copy reserve_exact take_from
  copy-eq xattr m value = rw (ample (length m.xattrs)) refl
  copy-eq acl m value = rw (ample (length m.aces)) refl
  copy-eq timestamps m value = refl
  copy-eq finder m value = refl
  copy-eq sparse m value = rw (ample (length m.holes)) refl
  copy-eq hardlink m value = refl

  six :
      (m : Metadata) (a b c d e f : Bool)
      → (let v₁ = if a then no_metadata else take_from xattr m no_metadata in
          let v₂ = if b then v₁ else take_from acl m v₁ in
          let v₃ = if c then v₂ else take_from timestamps m v₂ in
          let v₄ = if d then v₃ else take_from finder m v₃ in
          let v₅ = if e then v₄ else take_from sparse m v₄ in
          if f then v₅ else take_from hardlink m v₅)
        ≡ (let m₁ = if a then clear xattr m else m in
            let m₂ = if b then clear acl m₁ else m₁ in
            let m₃ = if c then clear timestamps m₂ else m₂ in
            let m₄ = if d then clear finder m₃ else m₃ in
            let m₅ = if e then clear sparse m₄ else m₄ in if f then clear hardlink m₅ else m₅)
  unfolding take_from clear
  six m a b c d e f = ground arith

  kept : List Family → Omit → Metadata → Metadata → Metadata
  kept [] omit m value = value
  kept (f ∷ families) omit m value =
      kept families omit m (if Omit.contains omit f then value else take_from f m value)

  copied :
      (b : Bool) (f : Family) (m value : Metadata)
      → (if b then ok value else copy reserve f m value)
        ≡ ok (if b then value else take_from f m value)
  copied true f m value = refl
  copied false f m value = copy-eq f m value

  copy_kept-kept :
      (families : List Family) (omit : Omit) (m value : Metadata)
      → copy_kept reserve families omit m value ≡ ok (kept families omit m value)
  unfolding copy_kept kept
  copy_kept-kept [] omit m value = refl
  copy_kept-kept (f ∷ families) omit m value =
      rw (copied (Omit.contains omit f) f m value) (
        copy_kept-kept families omit m
          (if Omit.contains omit f then value else take_from f m value))

  kept-clear_omitted :
      (omit : Omit) (m : Metadata)
      → kept Family.all omit m no_metadata ≡ clear_omitted Family.all omit m
  unfolding kept clear_omitted
  kept-clear_omitted omit m =
      six m (Omit.contains omit xattr) (Omit.contains omit acl) (Omit.contains omit timestamps)
        (Omit.contains omit finder) (Omit.contains omit sparse) (Omit.contains omit hardlink)

  -- If every allocation succeeds, a borrowed view without some families is the validated record
  -- in which `normalize` would have cleared those families.
  pub borrowing_omitting-clear_omitted :
      (c : CanonicalMetadata) (omit : Omit)
      → borrowing_omitting reserve c omit ≡ new (clear_omitted Family.all omit c.metadata)
  unfolding borrowing_omitting
  borrowing_omitting-clear_omitted c omit =
      rw (copy_kept-kept Family.all omit c.metadata no_metadata, kept-clear_omitted omit c.metadata)
        refl
