-- ===== src/Metadata/Borrowing.antt =====
-- rust/src/metadata_borrow.rs: a canonical record without some families, as a view of another.
pub mod Omission
use difz.Prelude.{
  ℕ, Bool, not, List, [], ◌∷◌, length, if◌then◌else◌, Result, ok, err, ◌>>=◌, ◌>>◌, reject,
}
use difz.Metadata.Family
use difz.Metadata.Family.{Family, xattr, acl, timestamps, finder, sparse, hardlink}
use difz.Metadata.Kinds.{Error, out_of_memory}
use difz.Metadata.Omit
use difz.Metadata.Omit.{Omit}
use difz.Metadata.Records.{Metadata, no_metadata}
use difz.Metadata.Validation.{CanonicalMetadata, new}

module _ (reserve : ℕ → Bool) where
  -- `reserve`: space for so many descriptors, or an error.
  unfoldable pub reserve_exact : ℕ → Result Error (Unit {0})
  reserve_exact n = reject (not (reserve n)) out_of_memory

  -- The branch of the loop for a family that is kept: its fields of the record `m`.
  unfoldable pub copy : Family → Metadata → Metadata → Result Error Metadata
  copy xattr m value = reserve_exact (length m.xattrs) >> ok (record value { xattrs = m.xattrs })
  copy acl m value =
      reserve_exact (length m.aces)
      >> ok (record value { aces = m.aces; native_acl = m.native_acl })
  copy timestamps m value = ok (record value { times = m.times })
  copy finder m value =
      ok (record value { finder_flags = m.finder_flags; finder_info = m.finder_info })
  copy sparse m value = reserve_exact (length m.holes) >> ok (record value { holes = m.holes })
  copy hardlink m value = ok (record value { hardlink_to = m.hardlink_to })

  unfoldable pub copy_kept : List Family → Omit → Metadata → Metadata → Result Error Metadata
  copy_kept [] omit m value = ok value
  copy_kept (family ∷ families) omit m value = do
    next ← if Omit.contains omit family then ok value else copy family m value
    copy_kept families omit m next

  unfoldable pub borrowing_omitting : CanonicalMetadata → Omit → Result Error CanonicalMetadata
  borrowing_omitting c omit = do value ← copy_kept Family.all omit c.metadata no_metadata; new value
