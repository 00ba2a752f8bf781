-- ===== src/TreePatch/RoundTrip.antt =====
-- rust/src/tree_patch.rs and its parts together: `create`, and `apply` behind it.
pub mod Entries
pub mod Alike
pub mod Parsed
pub mod Rebuilt
use difz.Prelude.{
  ℕ, ◌<◌, ◌≤◌, ◌≡◌, refl, sym, ap, ◌∙◌, Bool, true, List, [], ◌∷◌, map, arith, length, ok,
  >>=-eq-ok, All, subst,
}
use difz.Prelude.Bytes.{Bytes, bytes_eq, bytes_eq_refl}
use difz.Prelude.Utf8.Encoding.{IsScalar}
use difz.Metadata.Omit.{Omit}
use difz.Directory.Snapshot.{Entry, Snapshot, mode_of}
use difz.Directory.Canonical
use difz.Directory.Canonical.{CanonicalSnapshot}
use difz.Directory.Canonical.Relations.{new-eq-ok}
use difz.File.Codec.{Native}
use difz.File.Patch.RoundTrip.{IsHash, IsLossless}
use difz.TreePatch.{default_limits}
use difz.TreePatch.Encoding.{CreateOptions, masked, create_masked, create, header_for}
use difz.TreePatch.Encoding.Outcome.{IsCreated, create_masked-IsCreated}
use difz.TreePatch.Encoding.Projection.{IsSound, IsMasked, masked-IsMasked}
use difz.TreePatch.Applying.{ApplyLimits, Rebuilt as RebuiltEntry, rebuild_all, apply, entries_of}
use difz.TreePatch.Applying.Safety.{output_bytes}
use difz.TreePatch.RoundTrip.Entries.{IsGood}
use difz.TreePatch.RoundTrip.Parsed.{decode-created, parsed, good, header}
use difz.TreePatch.RoundTrip.Rebuilt.{same_total, same_files, rebuild_all_of}

modes_of :
    (omit : Omit) (es : List Entry) → All (IsGood omit) es → All (λ e. mode_of e.content ≤ 511) es
modes_of omit [] h = tt
modes_of omit (e ∷ es) h = (h.0.mode, modes_of omit es h.1)

-- Limits that differ from the default in the size of the output only.
abbrev pub limits_of : ℕ → ApplyLimits
limits_of n = record { patch = default_limits; max_output_bytes = n }

-- The snapshots that are compared, and a patch between them.
module _ (native : Native) (reserve : ℕ → Bool) (blake3 : Bytes → Bytes)
    (ample : (n : ℕ) → reserve n ≡ true) (hash : IsHash blake3) (lossless : IsLossless native)
    (source target s t : CanonicalSnapshot) (options : CreateOptions) (maximum : ℕ)
    (from_source : IsMasked native reserve blake3 ample options.omit source s)
    (compared : masked native reserve blake3 source options.omit ≡ ok s)
    (from_target : IsMasked native reserve blake3 ample options.omit target t)
    (mask : options.omit.bits < 64) (scalars : All (λ r. All IsScalar r.pattern) options.rules)
    (budget : output_bytes target.snapshot.entries ≤ maximum) {patch : Bytes}
    (made : IsCreated native reserve blake3 s t options patch) where
  rebuilt :
      (all : List RebuiltEntry) × (rebuild_all native reserve blake3 source.snapshot.entries []
          maximum made.entries
        ≡ ok all)
      × (entries_of all ≡ t.snapshot.entries)
  rebuilt =
      let (_, asc, related, _, _) = new-eq-ok t.snapshot from_target.sound.canonical in
      let modes = modes_of options.omit t.snapshot.entries (
        good native reserve blake3 ample hash s t options from_target.sound from_target.kept
          from_target.root mask scalars made) in
      let spent = same_total t.snapshot.entries target.snapshot.entries (
        same_files t.snapshot.entries target.snapshot.entries from_target.paths
          from_target.contents) in
      rebuild_all_of native reserve blake3 ample hash lossless source.snapshot.entries
        s.snapshot.entries
        (same_files s.snapshot.entries source.snapshot.entries from_source.paths
          from_source.contents)
        [] t.snapshot.entries made.entries maximum asc related modes made.written_as
        (omega (arith, spent, budget))

  apply-created : apply native reserve blake3 source patch (limits_of maximum) ≡ ok t
  unfolding apply parsed header_for header
  apply-created =
      let (all, built, entries) = rebuilt in
      let parsed_is =
        decode-created native reserve blake3 ample hash s t options from_target.sound
          from_target.kept from_target.root mask scalars made in
      rw
        (
          parsed_is,
          compared,
          bytes_eq_refl (Canonical.hash blake3 s),
          ample (length made.entries),
          built,
          entries,
          from_target.sound.canonical,
          bytes_eq_refl (Canonical.hash blake3 t),
        )
        refl

-- If the hash function returns 32 bytes, the decompressor inverts the compressor for the same
-- source and the exact size, every allocation succeeds, both snapshots are canonical with valid
-- records of typed fields, the mask has the six families' bits, the rules are Unicode text, the
-- files and link targets of the target take no more bytes than a maximum and `create` returned a
-- patch, then applying the patch to the source within that maximum gives the target without the
-- omitted families.
pub apply-create :
    (native : Native) (reserve : ℕ → Bool) (blake3 : Bytes → Bytes)
    → ((n : ℕ) → reserve n ≡ true)
    → IsHash blake3
    → IsLossless native
    → (source target : CanonicalSnapshot) (options : CreateOptions) (maximum : ℕ) (patch : Bytes)
    → IsSound source
    → IsSound target
    → options.omit.bits < 64
    → All (λ r. All IsScalar r.pattern) options.rules
    → output_bytes target.snapshot.entries ≤ maximum
    → create native reserve blake3 source target options ≡ ok patch
    → (t : CanonicalSnapshot) × (masked native reserve blake3 target options.omit ≡ ok t)
      × (apply native reserve blake3 source patch (limits_of maximum) ≡ ok t)
unfolding create
apply-create native reserve blake3 ample hash lossless source target options maximum patch
      source_sound target_sound mask scalars budget h =
    let (s, compared, h₁) = >>=-eq-ok (masked native reserve blake3 source options.omit) _ h in
    let (t, kept, h₂) = >>=-eq-ok (masked native reserve blake3 target options.omit) _ h₁ in
    (
      t,
      kept,
      apply-created native reserve blake3 ample hash lossless source target s t options maximum
          (masked-IsMasked native reserve blake3 ample options.omit source source_sound compared)
          compared
          (masked-IsMasked native reserve blake3 ample options.omit target target_sound kept) mask
          scalars budget (create_masked-IsCreated native reserve blake3 s t options h₂),
    )
