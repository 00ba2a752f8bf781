-- ===== src/TreePatch/RoundTrip/Entries.antt =====
-- rust/src/tree_patch_decode.rs: its checks on the entries that `create` writes.
use difz.Prelude.{
  ℕ, ◌≤◌, ◌≡◌, refl, Bool, true, List, [], ◌∷◌, ◌++◌, map, Option, none, some, arith, le→ltb_false,
  ok, >>-eq-ok, All, Option-cases, inl, inr,
}
use difz.Prelude.Bytes.{Bytes, bytes_eq_refl}
use difz.Metadata.Omit.{Omit}
use difz.Metadata.Records.{Metadata}
use difz.Metadata.Decoding.RoundTrip.{decode-written}
use difz.Directory.Paths.Sizes.{path_size}
use difz.Directory.Paths.{validate_path}
use difz.Directory.Structure
use difz.Directory.Structure.Hierarchy.{IsTree}
use difz.Directory.Snapshot.{Content, directory, file, symlink, Entry, structure, mode_of}
use difz.Directory.Canonical.{check_holes, check_link, check_relations}
use difz.File.Codec.{Native}
use difz.TreePatch.{default_limits}
use difz.TreePatch.Decoding.{Operation, DecodedEntry, check_payload, check_link as check_operation}
use difz.TreePatch.Decoding.Reading.{EntryFits}
use difz.TreePatch.Encoding.Layout.{IsWrittenAs}
use difz.TreePatch.Encoding.Choice.{
  IsChosen, a_directory, a_symlink, a_link, a_copy, a_delta, a_whole, choose-IsChosen,
}
use difz.TreePatch.Encoding.Projection.{IsSoundRecord, IsKept}

-- Only files are links.
abbrev pub LinksAsFile : Entry → Type 0
LinksAsFile e =
    (path : Bytes)
    → e.metadata.metadata.hardlink_to ≡ some path
    → (mode : ℕ) × (bytes : Bytes) × (e.content ≡ file mode bytes)

check_link-LinksAsFile :
    (before : List Entry) (content : Content) (m : Metadata) (link : Option Bytes) (path : Bytes)
    → check_link before content m link ≡ ok tt
    → link ≡ some path
    → (mode : ℕ) × (bytes : Bytes) × (content ≡ file mode bytes)
unfolding check_link
check_link-LinksAsFile before content m none path h e = absurd (cc e)
check_link-LinksAsFile before (directory mode) m (some p) path h e = absurd (cc h)
check_link-LinksAsFile before (symlink target) m (some p) path h e = absurd (cc h)
check_link-LinksAsFile before (file mode bytes) m (some p) path h e = (mode, bytes, refl)

pub links_as_files :
    (before entries : List Entry) → check_relations before entries ≡ ok tt → All LinksAsFile entries
unfolding check_relations
links_as_files before [] h = tt
links_as_files before (e ∷ rest) h =
    let (_, h₁) = >>-eq-ok (check_holes e.content e.metadata.metadata.holes) _ h in
    let (link, later) =
      >>-eq-ok (check_link before e.content e.metadata.metadata e.metadata.metadata.hardlink_to) _
        h₁ in
    (
      λ path linked.
          check_link-LinksAsFile before e.content e.metadata.metadata
            e.metadata.metadata.hardlink_to path link linked,
      links_as_files (before ++ e ∷ []) rest later,
    )

-- What the checks of a canonical snapshot say of one entry.
pub record IsGood (omit : Omit) (e : Entry) : Type 0 where
  pub path : validate_path e.path ≡ ok tt
  pub mode : mode_of e.content ≤ 511
  pub link : LinksAsFile e
  pub sound : IsSoundRecord e.metadata
  pub kept : IsKept omit e

pub IsGood-entries :
    (omit : Omit) (before : List Structure.Record) (entries : List Entry)
    → IsTree before (map structure entries)
    → All LinksAsFile entries
    → All (λ e. IsSoundRecord e.metadata) entries
    → All (IsKept omit) entries
    → All (IsGood omit) entries
unfolding structure
IsGood-entries omit before [] tree links sound kept = tt
IsGood-entries omit before (e ∷ rest) (fits, later) links sound kept = (
  record { path = fits.path; mode = fits.mode; link = links.0; sound = sound.0; kept = kept.0 },
  IsGood-entries omit (before ++ structure e ∷ []) rest later links.1 sound.1 kept.1,
)

module _ (native : Native) (reserve : ℕ → Bool) (blake3 : Bytes → Bytes)
    (ample : (n : ℕ) → reserve n ≡ true) (source : List Entry) (omit : Omit) where
  payload_passes :
      (e : Entry) (operation : Operation) (payload : Bytes)
      → IsChosen native reserve blake3 default_limits.max_symlink_bytes source e operation payload
      → check_payload default_limits.max_symlink_bytes operation payload e.metadata.metadata ≡ ok tt
  unfolding check_payload
  payload_passes e operation payload (a_directory mode is o p) = rw (o, p) refl
  payload_passes e operation payload (a_symlink target is o p short) =
      rw (o, p, check_payload, le→ltb_false _ _ short) refl
  payload_passes e operation payload (a_link mode bytes is o linked) =
      rw (o, check_payload, linked, bytes_eq_refl payload) refl
  payload_passes e operation payload (a_copy mode bytes is o p unlinked old) = rw (o, p) refl
  payload_passes e operation payload (a_delta mode bytes previous is o unlinked old changed made) =
      rw o refl
  payload_passes e operation payload (a_whole mode bytes is o p unlinked absent) = rw o refl

  unlinked_passes :
      (operation : Operation) (m : Metadata)
      → m.hardlink_to ≡ none
      → check_operation operation m ≡ ok tt
  unfolding check_operation
  unlinked_passes operation m h = rw h refl

  no_link :
      (e : Entry)
      → LinksAsFile e
      → ((mode : ℕ) (bytes : Bytes) → e.content ≡ file mode bytes → ⊥)
      → e.metadata.metadata.hardlink_to ≡ none
  no_link e as_file other = elim (Option-cases e.metadata.metadata.hardlink_to) [
    | inl nothing ↦ nothing
    | inr (path, linked) ↦
        let (mode, bytes, is) = as_file path linked in absurd (other mode bytes is)
  ]

  link_passes :
      (e : Entry) (operation : Operation) (payload : Bytes)
      → LinksAsFile e
      → IsChosen native reserve blake3 default_limits.max_symlink_bytes source e operation payload
      → check_operation operation e.metadata.metadata ≡ ok tt
  unfolding check_operation
  link_passes e operation payload as_file (a_directory mode is o p) =
      unlinked_passes operation e.metadata.metadata
        (no_link e as_file (λ m b f. absurd (cc (is, f))))
  link_passes e operation payload as_file (a_symlink target is o p short) =
      unlinked_passes operation e.metadata.metadata
        (no_link e as_file (λ m b f. absurd (cc (is, f))))
  link_passes e operation payload as_file (a_link mode bytes is o linked) = rw (o, linked) refl
  link_passes e operation payload as_file (a_copy mode bytes is o p unlinked old) =
      unlinked_passes operation e.metadata.metadata unlinked
  link_passes e operation payload as_file
        (a_delta mode bytes previous is o unlinked old changed made) =
      unlinked_passes operation e.metadata.metadata unlinked
  link_passes e operation payload as_file (a_whole mode bytes is o p unlinked absent) =
      unlinked_passes operation e.metadata.metadata unlinked

  pub entry_fits :
      (e : Entry) (d : DecodedEntry)
      → IsGood omit e
      → IsWrittenAs native reserve blake3 source e d
      → EntryFits reserve default_limits omit d
  entry_fits e d good w =
      let chosen =
        choose-IsChosen native reserve blake3 _ source e d.operation d.payload w.chosen in
      let (some_path, short) = path_size e.path good.path in
      let decoded =
        decode-written reserve e.metadata.metadata ample good.sound.typed good.sound.valid
          (omega (arith, w.fits.word)) in
      record {
        mode = omega (arith, w.mode, good.mode);
        some_path = rw w.path some_path;
        path = rw w.path short;
        payload = w.payload;
        record_size = rw w.metadata w.fits.largest;
        record_word = rw w.metadata w.fits.word;
        decoded = rw w.metadata decoded;
        kept = rw w.metadata good.kept;
        payload_of = rw w.metadata (payload_passes e d.operation d.payload chosen);
        link = rw w.metadata (link_passes e d.operation d.payload good.link chosen);
      }
