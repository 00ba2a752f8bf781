-- ===== src/TreePatch/Encoding/Projection.antt =====
-- rust/src/tree_patch_encode.rs, `project`: the snapshots that are compared.
use difz.Prelude.{
  ℕ, ◌≡◌, refl, sym, ap, ◌∙◌, Bool, true, false, not, ◌&&◌, ◌||◌, List, [], ◌∷◌, map, arith, length,
  ◌==◌, ==_iff, if◌then◌else◌, ok, map_err, reject, >>-eq-ok, >>=-eq-ok, map_err-eq-ok, All, subst,
  Bool-cases, inl, inr,
}
use difz.Prelude.Bytes.{Bytes}
use difz.Metadata.Family
use difz.Metadata.Family.{Family, xattr, acl, timestamps, finder, sparse, hardlink}
use difz.Metadata.Omit
use difz.Metadata.Omit.{Omit}
use difz.Metadata.Records.{Metadata, IsTyped}
use difz.Metadata.Validation.{CanonicalMetadata, validate, new}
use difz.Metadata.Normalization.{clear, clear_omitted}
use difz.Metadata.Borrowing.{borrowing_omitting}
use difz.Metadata.Borrowing.Omission.{borrowing_omitting-clear_omitted}
use difz.Directory.Snapshot.{Entry, Snapshot}
use difz.Directory.Canonical
use difz.Directory.Canonical.{CanonicalSnapshot}
use difz.Directory.Canonical.Relations.{new-eq-ok}
use difz.File.Codec.{Native}
use difz.TreePatch.{out_of_memory, metadata_error, snapshot_error}
use difz.TreePatch.Decoding.{carries, has_omitted}
use difz.TreePatch.Encoding.{project_entries, project, masked}

-- What holds of every `CanonicalMetadata`: it was validated, and its fields have their types.
pub record IsSoundRecord (c : CanonicalMetadata) : Type 0 where
  pub typed : IsTyped c.metadata
  pub valid : validate c.metadata ≡ ok tt

-- What holds of every `CanonicalSnapshot`.
pub record IsSound (s : CanonicalSnapshot) : Type 0 where
  pub canonical : Canonical.new s.snapshot ≡ ok s
  pub entries : All (λ e. IsSoundRecord e.metadata) s.snapshot.entries
  pub root : IsSoundRecord s.snapshot.root

clear-IsTyped : (f : Family) (m : Metadata) → IsTyped m → IsTyped (clear f m)
unfolding clear
clear-IsTyped xattr m t = record {
  xattrs = tt;
  aces = t.aces;
  native_acl = t.native_acl;
  mtime = t.mtime;
  atime = t.atime;
  btime = t.btime;
  finder_flags = t.finder_flags;
  finder_info = t.finder_info;
  holes = t.holes;
  hardlink_to = t.hardlink_to;
}
clear-IsTyped acl m t = record {
  xattrs = t.xattrs;
  aces = tt;
  native_acl = tt;
  mtime = t.mtime;
  atime = t.atime;
  btime = t.btime;
  finder_flags = t.finder_flags;
  finder_info = t.finder_info;
  holes = t.holes;
  hardlink_to = t.hardlink_to;
}
clear-IsTyped timestamps m t = record {
  xattrs = t.xattrs;
  aces = t.aces;
  native_acl = t.native_acl;
  mtime = tt;
  atime = tt;
  btime = tt;
  finder_flags = t.finder_flags;
  finder_info = t.finder_info;
  holes = t.holes;
  hardlink_to = t.hardlink_to;
}
clear-IsTyped finder m t = record {
  xattrs = t.xattrs;
  aces = t.aces;
  native_acl = t.native_acl;
  mtime = t.mtime;
  atime = t.atime;
  btime = t.btime;
  finder_flags = omega arith;
  finder_info = tt;
  holes = t.holes;
  hardlink_to = t.hardlink_to;
}
clear-IsTyped sparse m t = record {
  xattrs = t.xattrs;
  aces = t.aces;
  native_acl = t.native_acl;
  mtime = t.mtime;
  atime = t.atime;
  btime = t.btime;
  finder_flags = t.finder_flags;
  finder_info = t.finder_info;
  holes = tt;
  hardlink_to = t.hardlink_to;
}
clear-IsTyped hardlink m t = record {
  xattrs = t.xattrs;
  aces = t.aces;
  native_acl = t.native_acl;
  mtime = t.mtime;
  atime = t.atime;
  btime = t.btime;
  finder_flags = t.finder_flags;
  finder_info = t.finder_info;
  holes = t.holes;
  hardlink_to = tt;
}

clear_omitted-IsTyped :
    (families : List Family) (omit : Omit) (m : Metadata)
    → IsTyped m
    → IsTyped (clear_omitted families omit m)
unfolding clear_omitted
clear_omitted-IsTyped [] omit m t = t
clear_omitted-IsTyped (f ∷ families) omit m t = elim (Bool-cases (Omit.contains omit f)) [
  | inl omitted ↦ rw omitted (clear_omitted-IsTyped families omit (clear f m) (clear-IsTyped f m t))
  | inr other ↦ rw other (clear_omitted-IsTyped families omit m t)
]

six :
    (m : Metadata) (a b c d e f : Bool)
    → (let m₁ = if a then clear xattr m else m in
        let m₂ = if b then clear acl m₁ else m₁ in
        let m₃ = if c then clear timestamps m₂ else m₂ in
        let m₄ = if d then clear finder m₃ else m₃ in
        let m₅ = if e then clear sparse m₄ else m₄ in
        let n = if f then clear hardlink m₅ else m₅ in
        (a && carries xattr n)
        || ((b && carries acl n)
            || ((c && carries timestamps n)
                || ((d && carries finder n)
                    || ((e && carries sparse n) || ((f && carries hardlink n) || false))))))
      ≡ false
unfolding clear carries
six m a b c d e f = ground arith

has_omitted-clear_omitted :
    (omit : Omit) (m : Metadata) → has_omitted (clear_omitted Family.all omit m) omit ≡ false
unfolding has_omitted clear_omitted
has_omitted-clear_omitted omit m =
    six m (Omit.contains omit xattr) (Omit.contains omit acl) (Omit.contains omit timestamps)
      (Omit.contains omit finder) (Omit.contains omit sparse) (Omit.contains omit hardlink)

new_sound :
    (m : Metadata) {c : CanonicalMetadata}
    → IsTyped m
    → new m ≡ ok c
    → IsSoundRecord c × (c.metadata ≡ m)
unfolding new
new_sound m {c} t h =
    let (valid, made) = >>-eq-ok (validate m) _ h in
    let same : record { metadata = m } ≡ c = cc made in
    rw (← same) (record { typed = t; valid = valid }, refl)

-- With nothing omitted, a record has nothing omitted.
has_omitted-nothing : (m : Metadata) (omit : Omit) → omit.bits ≡ 0 → has_omitted m omit ≡ false
unfolding has_omitted Omit.contains Family.bit Family.tag
has_omitted-nothing m omit h = rw h refl

-- Without the omitted families.
abbrev pub IsKept : Omit → Entry → Type 0
IsKept omit e = has_omitted e.metadata.metadata omit ≡ false

module _ (native : Native) (reserve : ℕ → Bool) (blake3 : Bytes → Bytes)
    (ample : (n : ℕ) → reserve n ≡ true) (omit : Omit) where
  borrowed :
      (c : CanonicalMetadata) {d : CanonicalMetadata}
      → IsSoundRecord c
      → borrowing_omitting reserve c omit ≡ ok d
      → IsSoundRecord d × (has_omitted d.metadata omit ≡ false)
  borrowed c {d} s h =
      let (sound, same) =
        new_sound (clear_omitted Family.all omit c.metadata)
          (clear_omitted-IsTyped Family.all omit c.metadata s.typed)
          (sym (borrowing_omitting-clear_omitted reserve ample c omit) ∙ h) in
      (sound, rw same (has_omitted-clear_omitted omit c.metadata))

  project_entries-eq-ok :
      (entries : List Entry) {projected : List Entry}
      → All (λ e. IsSoundRecord e.metadata) entries
      → project_entries native reserve blake3 entries omit ≡ ok projected
      → (map (λ e. e.path) projected ≡ map (λ e. e.path) entries)
        × (map (λ e. e.content) projected ≡ map (λ e. e.content) entries)
        × All (λ e. IsSoundRecord e.metadata) projected
        × All (IsKept omit) projected
  unfolding project_entries
  project_entries-eq-ok [] {projected} s h =
      let same : [] ≡ projected = cc h in rw (← same) (refl, refl, tt, tt)
  project_entries-eq-ok (e ∷ entries) {projected} s h =
      let (metadata, here, h₁) =
        >>=-eq-ok (map_err metadata_error (borrowing_omitting reserve e.metadata omit)) _ h in
      let (rest, later, h₂) = >>=-eq-ok (project_entries native reserve blake3 entries omit) _ h₁ in
      let (sound, kept) =
        borrowed e.metadata s.0
          (map_err-eq-ok metadata_error (borrowing_omitting reserve e.metadata omit) here) in
      let (paths, contents, sounds, all_kept) = project_entries-eq-ok entries s.1 later in
      let same : (record e { metadata = metadata } ∷ rest) ≡ projected = cc h₂ in
      rw (← same) (
        ap (λ t. e.path ∷ t) paths,
        ap (λ t. e.content ∷ t) contents,
        (sound, sounds),
        (kept, all_kept),
      )

  -- What `masked` gives is sound, has the paths and the contents, and nothing that is omitted.
  pub record IsMasked (s t : CanonicalSnapshot) : Type 0 where
    pub sound : IsSound t
    pub paths : map (λ e. e.path) t.snapshot.entries ≡ map (λ e. e.path) s.snapshot.entries
    pub contents : map (λ e. e.content) t.snapshot.entries ≡ map (λ e. e.content) s.snapshot.entries
    pub kept : All (IsKept omit) t.snapshot.entries
    pub root : has_omitted t.snapshot.root.metadata omit ≡ false

  project-IsMasked :
      (s : CanonicalSnapshot) {t : CanonicalSnapshot}
      → IsSound s
      → project native reserve blake3 s omit ≡ ok t
      → IsMasked s t
  unfolding project
  project-IsMasked s {t} sound h =
      let (_, h₁) =
        >>-eq-ok (reject (not (reserve (length s.snapshot.entries))) out_of_memory) _ h in
      let (entries, first, h₂) =
        >>=-eq-ok (project_entries native reserve blake3 s.snapshot.entries omit) _ h₁ in
      let (root, second, h₃) =
        >>=-eq-ok (map_err metadata_error (borrowing_omitting reserve s.snapshot.root omit)) _ h₂ in
      let snapshot : Snapshot = record { entries = entries; root = root } in
      let made = map_err-eq-ok snapshot_error (Canonical.new snapshot) h₃ in
      let (root_sound, root_kept) =
        borrowed s.snapshot.root sound.root (map_err-eq-ok metadata_error _ second) in
      let (paths, contents, sounds, kept) =
        project_entries-eq-ok s.snapshot.entries sound.entries first in
      let same : t ≡ record { snapshot = snapshot } =
        ap (λ x. record { snapshot = x }) (new-eq-ok snapshot made).0 in
      subst (IsMasked s) (sym same) (record {
        sound = record { canonical = made ∙ ap ok same; entries = sounds; root = root_sound };
        paths = paths;
        contents = contents;
        kept = kept;
        root = root_kept;
      })

  all_kept : (entries : List Entry) → omit.bits ≡ 0 → All (IsKept omit) entries
  all_kept [] h = tt
  all_kept (e ∷ entries) h = (has_omitted-nothing e.metadata.metadata omit h, all_kept entries h)

  -- If every allocation succeeds, a sound snapshot without the omitted families is sound again,
  -- has the same paths and contents in their order, and no record of it, the root's included,
  -- carries an omitted family.
  pub masked-IsMasked :
      (s : CanonicalSnapshot) {t : CanonicalSnapshot}
      → IsSound s
      → masked native reserve blake3 s omit ≡ ok t
      → IsMasked s t
  unfolding masked
  masked-IsMasked s {t} sound h = elim (Bool-cases (omit.bits == 0)) [
    | inl nothing ↦
        let none_omitted = (==_iff omit.bits 0).0 nothing in
        let same : s ≡ t = cc (rw nothing at h) in
        subst (IsMasked s) same (record {
          sound = sound;
          paths = refl;
          contents = refl;
          kept = all_kept s.snapshot.entries none_omitted;
          root = has_omitted-nothing s.snapshot.root.metadata omit none_omitted;
        })
    | inr something ↦ project-IsMasked s sound (rw something at h)
  ]
